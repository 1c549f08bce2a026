-- ===== src/Verify/Orders.antt =====
-- src/chain/verify.ts: `readOrderArgs`, `checkMainOrder` and `checkOrders`, the orders that a
-- transaction places against the order and the legs that its intent states.
pub mod Held
pub mod Matched
pub mod Placed
use waterx_agent.Prelude.{
  ℕ, zero, suc, String, Bool, true, false, not, ◌&&◌, ◌||◌, List, [], ◌∷◌, ◌++◌, Option, none, some,
  ◌==◌, if◌then◌else◌, length, is_some, ℤ, pos,
}
use waterx_agent.Policy.Intent.{WriteIntent, AuthorizedLeg}
use waterx_agent.Verify.Text.{Text}
use waterx_agent.Verify.Transaction.{MoveCall, Decoded, call_at, pure_at}
use waterx_agent.Verify.Deployment.{Deployment}
use waterx_agent.Verify.Encoding.{
  Encoding, Value, number, text, flag, Read, present, absent, bad, read_encoded, encoding_of,
  lookup, eq_value,
}
use waterx_agent.Verify.Bindings.{
  Binding, bound, free, order_arg_bindings, order_arg_constructor, position_id,
}
use waterx_agent.Verify.Authorized.{Wanted, stated, unstated, throws, authorized, big_int}
use waterx_agent.Verify.Host.{Host, AbiEntry, pkg_of, params_of}
use waterx_agent.Verify.Arguments.{check_wanted, is_optional, type_at}
use waterx_agent.Verify.Shape.{is_true}
use waterx_agent.Verify.Reach.{reachable_from}
use waterx_agent.Verify.Refusal.{
  Refusal, Check, ◌>>◌, check_each, numbered, unconstrained, not_readable, threw, legs_not_stated,
  unreadable_order, leg_opens, leg_commits, wrong_leg_size, leg_has_bound, wrong_leg_position,
  unauthorized_leg, wrong_leg_count, wrong_main_count, unhandled_leg_argument,
}

-- `Partial<OrderArgs>`, by the names of the arguments. The last one read comes first.
abbrev pub OrderArgs : Type 0
OrderArgs = List (String × Value)

abbrev pub with_arg : (OrderArgs → Option OrderArgs) → String → OrderArgs → Read → Option OrderArgs
with_arg rest name args bad = none
with_arg rest name args absent = rest args
with_arg rest name args (present v) = rest ((name, v) ∷ args)

module _ (h : Host) (t : Decoded) (c : MoveCall) (abi : AbiEntry) where
  abbrev pub read_arg : Option Encoding → ℕ → Read
  read_arg none i = bad
  read_arg (some e) i = read_encoded h.utf8 (pure_at t c.arguments i) e

  unfoldable pub read_args_from : List (ℕ × String) → OrderArgs → Option OrderArgs
  unfolding encoding_of read_encoded
  read_args_from [] args = some args
  read_args_from ((i, name) ∷ rest) args =
      with_arg (read_args_from rest) name args (read_arg (encoding_of (type_at abi i)) i)

  unfoldable pub read_args : Option OrderArgs
  unfolding read_args_from numbered
  read_args =
      if length c.arguments == length abi.params
      then read_args_from (numbered 0 abi.params) []
      else none

unfoldable pub read_call : Host → Decoded → Option MoveCall → Option AbiEntry → Option OrderArgs
unfolding read_args
read_call h t none abi = none
read_call h t (some c) none = none
read_call h t (some c) (some abi) = read_args h t c abi

-- `readOrderArgs`, without the sentence that says why it could not.
unfoldable pub read_order_args : Host → Decoded → ℕ → Option OrderArgs
unfolding read_call
read_order_args h t i = read_call h t (call_at t i) (h.abi order_arg_constructor)

abbrev pub read_of : Option Value → Read
read_of none = absent
read_of (some v) = present v

abbrev pub is_optional_type : Option Encoding → Bool
is_optional_type none = false
is_optional_type (some e) = is_optional e

module _ (h : Host) (intent : WriteIntent) (args : OrderArgs) where
  unfoldable pub check_main_argument : AbiEntry → ℕ → String → Option Binding → Check
  unfolding check_wanted authorized encoding_of lookup
  check_main_argument abi i name none = some unconstrained
  check_main_argument abi i name (some free) = none
  check_main_argument abi i name (some (bound field)) =
      check_wanted (is_optional_type (encoding_of (type_at abi i))) (authorized h.one intent field)
        (read_of (lookup name args))
  check_main_argument abi i name (some _) = some not_readable

  -- `checkMainOrder`
  unfoldable pub check_main_order : Option AbiEntry → Check
  unfolding check_main_argument check_each numbered lookup
  check_main_order none = none
  check_main_order (some abi) =
      check_each (λ (i, name). check_main_argument abi i name (lookup name order_arg_bindings))
        (numbered 0 abi.params)

-- `LEG_ARG_HANDLING`
abbrev pub leg_arg_handling : List (String × Unit {0})
leg_arg_handling =
    ("isLong", tt)
    ∷ ("isStopOrder", tt)
    ∷ ("triggerPrice", tt)
    ∷ ("reduceOnly", tt)
    ∷ ("collateralAmount", tt)
    ∷ ("size", tt)
    ∷ ("linkedPositionId", tt)
    ∷ ("acceptablePrice", tt)
    ∷ []

unfoldable pub check_handled : String → Check
unfolding lookup
check_handled name =
    if is_some (lookup name leg_arg_handling) then none else some unhandled_leg_argument

-- A leg in the terms that it is matched by.
pub record Leg : Type 0 where
  pub trigger_price : ℤ
  pub is_stop_order : Bool
  pub is_long : Bool

abbrev pub add_leg : AuthorizedLeg → Option ℤ → Option (List Leg) → Option (List Leg)
add_leg leg (some price) (some legs) = some (
    record { trigger_price = price; is_stop_order = leg.is_stop_order; is_long = leg.is_long }
    ∷ legs)
add_leg leg _ _ = none

unfoldable pub legs_of : List AuthorizedLeg → Option (List Leg)
unfolding big_int
legs_of [] = some []
legs_of (leg ∷ legs) = add_leg leg (big_int leg.trigger_price_raw) (legs_of legs)

-- `===` of two values, either of them undefined
unfoldable pub eq_optional : Option Value → Option Value → Bool
unfolding eq_value
eq_optional none none = true
eq_optional (some a) (some b) = eq_value a b
eq_optional _ _ = false

abbrev pub truthy : Option Value → Bool
truthy none = false
truthy (some (flag b)) = b
truthy (some (number (pos zero))) = false
truthy (some (number _)) = true
truthy (some (text [])) = false
truthy (some (text (_ ∷ _))) = true

unfoldable pub matches_leg : OrderArgs → Leg → Bool
unfolding eq_optional lookup
matches_leg args leg =
    eq_optional (some (number leg.trigger_price)) (lookup "triggerPrice" args)
    && (eq_optional (some (flag leg.is_stop_order)) (lookup "isStopOrder" args)
        && eq_optional (some (flag leg.is_long)) (lookup "isLong" args))

abbrev pub and_kept : Leg → Option (List Leg) → Option (List Leg)
and_kept leg none = none
and_kept leg (some legs) = some (leg ∷ legs)

-- `findIndex` and `splice`: what is left when the first leg that matches is taken out.
unfoldable pub take_leg : OrderArgs → List Leg → Option (List Leg)
unfolding matches_leg
take_leg args [] = none
take_leg args (leg ∷ legs) =
    if matches_leg args leg then some legs else and_kept leg (take_leg args legs)

abbrev pub check_size_is : Option Value → Option ℤ → Check
check_size_is size none = some threw
check_size_is size (some n) =
    if eq_optional size (some (number n)) then none else some wrong_leg_size

unfoldable pub check_leg_size : Option Value → Option String → Check
unfolding eq_optional big_int
check_leg_size size none = none
check_leg_size size (some raw) = check_size_is size (big_int raw)

unfoldable pub check_leg_position : Option Value → Wanted → Check
unfolding eq_optional
check_leg_position linked throws = some threw
check_leg_position linked unstated =
    if eq_optional linked none then none else some wrong_leg_position
check_leg_position linked (stated v) =
    if eq_optional linked (some v) then none else some wrong_leg_position

abbrev pub zero_value : Option Value
zero_value = some (number (pos 0))

-- Where the loop over the orders stands.
pub record Tally : Type 0 where
  pub remaining : List Leg
  pub mains : ℕ
  pub legs : ℕ

pub data Progress : Type 0 where
  going : Tally → Progress
  refused : Refusal → Progress

abbrev pub go_if : Check → Progress → Progress
go_if none p = p
go_if (some r) p = refused r

abbrev pub use_leg : Tally → Option (List Leg) → Progress
use_leg tally none = refused unauthorized_leg
use_leg tally (some remaining) =
    going (record { remaining = remaining; mains = tally.mains; legs = suc tally.legs })

abbrev pub and_go : Progress → (Tally → Progress) → Progress
and_go (going tally) k = k tally
and_go (refused r) k = refused r

abbrev pub check_tally : (authorized_legs wanted_mains : ℕ) → Progress → Check
check_tally authorized_legs wanted_mains (refused r) = some r
check_tally authorized_legs wanted_mains (going tally) =
    (if tally.legs == authorized_legs then none else some wrong_leg_count)
    >> (if tally.mains == wanted_mains then none else some wrong_main_count)

-- The constructors that the defining calls reach, one call after another.
unfoldable pub constructors_from : Decoded → Option Text → List ℕ → List ℕ
unfolding reachable_from
constructors_from t p [] = []
constructors_from t p (i ∷ is) = (reachable_from t p i).constructors ++ constructors_from t p is

abbrev pub start_tally : List Leg → Tally
start_tally legs = record { remaining = legs; mains = 0; legs = 0 }

module _ (h : Host) (intent : WriteIntent) where
  -- `attachesToExisting`
  abbrev pub attaches : Bool
  attaches = is_true intent.reduce_only

  abbrev pub wanted_position : Wanted
  wanted_position = if attaches then authorized h.one intent position_id else unstated

  unfoldable pub is_leg : OrderArgs → Bool
  unfolding eq_optional lookup
  is_leg args =
      attaches
      || (eq_optional (lookup "collateralAmount" args) zero_value
          && truthy (lookup "reduceOnly" args))

  unfoldable pub check_leg : OrderArgs → Check
  unfolding eq_optional lookup check_leg_size check_leg_position authorized
  check_leg args =
      (if truthy (lookup "reduceOnly" args) then none else some leg_opens)
      >> (if eq_optional (lookup "collateralAmount" args) zero_value
          then none
          else some leg_commits)
      >> check_leg_size (lookup "size" args) intent.size_raw
      >> (if is_some (lookup "acceptablePrice" args) then some leg_has_bound else none)
      >> check_leg_position (lookup "linkedPositionId" args) wanted_position

  unfoldable pub take_order : Tally → OrderArgs → Progress
  unfolding is_leg check_leg take_leg check_main_order
  take_order tally args =
      if is_leg args
      then go_if (check_leg args) (use_leg tally (take_leg args tally.remaining))
      else go_if (check_main_order h intent args (h.abi order_arg_constructor))
          (going (record tally { mains = suc tally.mains }))

  abbrev pub take_read : Tally → Option OrderArgs → Progress
  take_read tally none = refused unreadable_order
  take_read tally (some args) = take_order tally args

  unfoldable pub take_orders : Decoded → List ℕ → Tally → Progress
  unfolding take_order read_order_args
  take_orders t [] tally = going tally
  take_orders t (i ∷ is) tally = and_go (take_read tally (read_order_args h t i)) (take_orders t is)

  unfoldable pub check_legs :
      Decoded → Option Text → List ℕ → List AuthorizedLeg → Option (List Leg) → Check
  unfolding take_orders constructors_from
  check_legs t p defining authorized_legs none = some threw
  check_legs t p defining authorized_legs (some remaining) =
      check_tally (length authorized_legs) (if attaches then 0 else length defining)
        (take_orders t (constructors_from t p defining) (start_tally remaining))

  unfoldable pub check_stated_legs :
      Decoded → Option Text → List ℕ → Option (List AuthorizedLeg) → Check
  unfolding check_legs legs_of
  check_stated_legs t p defining none = some legs_not_stated
  check_stated_legs t p defining (some legs) = check_legs t p defining legs (legs_of legs)

-- The package that the deployment gives the order's constructor.
abbrev pub constructor_package : Host → Deployment → Option Text
constructor_package h d = d.by_name (pkg_of (h.abi order_arg_constructor))

-- `checkOrders`
unfoldable pub check_orders : Host → Deployment → Decoded → WriteIntent → List ℕ → Check
unfolding check_each check_handled check_stated_legs
check_orders h d t intent defining =
    check_each check_handled (params_of (h.abi order_arg_constructor))
    >> check_stated_legs h intent t (constructor_package h d) defining intent.legs
