-- ===== src/Verify/Orders/Held.antt =====
-- What the order that opens exposure and the legs beside it are held to.
use waterx_agent.Prelude.{
  ℕ, String, true, List, [], ◌∷◌, Option, none, some, if◌then◌else◌, is_some, ℤ, ◌≡◌, refl, ap, All,
}
use waterx_agent.Policy.Intent.{WriteIntent}
use waterx_agent.Verify.Encoding.{Value, number, encoding_of, lookup}
use waterx_agent.Verify.Bindings.{
  Binding, bound, free, protocol_mask, produced_by, vector_of, shared, order_arg_bindings,
  order_arg_constructor,
}
use waterx_agent.Verify.Authorized.{Wanted, stated, unstated, throws, authorized, big_int}
use waterx_agent.Verify.Host.{Host, AbiEntry}
use waterx_agent.Verify.Arguments.{type_at}
use waterx_agent.Verify.Arguments.Holds.{Agrees}
use waterx_agent.Verify.Arguments.Checked.{wanted-Agrees}
use waterx_agent.Verify.Orders.{
  OrderArgs, read_of, is_optional_type, check_main_argument, check_main_order, eq_optional, truthy,
  check_size_is, check_leg_size, check_leg_position, zero_value, wanted_position, check_leg,
}
use waterx_agent.Verify.Equal.{eq_value_sound}
use waterx_agent.Verify.Refusal.{check_each_sound, numbered, >>-none, passed_if, Refusal}

pub eq_optional_sound : (a b : Option Value) → eq_optional a b ≡ true → a ≡ b
unfolding eq_optional
eq_optional_sound none none h = refl
eq_optional_sound (some a) (some b) h = ap some (eq_value_sound a b h)
eq_optional_sound none (some b) h = absurd (cc)
eq_optional_sound (some a) none h = absurd (cc)

abbrev pub IsSized : Option String → Option Value → Type 0
IsSized none size = Unit
IsSized (some raw) size = (n : ℤ) × (big_int raw ≡ some n) × (size ≡ some (number n))

abbrev pub Points : Wanted → Option Value → Type 0
Points (stated v) linked = linked ≡ some v
Points unstated linked = linked ≡ none
Points throws linked = ⊥

module _ (h : Host) (intent : WriteIntent) where
  -- A leg reduces only, commits nothing, sets no bound, has the authorized size, and names the
  -- position that the intent names, or none.
  pub record IsLegOrder (args : OrderArgs) : Type 0 where
    pub reduces : truthy (lookup "reduceOnly" args) ≡ true
    pub commits_nothing : lookup "collateralAmount" args ≡ zero_value
    pub sized : IsSized intent.size_raw (lookup "size" args)
    pub unbounded : lookup "acceptablePrice" args ≡ none
    pub positioned : Points (wanted_position h intent) (lookup "linkedPositionId" args)

  abbrev pub HoldsMain : OrderArgs → AbiEntry → ℕ → String → Binding → Type 0
  HoldsMain args abi i name free = Unit
  HoldsMain args abi i name (bound field) =
      Agrees (is_optional_type (encoding_of (type_at abi i))) (authorized h.one intent field)
        (read_of (lookup name args))
  HoldsMain args abi i name _ = ⊥

  abbrev pub IsMainArgument : OrderArgs → AbiEntry → ℕ × String → Type 0
  IsMainArgument args abi (i, name) =
      (b : Binding) × (lookup name order_arg_bindings ≡ some b) × HoldsMain args abi i name b

  -- Every argument of the order that opens exposure is what the intent states for its field.
  abbrev pub IsMainOrder : OrderArgs → Type 0
  IsMainOrder args =
      (abi : AbiEntry)
      → h.abi order_arg_constructor ≡ some abi
      → All (IsMainArgument args abi) (numbered 0 abi.params)

  size_by :
      (size : Option Value) (n : Option ℤ) (raw : String)
      → big_int raw ≡ n
      → check_size_is size n ≡ none
      → IsSized (some raw) size
  size_by size none raw e k = absurd (cc)
  size_by size (some n) raw e k = (n, e, eq_optional_sound _ _ (passed_if _ _ k))

  leg_size-IsSized :
      (size : Option Value) (o : Option String) → check_leg_size size o ≡ none → IsSized o size
  unfolding check_leg_size
  leg_size-IsSized size none k = tt
  leg_size-IsSized size (some raw) k = size_by size (big_int raw) raw refl k

  leg_position-Points :
      (linked : Option Value) (w : Wanted) → check_leg_position linked w ≡ none → Points w linked
  unfolding check_leg_position
  leg_position-Points linked throws k = absurd (cc)
  leg_position-Points linked unstated k = eq_optional_sound _ _ (passed_if _ _ k)
  leg_position-Points linked (stated v) k = eq_optional_sound _ _ (passed_if _ _ k)

  absent_unless :
      (o : Option Value) (r : Refusal) → (if is_some o then some r else none) ≡ none → o ≡ none
  absent_unless none r k = refl
  absent_unless (some v) r k = absurd (cc)

  pub leg-IsLegOrder : (args : OrderArgs) → check_leg h intent args ≡ none → IsLegOrder args
  unfolding check_leg
  leg-IsLegOrder args k =
      let p1 = >>-none _ _ k in
      let p2 = >>-none _ _ p1.1 in
      let p3 = >>-none _ _ p2.1 in
      let p4 = >>-none _ _ p3.1 in
      record {
        reduces = passed_if _ _ p1.0;
        commits_nothing = eq_optional_sound _ _ (passed_if _ _ p2.0);
        sized = leg_size-IsSized _ _ p3.0;
        unbounded = absent_unless _ _ p4.0;
        positioned = leg_position-Points _ _ p4.1;
      }

  IsMainArgument-by :
      (args : OrderArgs) (abi : AbiEntry) (i : ℕ) (name : String) (b : Option Binding)
      → lookup name order_arg_bindings ≡ b
      → check_main_argument h intent args abi i name b ≡ none
      → IsMainArgument args abi (i, name)
  unfolding check_main_argument
  IsMainArgument-by args abi i name none e k = absurd (cc)
  IsMainArgument-by args abi i name (some free) e k = (free, e, tt)
  IsMainArgument-by args abi i name (some (bound field)) e k =
      (bound field, e, wanted-Agrees _ _ _ k)
  IsMainArgument-by args abi i name (some protocol_mask) e k = absurd (cc)
  IsMainArgument-by args abi i name (some (produced_by x)) e k = absurd (cc)
  IsMainArgument-by args abi i name (some (vector_of x)) e k = absurd (cc)
  IsMainArgument-by args abi i name (some (shared x)) e k = absurd (cc)

  main_arguments :
      (args : OrderArgs) (abi : AbiEntry) (places : List (ℕ × String))
      → All
          (λ (i, name).
            check_main_argument h intent args abi i name (lookup name order_arg_bindings) ≡ none)
          places
      → All (IsMainArgument args abi) places
  main_arguments args abi [] k = tt
  main_arguments args abi ((i, name) ∷ places) k =
      (IsMainArgument-by args abi i name _ refl k.0, main_arguments args abi places k.1)

  pub main-IsMainOrder :
      (args : OrderArgs)
      → check_main_order h intent args (h.abi order_arg_constructor) ≡ none
      → IsMainOrder args
  unfolding check_main_order
  main-IsMainOrder args k abi e =
      main_arguments args abi (numbered 0 abi.params) (check_each_sound _ _ (rw e at k))
