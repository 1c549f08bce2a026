-- ===== src/Verify/Arguments.antt =====
-- src/chain/verify.ts: each argument of a call, held to what its name is bound to.
pub mod Holds
pub mod Checked
pub mod Bound
use Prim.Native.Nat.{bit_and}
use waterx_agent.Prelude.{
  ℕ, String, Bool, true, false, ◌&&◌, List, [], ◌∷◌, Option, none, some, ◌==◌, if◌then◌else◌,
  str_eq, get_elem?, length, ℤ, pos, negsuc, find, Number, text_join,
}
use waterx_agent.Policy.Intent.{WriteIntent, DelegatePermissions}
use waterx_agent.Verify.Text.{Text, codes, eq_text, has, normalize_package}
use waterx_agent.Verify.Transaction.{
  Argument, input, result, nested_result, MoveCall, Command, make_move_vec, Input, shared_object,
  Decoded, call_at, pure_at, Bytes,
}
use waterx_agent.Verify.Deployment.{
  Deployment, Protocol, perp, predict, staking, ProtocolSlot, protocol_slots, is_slot,
}
use waterx_agent.Verify.Encoding.{
  Encoding, opt_u64, opt_u128, u32, Value, number, Read, present, absent, bad, read_encoded,
  eq_value, encoding_of, lookup,
}
use waterx_agent.Verify.Bindings.{
  Bindable, Binding, bound, free, protocol_mask, produced_by, vector_of, shared, BindingTable,
  bindings,
}
use waterx_agent.Verify.Authorized.{Wanted, stated, unstated, throws, authorized, big_int_of_number}
use waterx_agent.Verify.Host.{Host, AbiEntry, pkg_of}
use waterx_agent.Verify.Refusal.{
  Check, ◌>>◌, check_each, numbered, not_a_call, no_abi, wrong_arity, unconstrained, not_readable,
  not_authorized, not_stated, undecodable, mismatch, threw, not_a_result, wrong_producer,
  wrong_producer_package, not_first_result, not_a_vector, no_such_role, not_shared, wrong_object,
  no_ceiling, unknown_slot, not_a_mask, excess_permissions,
}

-- `module::function`
unfoldable pub name_of : MoveCall → String
unfolding text_join
name_of c = text_join (c.module_name ∷ "::" ∷ c.function ∷ [])

-- The command that an argument is the result of, and which result of it.
abbrev pub produced_from : Option Argument → Option (ℕ × ℕ)
produced_from (some (result i)) = some (i, 0)
produced_from (some (nested_result i j)) = some (i, j)
produced_from _ = none

abbrev pub is_expected_package : Option Text → Deployment → Text → Bool
is_expected_package (some expected) d id = eq_text id expected
is_expected_package none d id = has d.callable id

abbrev pub check_first_result : ℕ → Check
check_first_result slot = if slot == 0 then none else some not_first_result

abbrev pub shared_id : Option Input → Option String
shared_id (some (shared_object id)) = some id
shared_id _ = none

abbrev pub ceiling_of : DelegatePermissions → Protocol → Number
ceiling_of p perp = p.perp
ceiling_of p predict = p.predict
ceiling_of p staking = p.staking

-- `(granted & ~allowed) === 0n`, for a granted mask that is not negative.
abbrev pub is_within : ℕ → ℤ → Bool
is_within granted (pos allowed) = bit_and granted allowed == granted
is_within granted (negsuc below) = bit_and granted below == 0

unfoldable pub check_mask : Read → Option ℤ → Check
check_mask (present (number (pos granted))) (some allowed) =
    if is_within granted allowed then none else some excess_permissions
check_mask (present (number (pos granted))) none = some threw
check_mask _ allowed = some not_a_mask

abbrev pub is_optional : Encoding → Bool
is_optional opt_u64 = true
is_optional opt_u128 = true
is_optional _ = false

abbrev pub check_unstated : (optional : Bool) → Read → Check
check_unstated true absent = none
check_unstated true _ = some not_authorized
check_unstated false _ = some not_stated

unfoldable pub check_stated : Value → Read → Check
unfolding eq_value
check_stated want bad = some undecodable
check_stated want absent = some mismatch
check_stated want (present got) = if eq_value got want then none else some mismatch

unfoldable pub check_wanted : (optional : Bool) → Wanted → Read → Check
unfolding check_stated
check_wanted optional throws got = some threw
check_wanted optional unstated got = check_unstated optional got
check_wanted optional (stated want) got = check_stated want got

abbrev pub type_at : AbiEntry → ℕ → Option String
type_at abi i = elim (get_elem? abi.types i) [ none ↦ none | some type ↦ type ]

-- `overrides[name] ?? bindings[name]`
abbrev pub override_or : Option Binding → Option Binding → Option Binding
override_or none b = b
override_or (some b) _ = some b

abbrev pub binding_for : (overrides table : BindingTable) → String → Option Binding
binding_for overrides table name = override_or (lookup name overrides) (lookup name table)

module _ (h : Host) (d : Deployment) (t : Decoded) where
  unfoldable pub check_producer : String → Option MoveCall → Check
  unfolding normalize_package eq_text has name_of
  check_producer wanted none = some wrong_producer
  check_producer wanted (some c) =
      if str_eq (name_of c) wanted
      then (if is_expected_package (d.by_name (pkg_of (h.abi wanted))) d
            (normalize_package (codes c.package_id))
          then none
          else some wrong_producer_package)
      else some wrong_producer

  unfoldable pub check_produced : String → Option (ℕ × ℕ) → Check
  unfolding check_producer
  check_produced wanted none = some not_a_result
  check_produced wanted (some (from, slot)) =
      check_producer wanted (call_at t from) >> check_first_result slot

  -- `checkProducedBy`
  unfoldable pub check_produced_by : String → Option Argument → Check
  unfolding check_produced
  check_produced_by wanted a = check_produced wanted (produced_from a)

  unfoldable pub check_elements : String → Option Command → Check
  unfolding check_produced_by check_each
  check_elements wanted (some (make_move_vec elements)) =
      check_each (λ e. check_produced_by wanted (some e)) elements
  check_elements wanted _ = some not_a_vector

  -- `checkVectorOf`
  unfoldable pub check_vector_of : String → Option Argument → Check
  unfolding check_elements
  check_vector_of wanted none = none
  check_vector_of wanted (some (result i)) = check_elements wanted (get_elem? t.commands i)
  check_vector_of wanted _ = some not_a_vector

  abbrev pub object_of : Option Argument → Option String
  object_of (some (input i)) = shared_id (get_elem? t.inputs i)
  object_of _ = none

  unfoldable pub check_object : Option Text → Option String → Check
  unfolding eq_text normalize_package
  check_object none actual = some no_such_role
  check_object (some wanted) none = some not_shared
  check_object (some wanted) (some id) =
      if eq_text (normalize_package (codes id)) wanted then none else some wrong_object

  -- `checkSharedObject`
  unfoldable pub check_shared_object : String → Option Argument → Check
  unfolding check_object
  check_shared_object role a = check_object (d.object_for role) (object_of a)

  -- `slotOf` the first type argument
  unfoldable pub slot_of : List String → Option ProtocolSlot
  unfolding is_slot
  slot_of [] = none
  slot_of (type ∷ _) = find (is_slot (codes type) d) protocol_slots

  unfoldable pub check_in_slot : Option ProtocolSlot → Read → DelegatePermissions → Check
  unfolding check_mask big_int_of_number
  check_in_slot none granted ceilings = some unknown_slot
  check_in_slot (some slot) granted ceilings =
      check_mask granted (big_int_of_number h.one (ceiling_of ceilings slot.protocol))

  unfoldable pub check_ceilings : Option DelegatePermissions → MoveCall → ℕ → Check
  unfolding slot_of check_in_slot read_encoded
  check_ceilings none c i = some no_ceiling
  check_ceilings (some ceilings) c i =
      check_in_slot (slot_of c.type_arguments) (read_encoded h.utf8 (pure_at t c.arguments i) u32)
        ceilings

  unfoldable pub check_encoded : WriteIntent → MoveCall → ℕ → Bindable → Option Encoding → Check
  unfolding check_wanted authorized read_encoded
  check_encoded intent c i field none = some not_readable
  check_encoded intent c i field (some e) =
      check_wanted (is_optional e) (authorized h.one intent field)
        (read_encoded h.utf8 (pure_at t c.arguments i) e)

  unfoldable pub check_binding : WriteIntent → MoveCall → AbiEntry → ℕ → Option Binding → Check
  unfolding check_ceilings check_produced_by check_shared_object check_vector_of check_encoded
      encoding_of
  check_binding intent c abi i none = some unconstrained
  check_binding intent c abi i (some free) = none
  check_binding intent c abi i (some protocol_mask) = check_ceilings intent.delegate_permissions c i
  check_binding intent c abi i (some (produced_by wanted)) =
      check_produced_by wanted (get_elem? c.arguments i)
  check_binding intent c abi i (some (shared role)) =
      check_shared_object role (get_elem? c.arguments i)
  check_binding intent c abi i (some (vector_of wanted)) =
      check_vector_of wanted (get_elem? c.arguments i)
  check_binding intent c abi i (some (bound field)) =
      check_encoded intent c i field (encoding_of (type_at abi i))

  unfoldable pub check_params :
      WriteIntent → BindingTable → MoveCall → Option AbiEntry → Option BindingTable → Check
  unfolding check_binding check_each numbered lookup
  check_params intent overrides c none table = some no_abi
  check_params intent overrides c (some abi) none = some no_abi
  check_params intent overrides c (some abi) (some table) =
      if length c.arguments == length abi.types
      then check_each (λ (i, name). check_binding intent c abi i (binding_for overrides table name))
          (numbered 0 abi.params)
      else some wrong_arity

  unfoldable pub check_call_arguments :
      WriteIntent → BindingTable → String → Option MoveCall → Check
  unfolding check_params bindings
  check_call_arguments intent overrides entrypoint none = some not_a_call
  check_call_arguments intent overrides entrypoint (some c) =
      check_params intent overrides c (h.abi entrypoint) (bindings entrypoint)

  -- `checkArguments`
  unfoldable pub check_arguments : WriteIntent → BindingTable → String → ℕ → Check
  unfolding check_call_arguments
  check_arguments intent overrides entrypoint i =
      check_call_arguments intent overrides entrypoint (call_at t i)
