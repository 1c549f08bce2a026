-- ===== src/Verify/Arguments/Holds.antt =====
-- What it means that an argument is what its binding asks for, and that the checks see to it.
use waterx_agent.Prelude.{
  ℕ, String, Bool, true, List, Option, none, some, get_elem?, ℤ, pos, ◌≡◌, All,
}
use waterx_agent.Policy.Intent.{WriteIntent, DelegatePermissions}
use waterx_agent.Verify.Text.{codes, normalize_package}
use waterx_agent.Verify.Transaction.{
  Argument, result, MoveCall, make_move_vec, Decoded, call_at, pure_at,
}
use waterx_agent.Verify.Deployment.{Deployment, ProtocolSlot}
use waterx_agent.Verify.Encoding.{
  Encoding, u32, number, Read, present, absent, read_encoded, encoding_of,
}
use waterx_agent.Verify.Bindings.{
  Binding, bound, free, protocol_mask, produced_by, vector_of, shared,
}
use waterx_agent.Verify.Authorized.{Wanted, stated, unstated, throws, authorized, big_int_of_number}
use waterx_agent.Verify.Host.{Host, AbiEntry, pkg_of}
use waterx_agent.Verify.Arguments.{
  name_of, produced_from, is_expected_package, slot_of, ceiling_of, is_within, object_of,
  is_optional, type_at,
}

-- What was read is the value that the intent states, or both are absent.
abbrev pub Agrees : (optional : Bool) → Wanted → Read → Type 0
Agrees optional (stated v) got = got ≡ present v
Agrees optional unstated got = (optional ≡ true) × (got ≡ absent)
Agrees optional throws got = ⊥

module _ (h : Host) (d : Deployment) (t : Decoded) where
  -- The first result of the call that was wanted, in the package where that belongs.
  pub record IsResultOf (wanted : String) (argument : Option Argument) : Type 0 where
    pub from : ℕ
    pub producer : MoveCall
    pub produced : produced_from argument ≡ some (from, 0)
    pub called : call_at t from ≡ some producer
    pub named : name_of producer ≡ wanted
    pub published :
        is_expected_package
          (d.by_name (pkg_of (h.abi wanted)))
          d
          (normalize_package (codes producer.package_id))
        ≡ true

  -- A vector of such results. An argument that is missing is a vector of none.
  abbrev pub IsVectorOf : String → Option Argument → Type 0
  IsVectorOf wanted none = Unit
  IsVectorOf wanted (some a) =
      (i : ℕ) × (elements : List Argument) × (a ≡ result i)
      × (get_elem? t.commands i ≡ some (make_move_vec elements))
      × All (λ e. IsResultOf wanted (some e)) elements

  -- The shared object that the deployment names for the role.
  abbrev pub IsObject : String → Option Argument → Type 0
  IsObject role a =
      (id : String) × (object_of h d t a ≡ some id)
      × (d.object_for role ≡ some (normalize_package (codes id)))

  -- A mask within what the intent asks for the slot's protocol.
  pub record IsMask (intent : WriteIntent) (c : MoveCall) (i : ℕ) : Type 0 where
    pub ceilings : DelegatePermissions
    pub slot : ProtocolSlot
    pub granted : ℕ
    pub allowed : ℤ
    pub stated_ceilings : intent.delegate_permissions ≡ some ceilings
    pub in_slot : slot_of h d t c.type_arguments ≡ some slot
    pub reads : read_encoded h.utf8 (pure_at t c.arguments i) u32 ≡ present (number (pos granted))
    pub ceiling : big_int_of_number h.one (ceiling_of ceilings slot.protocol) ≡ some allowed
    pub within : is_within granted allowed ≡ true

  -- The argument of that index, by its binding.
  abbrev pub Holds : WriteIntent → MoveCall → AbiEntry → ℕ → Binding → Type 0
  Holds intent c abi i free = Unit
  Holds intent c abi i (bound field) =
      (e : Encoding) × (encoding_of (type_at abi i) ≡ some e)
      × Agrees (is_optional e) (authorized h.one intent field)
          (read_encoded h.utf8 (pure_at t c.arguments i) e)
  Holds intent c abi i (produced_by wanted) = IsResultOf wanted (get_elem? c.arguments i)
  Holds intent c abi i (vector_of wanted) = IsVectorOf wanted (get_elem? c.arguments i)
  Holds intent c abi i (shared role) = IsObject role (get_elem? c.arguments i)
  Holds intent c abi i protocol_mask = IsMask intent c i
