-- ===== src/Verify/Grants.antt =====
-- src/chain/verify.ts: `assertGrantsReachEnforcedSlots`, whether a delegate's authority lands in the
-- slot that the contract reads.
pub mod Enforced
use waterx_agent.Prelude.{
  ℕ, suc, String, Bool, true, false, ◌||◌, List, [], ◌∷◌, Option, none, some, if◌then◌else◌, str_eq,
  ℤ, pos, Number,
}
use waterx_agent.Policy.Intent.{DelegatePermissions}
use waterx_agent.Verify.Transaction.{MoveCall, Decoded, call_at, pure_argument}
use waterx_agent.Prelude.{get_elem?}
use waterx_agent.Verify.Deployment.{Deployment, Protocol, perp, predict, staking, ProtocolSlot}
use waterx_agent.Verify.Encoding.{u32, number, Read, present, read_encoded, eq_ℤ}
use waterx_agent.Verify.Authorized.{big_int_of_number}
use waterx_agent.Verify.Host.{Host, params_of}
use waterx_agent.Verify.Arguments.{name_of, slot_of, ceiling_of}
use waterx_agent.Verify.Refusal.{
  Check, check_each, threw, no_ceiling, slot_written_twice, slot_not_set, wrong_grant,
}

abbrev pub set_permission : String
set_permission = "account::set_delegate_protocol_permission"

-- A write of an enforced slot.
pub record Grant : Type 0 where
  pub protocol : Protocol
  pub granted : ℤ

abbrev pub eq_protocol : Protocol → Protocol → Bool
eq_protocol perp perp = true
eq_protocol predict predict = true
eq_protocol staking staking = true
eq_protocol _ _ = false

-- `indexOf`
abbrev next_index : Option ℕ → Option ℕ
next_index none = none
next_index (some i) = some (suc i)

unfoldable pub index_of : String → List String → Option ℕ
index_of s [] = none
index_of s (t ∷ ts) = if str_eq t s then some 0 else next_index (index_of s ts)

abbrev pub grant_read : ProtocolSlot → Read → Option Grant
grant_read slot (present (number n)) = some (record { protocol = slot.protocol; granted = n })
grant_read slot _ = none

abbrev pub grant_in : Option ProtocolSlot → Read → Option Grant
grant_in none read = none
grant_in (some slot) read = if slot.enforced then grant_read slot read else none

module _ (h : Host) (d : Deployment) (t : Decoded) where
  abbrev pub argument_at : MoveCall → Option ℕ → Read
  argument_at c none = read_encoded h.utf8 none u32
  argument_at c (some i) = read_encoded h.utf8 (pure_argument t (get_elem? c.arguments i)) u32

  unfoldable pub grant_of : Option MoveCall → Option Grant
  unfolding name_of slot_of read_encoded index_of
  grant_of none = none
  grant_of (some c) =
      if str_eq (name_of c) set_permission
      then grant_in (slot_of h d t c.type_arguments)
          (argument_at c (index_of "permissions" (params_of (h.abi set_permission))))
      else none

-- `enforced.get`
unfoldable pub grant_for : Protocol → List Grant → Option ℤ
grant_for p [] = none
grant_for p (g ∷ gs) = if eq_protocol g.protocol p then some g.granted else grant_for p gs

abbrev pub is_granted : Option ℤ → Bool
is_granted none = false
is_granted (some n) = true

abbrev pub check_wanted_grant : Option ℤ → Option ℤ → Check
check_wanted_grant none granted = some threw
check_wanted_grant (some wanted) granted = if eq_ℤ wanted (pos 0) then none else elim granted [
  | none ↦ some slot_not_set
  | some n ↦ if eq_ℤ n wanted then none else some wrong_grant
]

abbrev pub add_grant : (List Grant → Check) → List Grant → Option Grant → Check
add_grant rest enforced none = rest enforced
add_grant rest enforced (some g) =
    if is_granted (grant_for g.protocol enforced)
    then some slot_written_twice
    else rest (g ∷ enforced)

module _ (h : Host) (ceilings : DelegatePermissions) where
  unfoldable pub check_protocol_granted : List Grant → Protocol → Check
  unfolding grant_for big_int_of_number
  check_protocol_granted enforced p =
      check_wanted_grant (big_int_of_number h.one (ceiling_of ceilings p)) (grant_for p enforced)

  unfoldable pub check_granted : List Grant → Check
  unfolding check_each check_protocol_granted
  check_granted enforced =
      check_each (check_protocol_granted enforced) (perp ∷ predict ∷ staking ∷ [])

module _ (h : Host) (d : Deployment) (t : Decoded) (ceilings : DelegatePermissions) where
  -- The loop over the companions. `enforced` is the map built so far.
  unfoldable pub check_grants_from : List ℕ → List Grant → Check
  unfolding check_granted grant_of grant_for
  check_grants_from [] enforced = check_granted h ceilings enforced
  check_grants_from (i ∷ is) enforced =
      add_grant (check_grants_from is) enforced (grant_of h d t (call_at t i))

-- `assertGrantsReachEnforcedSlots`
unfoldable pub check_grants :
    Host → Deployment → Decoded → Option DelegatePermissions → List ℕ → Check
unfolding check_grants_from
check_grants h d t none companions = some no_ceiling
check_grants h d t (some ceilings) companions = check_grants_from h d t ceilings companions []
