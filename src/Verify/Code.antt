-- ===== src/Verify/Code.antt =====
-- src/chain/verify.ts: `assertCodeIsTheDeployments`, where the code that a call runs lives.
pub mod Pinned
use waterx_agent.Prelude.{
  ℕ, String, Bool, List, [], ◌∷◌, Option, none, some, if◌then◌else◌, get_elem?,
}
use waterx_agent.Policy.Intent.{WriteIntent}
use waterx_agent.Verify.Text.{Text, codes, eq_text, has, normalize_package, referenced}
use waterx_agent.Verify.Transaction.{MoveCall, Decoded, call_at}
use waterx_agent.Verify.Deployment.{Deployment, Role, is_deployment_type}
use waterx_agent.Verify.Encoding.{Value, text, lookup, eq_value}
use waterx_agent.Verify.Bindings.{Bindable, type_bindings, type_roles}
use waterx_agent.Verify.Authorized.{Wanted, stated, unstated, throws, authorized}
use waterx_agent.Verify.Host.{Host, AbiEntry}
use waterx_agent.Verify.Refusal.{
  Check, ◌>>◌, check_each, numbered, threw, superseded, foreign_package, foreign_type,
  unpinned_package, wrong_package, wrong_type_role, type_not_stated, wrong_type,
}

abbrev pub type_text : Option String → Option Text
type_text none = none
type_text (some type) = some (codes type)

unfoldable pub check_identity : Text → Option Text → Check
unfolding eq_text
check_identity id none = some unpinned_package
check_identity id (some expected) = if eq_text id expected then none else some wrong_package

abbrev pub roles_of : Option (List Role) → List Role
roles_of none = []
roles_of (some roles) = roles

abbrev pub check_type_is : Option Text → Value → Check
check_type_is none want = some wrong_type
check_type_is (some type) want = if eq_value (text type) want then none else some wrong_type

abbrev pub check_type_wanted : Option Text → Wanted → Check
check_type_wanted actual unstated = some type_not_stated
check_type_wanted actual throws = some threw
check_type_wanted actual (stated want) = check_type_is actual want

module _ (h : Host) (d : Deployment) where
  unfoldable pub check_callable : Text → Check
  unfolding has
  check_callable id =
      if has d.callable id
      then none
      else if has d.typeable id
      then some superseded
      else some foreign_package

  -- `deployment.byName.get(ABI[entrypoint].pkg)`
  abbrev pub expected_package : Option AbiEntry → Option Text
  expected_package none = none
  expected_package (some e) = d.by_name e.pkg

  unfoldable pub check_role : MoveCall → ℕ × Role → Check
  unfolding is_deployment_type
  check_role c (i, role) =
      if is_deployment_type (type_text (get_elem? c.type_arguments i)) role d
      then none
      else some wrong_type_role

  unfoldable pub check_type_binding : WriteIntent → MoveCall → Option Bindable → Check
  unfolding authorized eq_value
  check_type_binding intent c none = none
  check_type_binding intent c (some field) =
      check_type_wanted (type_text (get_elem? c.type_arguments 0)) (authorized h.one intent field)

  unfoldable pub check_typeable : Text → Check
  unfolding has
  check_typeable id = if has d.typeable id then none else some foreign_type

  unfoldable pub check_types : List String → Check
  unfolding check_each check_typeable referenced
  check_types types = check_each (λ type. check_each check_typeable (referenced (codes type))) types

  unfoldable pub check_code_of : WriteIntent → String → Option MoveCall → Check
  unfolding check_callable check_identity check_each numbered check_role check_type_binding
      check_types normalize_package lookup
  check_code_of intent entrypoint none = none
  check_code_of intent entrypoint (some c) =
      check_callable (normalize_package (codes c.package_id))
      >> check_identity (normalize_package (codes c.package_id))
          (expected_package (h.abi entrypoint))
      >> check_each (check_role c) (numbered 0 (roles_of (lookup entrypoint type_roles)))
      >> check_type_binding intent c (lookup entrypoint type_bindings)
      >> check_types c.type_arguments

  -- `assertCodeIsTheDeployments`
  unfoldable pub check_code : Decoded → WriteIntent → String → ℕ → Check
  unfolding check_code_of
  check_code t intent entrypoint i = check_code_of intent entrypoint (call_at t i)
