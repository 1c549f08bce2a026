-- ===== src/Verify/Match.antt =====
-- src/chain/verify.ts: `assertTransactionMatches`, all the checks in their order.
pub mod Passed
pub mod Calls
pub mod Binds
pub mod Touches
pub mod Places
pub mod Grants
use waterx_agent.Prelude.{
  ℕ, suc, String, Bool, true, false, not, ◌&&◌, ◌||◌, List, [], ◌∷◌, Option, none, some, ◌==◌,
  if◌then◌else◌, str_eq, includes, length, map, is_some, filter,
}
use waterx_agent.Policy.Intent.{WriteIntent}
use waterx_agent.Verify.Transaction.{MoveCall, Command, move_call, Decoded, call_at}
use waterx_agent.Verify.Deployment.{Deployment}
use waterx_agent.Verify.Bindings.{bindings}
use waterx_agent.Verify.Rules.{ActionRule, Companion, Multiplicity, one, many, action_rule}
use waterx_agent.Verify.Host.{Host}
use waterx_agent.Verify.Arguments.{name_of, check_arguments}
use waterx_agent.Verify.Code.{check_code}
use waterx_agent.Verify.Shape.{check_shape, check_funds, check_sender, check_gas, check_layout}
use waterx_agent.Verify.Grants.{check_grants}
use waterx_agent.Verify.Orders.{check_orders}
use waterx_agent.Verify.Refusal.{
  Check, ◌>>◌, check_each, not_decodable, no_rule, not_the_action, foreign_call, wrong_multiplicity,
  companion_missing,
}

pub record VerificationContext : Type 0 where
  pub deployment : Deployment
  pub allow_unconfirmed : List String
  pub extra_packages : List String
  pub sponsored : Bool

-- `entrypointsOf`
unfoldable pub entrypoints_of : List Command → List String
unfolding name_of
entrypoints_of [] = []
entrypoints_of (move_call c ∷ commands) = name_of c ∷ entrypoints_of commands
entrypoints_of (_ ∷ commands) = entrypoints_of commands

-- The places of the calls whose name satisfies a test, counted from `i`.
unfoldable pub calls_from : (String → Bool) → ℕ → List Command → List ℕ
unfolding name_of
calls_from p i [] = []
calls_from p i (move_call c ∷ commands) =
    if p (name_of c) then i ∷ calls_from p (suc i) commands else calls_from p (suc i) commands
calls_from p i (_ ∷ commands) = calls_from p (suc i) commands

abbrev pub companion_names : ActionRule → List String
companion_names rule = map (λ (c : Companion). c.entrypoint) rule.companions

-- `definingIndices` and `companionIndices`
abbrev pub defining_indices : ActionRule → Decoded → List ℕ
defining_indices rule t = calls_from (λ name. str_eq name rule.entrypoint) 0 t.commands

abbrev pub companion_indices : ActionRule → Decoded → List ℕ
companion_indices rule t = calls_from (includes (companion_names rule)) 0 t.commands

-- A call of an entrypoint that has bindings, and is neither the action's own nor beside it.
unfoldable pub check_not_foreign : ActionRule → String → Check
unfolding bindings
check_not_foreign rule name =
    if is_some (bindings name)
      && (not (str_eq name rule.entrypoint) && not (includes (companion_names rule) name))
    then some foreign_call
    else none

abbrev pub check_multiplicity : Multiplicity → ℕ → Check
check_multiplicity one n = if n == 1 then none else some wrong_multiplicity
check_multiplicity many n = none

abbrev pub check_companion_present : List String → Companion → Check
check_companion_present present c =
    if c.required && not (includes present c.entrypoint) then some companion_missing else none

module _ (h : Host) (d : Deployment) (t : Decoded) (intent : WriteIntent) (rule : ActionRule) where
  unfoldable pub check_defining : ℕ → Check
  unfolding check_code check_arguments
  check_defining i =
      check_code h d t intent rule.entrypoint i
      >> check_arguments h d t intent rule.overrides rule.entrypoint i

  unfoldable pub check_companion_call : ℕ → Option MoveCall → Check
  unfolding check_code check_arguments name_of
  check_companion_call i none = none
  check_companion_call i (some c) =
      check_code h d t intent (name_of c) i
      >> check_arguments h d t intent rule.overrides (name_of c) i

  unfoldable pub check_companion : ℕ → Check
  unfolding check_companion_call
  check_companion i = check_companion_call i (call_at t i)

  unfoldable pub check_rule : Check
  unfolding entrypoints_of calls_from check_not_foreign check_each check_defining check_companion
      check_grants check_orders
  check_rule =
      (if includes (entrypoints_of t.commands) rule.entrypoint then none else some not_the_action)
      >> check_each (check_not_foreign rule) (entrypoints_of t.commands)
      >> check_multiplicity rule.multiplicity (length (defining_indices rule t))
      >> check_each check_defining (defining_indices rule t)
      >> check_each (check_companion_present (entrypoints_of t.commands)) rule.companions
      >> check_each check_companion (companion_indices rule t)
      >> (if rule.grants_protocol_permissions
          then check_grants h d t intent.delegate_permissions (companion_indices rule t)
          else none)
      >> (if str_eq rule.entrypoint "trading::place_order_request"
          then check_orders h d t intent (defining_indices rule t)
          else none)

unfoldable pub check_action : Host → Deployment → Decoded → WriteIntent → Option ActionRule → Check
unfolding check_rule
check_action h d t intent none = some no_rule
check_action h d t intent (some rule) = check_rule h d t intent rule

module _ (h : Host) (intent : WriteIntent) (signer : String) (context : VerificationContext) where
  unfoldable pub check_decoded : Decoded → Check
  unfolding check_shape check_funds check_sender check_gas check_layout check_action action_rule
  check_decoded t =
      check_shape h context.deployment context.extra_packages t
      >> check_funds t intent
      >> check_sender t.sender signer
      >> check_layout h.uncaptured context.allow_unconfirmed intent.action
          (action_rule intent.action)
      >> check_gas t.gas_owner signer context.sponsored
      >> check_action h context.deployment t intent (action_rule intent.action)

  abbrev pub check_bytes : Option Decoded → Check
  check_bytes none = some not_decodable
  check_bytes (some t) = check_decoded t

  -- `assertTransactionMatches`. It throws nothing exactly when this is `none`.
  unfoldable pub transaction_matches : String → Check
  unfolding check_decoded
  transaction_matches tx_bytes = check_bytes (h.decode tx_bytes)
