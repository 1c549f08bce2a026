-- ===== src/Verify/Match/Passed.antt =====
-- What a transaction that passes has passed: each check of `assertTransactionMatches` by itself.
use waterx_agent.Prelude.{String, true, none, ◌≡◌, str_eq, includes, length, All}
use waterx_agent.Policy.Intent.{WriteIntent}
use waterx_agent.Verify.Transaction.{Decoded}
use waterx_agent.Verify.Deployment.{Deployment}
use waterx_agent.Verify.Rules.{ActionRule, action_rule}
use waterx_agent.Verify.Host.{Host}
use waterx_agent.Verify.Shape.{check_shape, check_funds, check_sender, check_gas, check_layout}
use waterx_agent.Verify.Grants.{check_grants}
use waterx_agent.Verify.Orders.{check_orders}
use waterx_agent.Verify.Refusal.{check_each_sound, >>-none, passed_if, when_true, not_the_action}
use waterx_agent.Verify.Match.{
  VerificationContext, entrypoints_of, check_not_foreign, defining_indices, companion_indices,
  check_multiplicity, check_companion_present, check_defining, check_companion, check_rule,
  check_action, check_decoded,
}

module _ (h : Host) (d : Deployment) (t : Decoded) (intent : WriteIntent) where
  pub record RulePassed (rule : ActionRule) : Type 0 where
    pub acts : includes (entrypoints_of t.commands) rule.entrypoint ≡ true
    pub alone : All (λ name. check_not_foreign rule name ≡ none) (entrypoints_of t.commands)
    pub times : check_multiplicity rule.multiplicity (length (defining_indices rule t)) ≡ none
    pub defining : All (λ i. check_defining h d t intent rule i ≡ none) (defining_indices rule t)
    pub accompanied :
        All (λ c. check_companion_present (entrypoints_of t.commands) c ≡ none) rule.companions
    pub companion : All (λ i. check_companion h d t intent rule i ≡ none) (companion_indices rule t)
    pub granted :
        rule.grants_protocol_permissions ≡ true
        → check_grants h d t intent.delegate_permissions (companion_indices rule t) ≡ none
    pub ordered :
        str_eq rule.entrypoint "trading::place_order_request" ≡ true
        → check_orders h d t intent (defining_indices rule t) ≡ none

  pub rule_passed : (rule : ActionRule) → check_rule h d t intent rule ≡ none → RulePassed rule
  unfolding check_rule
  rule_passed rule e =
      let p1 = >>-none _ _ e in
      let p2 = >>-none _ _ p1.1 in
      let p3 = >>-none _ _ p2.1 in
      let p4 = >>-none _ _ p3.1 in
      let p5 = >>-none _ _ p4.1 in
      let p6 = >>-none _ _ p5.1 in
      let p7 = >>-none _ _ p6.1 in
      record {
        acts = passed_if _ not_the_action p1.0;
        alone = check_each_sound _ _ p2.0;
        times = p3.0;
        defining = check_each_sound _ _ p4.0;
        accompanied = check_each_sound _ _ p5.0;
        companion = check_each_sound _ _ p6.0;
        granted = λ yes_grants. when_true _ _ p7.0 yes_grants;
        ordered = λ is_order. when_true _ _ p7.1 is_order;
      }

pub record Passed (h : Host) (intent : WriteIntent) (signer : String)
    (context : VerificationContext) (t : Decoded) : Type 0 where
  pub shape : check_shape h context.deployment context.extra_packages t ≡ none
  pub funds : check_funds t intent ≡ none
  pub sender : check_sender t.sender signer ≡ none
  pub layout :
      check_layout h.uncaptured context.allow_unconfirmed intent.action (action_rule intent.action)
      ≡ none
  pub gas : check_gas t.gas_owner signer context.sponsored ≡ none
  pub action : check_action h context.deployment t intent (action_rule intent.action) ≡ none

pub decoded-Passed :
    (h : Host) (intent : WriteIntent) (signer : String) (context : VerificationContext)
    (t : Decoded)
    → check_decoded h intent signer context t ≡ none
    → Passed h intent signer context t
unfolding check_decoded
decoded-Passed h intent signer context t e =
    let p1 = >>-none _ _ e in
    let p2 = >>-none _ _ p1.1 in
    let p3 = >>-none _ _ p2.1 in
    let p4 = >>-none _ _ p3.1 in
    let p5 = >>-none _ _ p4.1 in
    record { shape = p1.0; funds = p2.0; sender = p3.0; layout = p4.0; gas = p5.0; action = p5.1 }
