-- ===== src/Verify/Match/Binds.antt =====
-- A transaction that passes: every call of it that is known is the intent's, and runs pinned code.
use waterx_agent.Prelude.{
  ℕ, String, Bool, true, false, not, ◌&&◌, [], Option, none, some, if◌then◌else◌, str_eq,
  str_eq_iff, includes, is_some, length, ◌≡◌, ◌≢◌, refl, subst, sym, arith, inl, inr, ◌⊎◌,
}
use waterx_agent.Policy.Intent.{WriteIntent}
use waterx_agent.Verify.Transaction.{MoveCall, Decoded, call_at}
use waterx_agent.Verify.Deployment.{Deployment}
use waterx_agent.Verify.Bindings.{bindings, BindingTable}
use waterx_agent.Verify.Rules.{ActionRule, one, action_rule}
use waterx_agent.Verify.Host.{Host}
use waterx_agent.Verify.Arguments.{name_of, check_arguments}
use waterx_agent.Verify.Arguments.Bound.{IsBoundCall, arguments-IsBoundCall}
use waterx_agent.Verify.Code.{check_code}
use waterx_agent.Verify.Code.Pinned.{IsPinned, code-IsPinned}
use waterx_agent.Verify.Refusal.{Refusal, >>-none, ◌>>◌, foreign_call}
use waterx_agent.Verify.Match.{
  VerificationContext, companion_names, defining_indices, check_not_foreign, check_multiplicity,
  check_defining, check_companion_call, check_companion, check_action, transaction_matches,
}
use waterx_agent.Verify.Match.Passed.{RulePassed, rule_passed, Passed, decoded-Passed}
use waterx_agent.Verify.Match.Calls.{All-entrypoints_of, All-calls_from, calls_from-ne_nil}

module _ (h : Host) (intent : WriteIntent) (signer : String) (context : VerificationContext) where
  -- Bytes that pass are decoded, and the decoded transaction passes.
  pub bytes-Passed :
      (tx_bytes : String) (t : Decoded)
      → h.decode tx_bytes ≡ some t
      → transaction_matches h intent signer context tx_bytes ≡ none
      → Passed h intent signer context t
  unfolding transaction_matches
  bytes-Passed tx_bytes t e k = decoded-Passed h intent signer context t (rw e at k)

  pub action-Passed :
      (t : Decoded) (rule : ActionRule)
      → action_rule intent.action ≡ some rule
      → Passed h intent signer context t
      → RulePassed h context.deployment t intent rule
  unfolding check_action
  action-Passed t rule e p = rule_passed h context.deployment t intent rule (rw e at p.action)

foreign_cases :
    (o : Option BindingTable) (own beside : Bool) (r : Refusal)
    → (if is_some o && (not own && not beside) then some r else none) ≡ none
    → o ≢ none
    → (own ≡ true) ⊎ (beside ≡ true)
foreign_cases none own beside r k b = absurd (b refl)
foreign_cases (some table) true beside r k b = inl refl
foreign_cases (some table) false true r k b = inr refl
foreign_cases (some table) false false r k b = absurd (ground arith)

once :
    (rule : ActionRule) (n : ℕ)
    → check_multiplicity rule.multiplicity n ≡ none
    → rule.multiplicity ≡ one
    → n ≡ 1
once rule n k e = ground arith

module _ (h : Host) (d : Deployment) (t : Decoded) (intent : WriteIntent) (rule : ActionRule) where
  -- The call is bound to the intent argument by argument, and its code and coins are pinned.
  abbrev pub IsAnswered : ℕ → MoveCall → Type 0
  IsAnswered i c =
      IsBoundCall h d t intent rule.overrides (name_of c) i × IsPinned h d intent (name_of c) c

  answered :
      (i : ℕ) (c : MoveCall)
      → call_at t i ≡ some c
      → (check_code h d t intent (name_of c) i
          >> check_arguments h d t intent rule.overrides (name_of c) i)
        ≡ none
      → IsAnswered i c
  answered i c e k =
      let (k1, k2) = >>-none _ _ k in
      (
        arguments-IsBoundCall h d t intent rule.overrides (name_of c) i k2,
        code-IsPinned h d intent t (name_of c) i c e k1,
      )

  not_foreign :
      (name : String)
      → check_not_foreign rule name ≡ none
      → bindings name ≢ none
      → (str_eq name rule.entrypoint ≡ true) ⊎ (includes (companion_names rule) name ≡ true)
  unfolding check_not_foreign
  not_foreign name k b = foreign_cases (bindings name) _ _ foreign_call k b

  defining-IsAnswered :
      (i : ℕ) (c : MoveCall)
      → call_at t i ≡ some c
      → str_eq (name_of c) rule.entrypoint ≡ true
      → check_defining h d t intent rule i ≡ none
      → IsAnswered i c
  unfolding check_defining
  defining-IsAnswered i c e s k =
      let same : rule.entrypoint ≡ name_of c = sym ((str_eq_iff (name_of c) rule.entrypoint).0 s) in
      answered i c e (
        subst
          (λ (name : String).
            (check_code h d t intent name i >> check_arguments h d t intent rule.overrides name i)
            ≡ none)
          same k)

  companion-IsAnswered :
      (i : ℕ) (c : MoveCall)
      → call_at t i ≡ some c
      → check_companion h d t intent rule i ≡ none
      → IsAnswered i c
  unfolding check_companion check_companion_call
  companion-IsAnswered i c e k = answered i c e (rw e at k)

  pub known-IsAnswered :
      RulePassed h d t intent rule
      → (i : ℕ) (c : MoveCall) → call_at t i ≡ some c
      → bindings (name_of c) ≢ none
      → IsAnswered i c
  known-IsAnswered p i c e b =
      elim (not_foreign (name_of c) (All-entrypoints_of _ t.commands i c p.alone e) b) [
        | inl own ↦ defining-IsAnswered i c e own (
            All-calls_from _ (λ name. str_eq name rule.entrypoint) 0 t.commands i i c p.defining e
              own (omega arith))
        | inr beside ↦ companion-IsAnswered i c e (
            All-calls_from _ (includes (companion_names rule)) 0 t.commands i i c p.companion e
              beside (omega arith))
      ]

-- If the bytes pass for an action, then every call of the decoded transaction whose name the
-- bindings know has, argument by argument, what its binding asks for: the value that the intent
-- states (or absence on both sides of an optional one), the first result of the named call in its
-- package, a vector of such results, the shared object of its role, or a mask within the ceiling
-- of its protocol; its package is the one that the deployment gives the entrypoint, its type
-- arguments are the coins of their roles and what the intent chose. The defining call is there,
-- and just once where the rule says one.
pub matched_binds :
    (h : Host) (intent : WriteIntent) (signer : String) (context : VerificationContext)
    (tx_bytes : String) (t : Decoded) (rule : ActionRule)
    → h.decode tx_bytes ≡ some t
    → action_rule intent.action ≡ some rule
    → transaction_matches h intent signer context tx_bytes ≡ none
    → ((i : ℕ) (c : MoveCall)
        → call_at t i ≡ some c
        → bindings (name_of c) ≢ none
        → IsAnswered h context.deployment t intent rule i c)
      × (defining_indices rule t ≢ [])
      × (rule.multiplicity ≡ one → length (defining_indices rule t) ≡ 1)
matched_binds h intent signer context tx_bytes t rule e r k =
    let p =
      action-Passed h intent signer context t rule r
        (bytes-Passed h intent signer context tx_bytes t e k) in
    (
      known-IsAnswered h context.deployment t intent rule p,
      calls_from-ne_nil rule.entrypoint 0 t.commands p.acts,
      once rule _ p.times,
    )
