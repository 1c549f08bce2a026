-- ===== src/Policy/Gate/Permitted.antt =====
-- src/policy.ts, `authorize`: what a permit says of its intent under delegated-auto, and what a
-- refusal leaves.
use waterx_agent.Prelude.{
  ◌≡◌, refl, Bool, false, true, Option, none, some, Number, Option-cases, inl, inr, ◌&&◌, not,
  if◌then◌else◌,
}
use waterx_agent.Policy.Intent.{WriteIntent}
use waterx_agent.Policy.Scope.{PolicyScope, is_owner_only_action}
use waterx_agent.Policy.Scope.Limits.{IsInScope, stateless_scope_violations-IsInScope}
use waterx_agent.Policy.Gate.{
  Gate, Permit, delegated_auto, AuthorizeOptions, PolicyRefusal, ledger_failed, done, refused,
  commits, count, issue, commit, new_permit, refusal_of, authorize,
}
use waterx_agent.Policy.Gate.Accepts.{
  IsBelowCeilings, refusal_of-IsDelegable, refusal_of-IsBelowCeilings,
}

commit-permit :
    (g : Gate) (i : WriteIntent) (writes : Bool) (amount : Option Number) (p : Permit)
    → (commit g i writes amount).1 ≡ done p
    → p ≡ new_permit g.next_permit i
unfolding issue count
commit-permit g i writes none p h = cc
commit-permit g i writes (some amount) p h = told (g.has_meter && not writes) h
  where
    told :
        (b : Bool)
        → (if b
            then (count g i i.action amount writes, refused ledger_failed)
            else issue (count g i i.action amount writes) i).1
          ≡ done p
        → p ≡ new_permit g.next_permit i
    told true h = cc
    told false h = cc

pub authorize-done :
    (g : Gate) (i : WriteIntent) (options : AuthorizeOptions) (now : Number) (writes : Bool)
    (p : Permit)
    → (authorize g i options now writes).1 ≡ done p
    → (refusal_of g i options now ≡ none) × (p ≡ new_permit g.next_permit i)
unfolding authorize
authorize-done g i options now writes p h = elim (Option-cases (refusal_of g i options now)) [
  | inl e ↦ (e, commit-permit g i writes (commits i) p (accepted e))
  | inr (r, e) ↦ absurd (rejected r e)
]
  where
    accepted : refusal_of g i options now ≡ none → (commit g i writes (commits i)).1 ≡ done p
    accepted e = cc (h, same)
      where
        same : (authorize g i options now writes).1 ≡ (commit g i writes (commits i)).1
        same = rw (e, authorize) refl

    rejected : (r : PolicyRefusal) → refusal_of g i options now ≡ some r → ⊥
    rejected r e = cc (h, same)
      where
        same : (authorize g i options now writes).1 ≡ refused r
        same = rw (e, authorize) refl

-- Under delegated-auto a permit is issued only for an intent that is not one of the owner's, that
-- is in the scope at that instant, and whose amount, if it commits one, keeps what is open and
-- what is committed below their ceilings; and the permit is that of the intent.
pub delegated_permit :
    (g : Gate) (s : PolicyScope) (i : WriteIntent) (options : AuthorizeOptions) (now : Number)
    (writes : Bool) (p : Permit)
    → g.mode ≡ delegated_auto
    → g.scope ≡ some s
    → (authorize g i options now writes).1 ≡ done p
    → (is_owner_only_action i.action ≡ false)
      × IsInScope i s now
      × ((amount : Number)
          → commits i ≡ some amount
          → IsBelowCeilings g.cumulative_collateral s options.open_collateral amount)
      × (p ≡ new_permit g.next_permit i)
delegated_permit g s i options now writes p m e h =
    let (accepted, permit) = authorize-done g i options now writes p h in
    let d = refusal_of-IsDelegable g s i options now m e accepted in
    (
      d.no_owner_action,
      (stateless_scope_violations-IsInScope i s now).0 d.no_violation,
      λ amount a. refusal_of-IsBelowCeilings g s i options now amount m e accepted a,
      permit,
    )
