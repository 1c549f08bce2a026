-- ===== src/Runner/Outcome/Filled.antt =====
-- src/runner/runner.ts, `awaitOrderStatus`: a job is marked filled only on the history's word.
use waterx_agent.Prelude.{
  ℕ, ◌+◌, String, List, none, some, get_or_else, ltb, ==_refl, ◌≡◌, refl, sym, ap, ◌∙◌, ◌≢◌, ◌⊎◌,
  arith, subst, inl, inr, Bool-cases,
}
use waterx_agent.Runner.Types.{
  Job, JobState, filled, cancelled, unresolved, Note, order_ended, OrderOutcomeStatus, open_status,
  filled_status, cancelled_status, invalidated_status,
}
use waterx_agent.Runner.Store.{get, get-update}
use waterx_agent.Runner.Reconcile.{
  OrderOutcome, Search, settled, no_answer, gave_up_paging, read_failed, outcome_of,
}
use waterx_agent.Runner.Reconcile.Evidence.{IsShown, outcome_of-IsShown}
use waterx_agent.Runner.State.{Runner, Answers, transition, finish, moved_to, with_error}
use waterx_agent.Runner.Outcome.{
  expire_if_past_deadline, learns, learns_orders, learn_orders, seen_after, settle_by,
  settle_search, await_order_status,
}

-- The stored job is not filled.
abbrev Unfilled : ℕ → Runner → Type 0
Unfilled i r = (j : Job) × (get i r.jobs ≡ some j) × (j.state ≢ filled)

with_error-keeps :
    (s : JobState) (n : Note) (j : Job)
    → ((with_error s n j).id ≡ j.id) × ((with_error s n j).state ≡ j.state)
with_error-keeps s n j = ground arith

finish-Unfilled :
    (r : Runner) (i : ℕ) (s : JobState) (n : Note) (now : ℕ)
    → s ≢ filled
    → Unfilled i r
    → Unfilled i (finish r i s n now)
unfolding finish transition
finish-Unfilled r i s n now other (j, found, unfilled) =
    let f : Job → Job = λ j. with_error s n (moved_to s n now j) in
    (
      f j,
      get-update i i f r.jobs j (λ k. (with_error-keeps s n (moved_to s n now k)).0) found
          ∙ rw (==_refl i) refl,
      λ e. other (sym (with_error-keeps s n (moved_to s n now j)).1 ∙ e),
    )

expire-Unfilled :
    (r : Runner) (now : ℕ) (i : ℕ) (job : Job)
    → job.id ≡ i
    → Unfilled i r
    → Unfilled i (expire_if_past_deadline r now job)
unfolding expire_if_past_deadline
expire-Unfilled r now i job same u =
    elim (Bool-cases
      (ltb (r.limits.fill_deadline_ms + get_or_else job.submitted_at job.updated_at) now)) [
        | inl e ↦ rw (e, same) (finish-Unfilled r i unresolved _ now (λ e. cc) u)
        | inr e ↦ rw e u
      ]

learn-Unfilled :
    (r : Runner) (now : ℕ) (job : Job) (o : OrderOutcome)
    → Unfilled job.id r
    → Unfilled job.id (learn_orders r now job o)
unfolding learn_orders
learn-Unfilled r now job o (j, found, unfilled) = elim (Bool-cases (learns job o)) [
  | inl e ↦ rw e (
    learns_orders o.order_ids now j,
    get-update job.id job.id (learns_orders o.order_ids now) r.jobs j (λ k. refl) found
        ∙ rw (==_refl job.id) refl,
    unfilled,
  )
  | inr e ↦ rw e (j, found, unfilled)
]

seen_after-id : (now : ℕ) (job : Job) (o : OrderOutcome) → (seen_after now job o).id ≡ job.id
seen_after-id now job o = ground arith

settle_by-Unfilled :
    (r : Runner) (now i : ℕ) (job : Job) (ids : List ℕ) (status : OrderOutcomeStatus)
    → job.id ≡ i
    → status ≢ filled_status
    → Unfilled i r
    → Unfilled i (settle_by r now job ids status)
unfolding settle_by
settle_by-Unfilled r now i job ids filled_status same other u = absurd (other refl)
settle_by-Unfilled r now i job ids cancelled_status same other u =
    subst (λ k. Unfilled i (finish r k cancelled (order_ended cancelled_status) now)) (sym same)
      (finish-Unfilled r i cancelled _ now (λ e. cc) u)
settle_by-Unfilled r now i job ids invalidated_status same other u =
    subst (λ k. Unfilled i (finish r k cancelled (order_ended invalidated_status) now)) (sym same)
      (finish-Unfilled r i cancelled _ now (λ e. cc) u)
settle_by-Unfilled r now i job ids open_status same other u = expire-Unfilled r now i job same u

is_filled : (s : OrderOutcomeStatus) → (s ≡ filled_status) ⊎ (s ≢ filled_status)
is_filled filled_status = inl refl
is_filled open_status = inr (λ e. cc)
is_filled cancelled_status = inr (λ e. cc)
is_filled invalidated_status = inr (λ e. cc)

-- A stored job that is not filled yet is marked filled by `awaitOrderStatus` only if a page of the
-- history holds a row that carries the digest of its transaction and says that it was filled.
pub filled_needs_row :
    (r : Runner) (a : Answers) (job k : Job) (digest : String)
    → get job.id r.jobs ≡ some job
    → job.state ≢ filled
    → get job.id (await_order_status r a job digest).jobs ≡ some k
    → k.state ≡ filled
    → IsShown a.history digest filled_status
unfolding await_order_status settle_search
filled_needs_row r a job k digest found unfilled after is =
    by_search (outcome_of a.history digest since) refl after
  where
    since : ℕ
    since = get_or_else job.submitted_at job.created_at

    u : Unfilled job.id r
    u = (job, found, unfilled)

    never : (t : Runner) → Unfilled job.id t → get job.id t.jobs ≡ some k → ⊥
    never t (j, stored, other) e =
        other (ap (λ o. elim o [ none ↦ j.state | some x ↦ x.state ]) (sym stored ∙ e) ∙ is)

    by_search :
        (s : Search)
        → outcome_of a.history digest since ≡ s
        → get job.id (settle_search r a.now job s).jobs ≡ some k
        → IsShown a.history digest filled_status
    by_search no_answer e g =
        absurd (
          never (expire_if_past_deadline r a.now job) (expire-Unfilled r a.now job.id job refl u) g)
    by_search gave_up_paging e g = absurd (never r u g)
    by_search read_failed e g = absurd (never r u g)
    by_search (settled o) e g = elim (is_filled o.status) [
      | inl s ↦ outcome_of-IsShown a.history digest since o e s
      | inr s ↦ absurd (
          never
            (settle_by (learn_orders r a.now job o) a.now (seen_after a.now job o) o.order_ids
              o.status)
            (settle_by-Unfilled (learn_orders r a.now job o) a.now job.id (seen_after a.now job o)
              o.order_ids o.status (seen_after-id a.now job o) s (learn-Unfilled r a.now job o u))
            g)
    ]
