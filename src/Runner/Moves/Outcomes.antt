-- ===== src/Runner/Moves/Outcomes.antt =====
-- `awaitOutcome` and what it calls (src/runner/runner.ts) make moves of the specification only.
use waterx_agent.Prelude.{
  ℕ, ◌+◌, ◌≡◌, refl, inl, inr, String, Bool, true, false, not, ◌&&◌, List, [], ◌∷◌, Option, none,
  some, arith, Bool-cases, Option-cases, ltb, get_or_else, ==_refl, subst, sym, ◌∙◌,
}
use waterx_agent.Runner.Types.{
  Intent, close, cancel, reduce, ReduceIntent, Job, submitted, filled, cancelled, unresolved,
  Settlement, order_status, gone, onchain, open_status, filled_status, cancelled_status,
  invalidated_status, OrderOutcomeStatus,
}
use waterx_agent.Runner.Store.{get, get-update}
use waterx_agent.Runner.Stops.{Position}
use waterx_agent.Runner.Reconcile.{
  OrderOutcome, Search, settled, no_answer, gave_up_paging, read_failed,
}
use waterx_agent.Runner.Request.{position_of}
use waterx_agent.Runner.State.{Runner, InboxEntry, Answers}
use waterx_agent.Runner.Outcome.{
  expire_if_past_deadline, finish_if_gone, await_disappearance, disappearance_of, learns,
  settle_search, outcome_by, learn_orders, learns_orders, seen_after, settle_by, await_order_status,
  leave, queue_fits_of, queue_stop_fits, follow_up, await_outcome,
}
use waterx_agent.Runner.Moves.{adjusts, idles, changes, Moves, here, Moves-one, Moves-trans}
use waterx_agent.Runner.Moves.Changes.{finish-Move}

expire_if_past_deadline-Moves :
    (r : Runner) (now : ℕ) (j : Job)
    → get j.id r.jobs ≡ some j
    → j.state ≡ submitted
    → Moves r (expire_if_past_deadline r now j)
unfolding expire_if_past_deadline
expire_if_past_deadline-Moves r now j found s =
    elim (Bool-cases
      (ltb (r.limits.fill_deadline_ms + get_or_else j.submitted_at j.updated_at) now)) [
        | inl late ↦ rw late (Moves-one (finish-Move r j.id unresolved _ now j found (rw s)))
        | inr wait ↦ rw wait here
      ]

finish_if_gone-Moves :
    (r : Runner) (now : ℕ) (j : Job) (is_gone : Bool)
    → get j.id r.jobs ≡ some j
    → j.state ≡ submitted
    → Moves r (finish_if_gone r now j is_gone)
finish_if_gone-Moves r now j true found s =
    Moves-one (finish-Move r j.id filled _ now j found (rw s))
finish_if_gone-Moves r now j false found s = expire_if_past_deadline-Moves r now j found s

disappearance_of-Moves :
    (r : Runner) (a : Answers) (j : Job) (i : Intent)
    → get j.id r.jobs ≡ some j
    → j.state ≡ submitted
    → Moves r (disappearance_of r a j i)
unfolding disappearance_of
disappearance_of-Moves r a j (close i) found s = elim (Option-cases a.positions) [
  | inl e ↦ rw (e, disappearance_of) here
  | inr (positions, e) ↦ rw (e, disappearance_of) (finish_if_gone-Moves r a.now j _ found s)
]
disappearance_of-Moves r a j (cancel i) found s = elim (Option-cases a.orders) [
  | inl e ↦ rw (e, disappearance_of) here
  | inr (orders, e) ↦ rw (e, disappearance_of) (finish_if_gone-Moves r a.now j _ found s)
]
disappearance_of-Moves r a j _ found s = finish_if_gone-Moves r a.now j true found s

leave-Moves : (r : Runner) (entries : List InboxEntry) → Moves r (leave r entries)
unfolding leave
leave-Moves r [] = here
leave-Moves r (e ∷ es) =
    Moves-trans (Moves-one (idles refl refl refl (omega arith))) (leave-Moves _ es)

queue_fits_of-Moves :
    (r : Runner) (now : ℕ) (digest : Option String) (found : Option Position)
    → Moves r (queue_fits_of r now digest found)
queue_fits_of-Moves r now digest none = here
queue_fits_of-Moves r now digest (some position) = leave-Moves r _

queue_stop_fits-Moves :
    (r : Runner) (a : Answers) (j : Job) (i : ReduceIntent) → Moves r (queue_stop_fits r a j i)
unfolding queue_stop_fits
queue_stop_fits-Moves r a j i = elim (Bool-cases (not (r.fit_stops_enabled && r.has_inbox))) [
  | inl off ↦ rw off here
  | inr on ↦ rw on (elim (Option-cases a.positions) [
    | inl e ↦ rw (e, queue_stop_fits) here
    | inr (positions, e) ↦
        rw (e, queue_stop_fits)
          (queue_fits_of-Moves r a.now j.digest (position_of positions i.ticker i.position_id))
  ])
]

follow_up-Moves : (r : Runner) (a : Answers) (j : Job) (i : Intent) → Moves r (follow_up r a j i)
follow_up-Moves r a j (reduce i) = queue_stop_fits-Moves r a j i
follow_up-Moves r a j _ = here

-- The write of the order ids is no change of state.
learn_orders-Moves :
    (r : Runner) (now : ℕ) (j : Job) (outcome : OrderOutcome)
    → get j.id r.jobs ≡ some j
    → Moves r (learn_orders r now j outcome)
unfolding learn_orders
learn_orders-Moves r now j outcome found = elim (Bool-cases (learns j outcome)) [
  | inl some_ids ↦ rw some_ids (
      Moves-one (
        changes j.id (learns_orders outcome.order_ids now) j found (λ x. refl)
          (adjusts refl refl refl) refl
          (record { next_same = refl; sent_same = refl; limits_same = refl })))
  | inr none_new ↦ rw none_new here
]

learn_orders-get :
    (r : Runner) (now : ℕ) (j : Job) (outcome : OrderOutcome)
    → get j.id r.jobs ≡ some j
    → get j.id (learn_orders r now j outcome).jobs ≡ some (seen_after now j outcome)
unfolding learn_orders
learn_orders-get r now j outcome found = ground (
  arith,
  get-update j.id j.id (learns_orders outcome.order_ids now) r.jobs j (λ x. refl) found,
  ==_refl j.id,
)

settle_by-Moves :
    (r : Runner) (now : ℕ) (j : Job) (ids : List ℕ) (status : OrderOutcomeStatus)
    → get j.id r.jobs ≡ some j
    → j.state ≡ submitted
    → Moves r (settle_by r now j ids status)
unfolding settle_by
settle_by-Moves r now j ids filled_status found s =
    Moves-one (finish-Move r j.id filled _ now j found (rw s))
settle_by-Moves r now j ids cancelled_status found s =
    Moves-one (finish-Move r j.id cancelled _ now j found (rw s))
settle_by-Moves r now j ids invalidated_status found s =
    Moves-one (finish-Move r j.id cancelled _ now j found (rw s))
settle_by-Moves r now j ids open_status found s = expire_if_past_deadline-Moves r now j found s

seen_after-same :
    (now : ℕ) (j : Job) (outcome : OrderOutcome)
    → ((seen_after now j outcome).id ≡ j.id) × ((seen_after now j outcome).state ≡ j.state)
seen_after-same now j outcome = elim (Bool-cases (learns j outcome)) [
  | inl some_ids ↦ rw some_ids (refl, refl)
  | inr none_new ↦ rw none_new (refl, refl)
]

settle_search-Moves :
    (r : Runner) (now : ℕ) (j : Job) (search : Search)
    → get j.id r.jobs ≡ some j
    → j.state ≡ submitted
    → Moves r (settle_search r now j search)
unfolding settle_search
settle_search-Moves r now j (settled outcome) found s =
    let same = seen_after-same now j outcome in
    Moves-trans (learn_orders-Moves r now j outcome found) (
      settle_by-Moves (learn_orders r now j outcome) now (seen_after now j outcome)
        outcome.order_ids outcome.status
        (subst (λ i. get i (learn_orders r now j outcome).jobs ≡ some (seen_after now j outcome))
          (sym same.0) (learn_orders-get r now j outcome found))
        (same.1 ∙ s))
settle_search-Moves r now j no_answer found s = expire_if_past_deadline-Moves r now j found s
settle_search-Moves r now j gave_up_paging found s = here
settle_search-Moves r now j read_failed found s = here

outcome_by-Moves :
    (r : Runner) (a : Answers) (j : Job) (digest : String) (settlement : Settlement)
    → get j.id r.jobs ≡ some j
    → j.state ≡ submitted
    → Moves r (outcome_by r a j digest settlement)
unfolding outcome_by await_disappearance await_order_status
outcome_by-Moves r a j digest onchain found s =
    Moves-trans (Moves-one (finish-Move r j.id filled _ a.now j found (rw s)))
      (follow_up-Moves _ a j j.intent)
outcome_by-Moves r a j digest gone found s = disappearance_of-Moves r a j j.intent found s
outcome_by-Moves r a j digest order_status found s = settle_search-Moves r a.now j _ found s

pub await_outcome-Moves :
    (r : Runner) (a : Answers) (j : Job)
    → get j.id r.jobs ≡ some j
    → j.state ≡ submitted
    → Moves r (await_outcome r a j)
unfolding await_outcome
await_outcome-Moves r a j found s = elim (Option-cases j.digest) [
  | inl e ↦ rw (e, await_outcome) (Moves-one (finish-Move r j.id unresolved _ a.now j found (rw s)))
  | inr (digest, e) ↦ rw (e, await_outcome) (outcome_by-Moves r a j digest _ found s)
]
