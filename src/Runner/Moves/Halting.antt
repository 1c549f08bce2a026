-- ===== src/Runner/Moves/Halting.antt =====
-- Ambiguity halts the runner (src/runner/runner.ts, `blockedByAmbiguity` in `tick`): what does not
-- submit sends nothing, and next to an unresolved job nothing is submitted.
use waterx_agent.Prelude.{
  ℕ, ◌≡◌, refl, inl, inr, String, Bool, true, false, List, [], ◌∷◌, Option, none, some, arith, any,
  ◌&&◌, ◌≢◌, not, if◌then◌else◌, Bool-cases, Option-cases, ◌∙◌, ap,
}
use waterx_agent.Runner.Types.{
  Intent, Job, JobState, queued, submitting, submitted, OrderOutcomeStatus, ReduceIntent,
  Settlement, settlement_of, filled, request_on_chain,
}
use waterx_agent.Runner.Store.{get, get-any}
use waterx_agent.Runner.Schedule.{Enqueued, refuses, skips, accepts, enqueue}
use waterx_agent.Runner.Stops.{Position}
use waterx_agent.Runner.Request.{position_of}
use waterx_agent.Runner.Reconcile.{Search}
use waterx_agent.Runner.State.{Runner, InboxEntry, InboxFile, Answers, transition, finish}
use waterx_agent.Runner.Submit.{resolve_by, resolve_ambiguous}
use waterx_agent.Runner.Outcome.{
  expire_if_past_deadline, seen_after, learns, disappearance_of, await_disappearance, learn_orders,
  settle_by, settle_search, await_order_status, leave, queue_stop_fits, queue_fits_of, follow_up,
  outcome_by, await_outcome,
}
use waterx_agent.Runner.Pass.{
  is_ambiguous, is_from, blocked_by_ambiguity, is_queued, drive_state, drive, drive_found,
  drive_one, drive_all, take_in, ingest, ingest_all, drain_inbox, prune, tick, to_schedule,
}
use waterx_agent.Runner.Moves.{Moves-trans}
use waterx_agent.Runner.Moves.Passes.{drive_one-Moves, drain_inbox-Moves, prune-Moves, tick-Moves}
use waterx_agent.Runner.Moves.AtMostOnce.{IsSafe, Moves-IsSafe}
use waterx_agent.Runner.Moves.History.{IsNew, Happening, live, live-IsSafe}
use waterx_agent.Runner.Moves.Lasting.{HasUnresolved, Moves-HasUnresolved}

resolve_ambiguous-sent :
    (r : Runner) (a : Answers) (j : Job) → (resolve_ambiguous r a j).sent ≡ r.sent
unfolding resolve_ambiguous resolve_by transition finish
resolve_ambiguous-sent r a j = ground arith

-- Either branch of a test.
if-sent :
    (r s t : Runner) (b : Bool)
    → s.sent ≡ r.sent
    → t.sent ≡ r.sent
    → (if b then s else t).sent ≡ r.sent
if-sent r s t true e h = e
if-sent r s t false e h = h

leave-sent : (r : Runner) (entries : List InboxEntry) → (leave r entries).sent ≡ r.sent
unfolding leave
leave-sent r [] = refl
leave-sent r (e ∷ es) = leave-sent _ es

queue_fits_of-sent :
    (r : Runner) (now : ℕ) (digest : Option String) (position : Option Position)
    → (queue_fits_of r now digest position).sent ≡ r.sent
queue_fits_of-sent r now digest none = refl
queue_fits_of-sent r now digest (some position) = leave-sent r _

queue_stop_fits-sent :
    (r : Runner) (a : Answers) (j : Job) (i : ReduceIntent)
    → (queue_stop_fits r a j i).sent ≡ r.sent
unfolding queue_stop_fits
queue_stop_fits-sent r a j i = elim (Option-cases a.positions) [
  | inl e ↦ rw (e, queue_stop_fits) (ground arith)
  | inr (positions, e) ↦
      let queued_fits =
        queue_fits_of-sent r a.now j.digest (position_of positions i.ticker i.position_id) in
      rw (e, queue_stop_fits)
        (if-sent r _ _ (not (r.fit_stops_enabled && r.has_inbox)) refl queued_fits)
]

follow_up-sent :
    (r : Runner) (a : Answers) (j : Job) (i : Intent) → (follow_up r a j i).sent ≡ r.sent
unfolding queue_stop_fits
follow_up-sent r a j (Intent.reduce i) = queue_stop_fits-sent r a j i
follow_up-sent r a j _ = refl

disappearance_of-sent :
    (r : Runner) (a : Answers) (j : Job) (i : Intent) → (disappearance_of r a j i).sent ≡ r.sent
unfolding disappearance_of expire_if_past_deadline finish transition
disappearance_of-sent r a j i = ground arith

settle_by-sent :
    (r : Runner) (now : ℕ) (j : Job) (ids : List ℕ) (status : OrderOutcomeStatus)
    → (settle_by r now j ids status).sent ≡ r.sent
unfolding settle_by expire_if_past_deadline finish transition
settle_by-sent r now j ids status = ground arith

settle_search-sent :
    (r : Runner) (now : ℕ) (j : Job) (search : Search)
    → (settle_search r now j search).sent ≡ r.sent
unfolding settle_search learn_orders expire_if_past_deadline finish transition
settle_search-sent r now j (Search.settled o) =
    settle_by-sent (learn_orders r now j o) now (seen_after now j o) o.order_ids o.status
    ∙ if-sent r _ _ (learns j o) refl refl
settle_search-sent r now j _ = ground arith

outcome_by-sent :
    (r : Runner) (a : Answers) (j : Job) (digest : String) (settlement : Settlement)
    → (outcome_by r a j digest settlement).sent ≡ r.sent
unfolding outcome_by await_disappearance await_order_status finish transition
outcome_by-sent r a j digest Settlement.onchain =
    follow_up-sent (finish r j.id filled request_on_chain a.now) a j j.intent
outcome_by-sent r a j digest Settlement.gone = disappearance_of-sent r a j j.intent
outcome_by-sent r a j digest Settlement.order_status = settle_search-sent r a.now j _

await_outcome-sent : (r : Runner) (a : Answers) (j : Job) → (await_outcome r a j).sent ≡ r.sent
unfolding await_outcome finish transition
await_outcome-sent r a j = elim (Option-cases j.digest) [
  | inl e ↦ rw (e, await_outcome) refl
  | inr (digest, e) ↦ rw (e, await_outcome) (outcome_by-sent r a j digest (settlement_of j.intent))
]

-- A job that does not wait in the queue sends nothing when it is driven.
drive_state-sent :
    (r : Runner) (a : Answers) (j : Job) (state : JobState)
    → state ≢ queued
    → (drive_state r a j state).0.sent ≡ r.sent
unfolding drive_state
drive_state-sent r a j queued h = absurd (h refl)
drive_state-sent r a j submitting h = resolve_ambiguous-sent r a j
drive_state-sent r a j submitted h = await_outcome-sent r a j
drive_state-sent r a j _ h = refl

drive_found-sent :
    (r : Runner) (a : Answers) (job : Option Job)
    → blocked_by_ambiguity r.jobs ≡ true
    → (drive_found r a job).0.sent ≡ r.sent
unfolding drive_found drive
drive_found-sent r a none blocked = refl
drive_found-sent r a (some j) blocked = elim (Bool-cases (is_queued j.state)) [
  | inl waits ↦ rw (waits, blocked) refl
  | inr moves ↦ rw moves (drive_state-sent r a j j.state (λ e. cc (moves, ap is_queued e)))
]

HasUnresolved-blocks : (i : ℕ) (js : List Job) → HasUnresolved i js → blocked_by_ambiguity js ≡ true
HasUnresolved-blocks i js (j, at, u) = get-any is_ambiguous i js j at (rw u)

drive_all-sent :
    (r : Runner) (a : Answers) (ids : List ℕ) (i : ℕ)
    → IsSafe r
    → HasUnresolved i r.jobs
    → (drive_all r a ids).sent ≡ r.sent
unfolding drive_all drive_one
drive_all-sent r a [] i v u = refl
drive_all-sent r a (id ∷ ids) i v u =
    let now_sent = drive_found-sent r a (get id r.jobs) (HasUnresolved-blocks i r.jobs u) in
    let moves = drive_one-Moves r a id in
    let rest =
      drive_all-sent (drive_one r a id).0 a ids i (Moves-IsSafe moves v)
        (Moves-HasUnresolved i moves v u) in
    if-sent r _ _ (not (a.alive id)) refl
      (if-sent r _ _ (drive_one r a id).1 (rest ∙ now_sent) now_sent)

take_in-sent : (r : Runner) (e : Enqueued) → (take_in r e).sent ≡ r.sent
take_in-sent r (refuses refusal) = refl
take_in-sent r (skips blocker) = refl
take_in-sent r (accepts job) = refl

ingest-sent : (r : Runner) (a : Answers) (f : InboxFile) → (ingest r a f).sent ≡ r.sent
unfolding ingest
ingest-sent r a f =
    let e = enqueue r.next_id f.entry.intent (to_schedule f) a.now r.jobs in
    if-sent r _ _ (any (is_from f.id) r.jobs) (if-sent r _ _ (a.removes f.id) refl refl)
      (if-sent r _ _ (a.removes f.id) (take_in-sent r e) (take_in-sent r e))

ingest_all-sent :
    (r : Runner) (a : Answers) (fs : List InboxFile) → (ingest_all r a fs).sent ≡ r.sent
unfolding ingest_all
ingest_all-sent r a [] = refl
ingest_all-sent r a (f ∷ fs) = ingest_all-sent (ingest r a f) a fs ∙ ingest-sent r a f

-- While a job is unresolved, a pass sends nothing: neither for the jobs that it finds queued nor
-- for those that it takes from the inbox. The job itself is still unresolved afterwards.
pub unresolved_halts :
    (r : Runner) (hs : List Happening) (a : Answers) (i : ℕ)
    → IsNew r
    → HasUnresolved i (live r hs).jobs
    → let s = live r hs in ((tick s a).sent ≡ s.sent) × HasUnresolved i (tick s a).jobs
unfolding tick drain_inbox prune
unresolved_halts r hs a i n u =
    let s = live r hs in
    let v = live-IsSafe r hs n in
    let drains = drain_inbox-Moves s a in
    let prunes = Moves-trans drains (prune-Moves (drain_inbox s a) a.now) in
    (
      drive_all-sent (prune (drain_inbox s a) a.now) a _ i (Moves-IsSafe prunes v)
            (Moves-HasUnresolved i prunes v u)
          ∙ if-sent s _ _ s.has_inbox (ingest_all-sent s a s.inbox) refl,
      Moves-HasUnresolved i (tick-Moves s a) v u,
    )
