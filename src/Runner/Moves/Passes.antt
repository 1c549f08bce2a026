-- ===== src/Runner/Moves/Passes.antt =====
-- `drive`, `ingest` and `tick` (src/runner/runner.ts) make moves of the specification only.
use waterx_agent.Prelude.{
  ℕ, ◌+◌, ◌≡◌, refl, inl, inr, Bool, true, false, List, [], ◌∷◌, Option, none, some, arith,
  Bool-cases, Option-cases, any, ◌&&◌, if◌then◌else◌, ◌⊎◌, subst, sym, ap,
}
use waterx_agent.Runner.Types.{
  Intent, fit_stop, FitStopIntent, Job, JobState, queued, submitting, submitted, cancelled, expired,
  already_fits,
}
use waterx_agent.Runner.Store.{get, get-id, update, prune_finished}
use waterx_agent.Runner.Stops.{Position, oversized_stops}
use waterx_agent.Runner.Schedule.{Enqueued, refuses, skips, accepts, Schedule, enqueue, new_job}
use waterx_agent.Runner.Request.{position_of, protects}
use waterx_agent.Runner.State.{Runner, InboxFile, Answers, finish}
use waterx_agent.Runner.Submit.{submit}
use waterx_agent.Runner.Pass.{
  defers, ready_at, ready_to_fit, looks_first, past, early, drive_queued, drive, drive_one,
  drive_all, ack, take_in, ingest, ingest_all, drain_inbox, prune, tick, is_queued,
  blocked_by_ambiguity, is_from, to_schedule, drive_state, drive_found, at_least, go_on,
}
use waterx_agent.Runner.Moves.{
  adjusts, idles, changes, takes, drops, Moves, here, Moves-one, Moves-trans,
}
use waterx_agent.Runner.Moves.Changes.{finish-Move, submit-Moves, resolve_ambiguous-Moves}
use waterx_agent.Runner.Moves.Outcomes.{await_outcome-Moves}

-- What a look before a submission may do: it goes on with the store as it was, or it moves.
abbrev Looks : Runner → Runner × Bool → Type 0
Looks r (s, true) = s ≡ r
Looks r (s, false) = Moves r s

ready_at-Looks :
    (r : Runner) (now : ℕ) (j : Job) (i : FitStopIntent) (position : Option Position)
    → get j.id r.jobs ≡ some j
    → j.state ≡ queued
    → Looks r (ready_at r now j i position)
unfolding ready_at
ready_at-Looks r now j i none found s =
    Moves-one (finish-Move r j.id cancelled _ now j found (rw s))
ready_at-Looks r now j i (some position) found s =
    elim (Bool-cases (any (protects i.order_id) (oversized_stops position))) [
      | inl large ↦ rw large refl
      | inr fits ↦ rw fits (deferral (Bool-cases (at_least position.size_in_asset i.was_holding)))
    ]
  where
    deferral :
        (at_least position.size_in_asset i.was_holding ≡ true)
          ⊎ (at_least position.size_in_asset i.was_holding ≡ false)
        → Looks r (
            if at_least position.size_in_asset i.was_holding
            then (record r { jobs = update j.id (defers now) r.jobs }, false)
            else (finish r j.id cancelled already_fits now, false))
    deferral (inl unfilled) = rw unfilled (
        Moves-one (
          changes j.id (defers now) j found (λ x. refl) (adjusts refl refl refl) refl
            (record { next_same = refl; sent_same = refl; limits_same = refl })))
    deferral (inr filled_already) =
        rw filled_already (Moves-one (finish-Move r j.id cancelled _ now j found (rw s)))

ready_to_fit-Looks :
    (r : Runner) (a : Answers) (j : Job) (i : FitStopIntent)
    → get j.id r.jobs ≡ some j
    → j.state ≡ queued
    → Looks r (ready_to_fit r a j i)
unfolding ready_to_fit
ready_to_fit-Looks r a j i found s = elim (Option-cases a.positions) [
  | inl e ↦ rw (e, ready_to_fit) here
  | inr (positions, e) ↦
      rw (e, ready_to_fit)
        (ready_at-Looks r a.now j i (position_of positions i.ticker i.position_id) found s)
]

looks_first-Looks :
    (r : Runner) (a : Answers) (j : Job) (i : Intent)
    → get j.id r.jobs ≡ some j
    → j.state ≡ queued
    → Looks r (looks_first r a j i)
unfolding looks_first
looks_first-Looks r a j (fit_stop i) found s = ready_to_fit-Looks r a j i found s
looks_first-Looks r a j _ found s = refl

go_on-Moves :
    (r : Runner) (a : Answers) (j : Job) (look : Runner × Bool)
    → get j.id r.jobs ≡ some j
    → j.state ≡ queued
    → Looks r look
    → Moves r (go_on a j look).0
go_on-Moves r a j (t, true) found s same =
    subst (λ u. Moves r (submit u a j).0) (sym same) (submit-Moves r a j found s)
go_on-Moves r a j (t, false) found s moves = moves

drive_queued-Moves :
    (r : Runner) (a : Answers) (j : Job)
    → get j.id r.jobs ≡ some j
    → j.state ≡ queued
    → Moves r (drive_queued r a j).0
unfolding drive_queued
drive_queued-Moves r a j found s = elim (Bool-cases (past j.expires_at a.now)) [
  | inl late ↦ rw late (Moves-one (finish-Move r j.id expired _ a.now j found (rw s)))
  | inr open_still ↦ rw open_still (elim (Bool-cases (early j.not_before a.now)) [
    | inl soon ↦ rw soon here
    | inr due ↦ rw due (
        go_on-Moves r a j (looks_first r a j j.intent) found s
          (looks_first-Looks r a j j.intent found s))
  ])
]

drive_state-Moves :
    (r : Runner) (a : Answers) (j : Job) (state : JobState)
    → get j.id r.jobs ≡ some j
    → j.state ≡ state
    → Moves r (drive_state r a j state).0
unfolding drive_state
drive_state-Moves r a j queued found s = drive_queued-Moves r a j found s
drive_state-Moves r a j submitting found s = resolve_ambiguous-Moves r a j found s
drive_state-Moves r a j submitted found s = await_outcome-Moves r a j found s
drive_state-Moves r a j _ found s = here

drive_found-Moves :
    (r : Runner) (a : Answers) (id : ℕ) (job : Option Job)
    → get id r.jobs ≡ job
    → Moves r (drive_found r a job).0
unfolding drive_found drive
drive_found-Moves r a id none found = here
drive_found-Moves r a id (some j) found =
    elim (Bool-cases (is_queued j.state && blocked_by_ambiguity r.jobs)) [
      | inl held ↦ rw held here
      | inr free ↦ rw free (
          drive_state-Moves r a j j.state
            (subst (λ i. get i r.jobs ≡ some j) (sym (get-id id r.jobs j found)) found) refl)
    ]

pub drive_one-Moves : (r : Runner) (a : Answers) (id : ℕ) → Moves r (drive_one r a id).0
unfolding drive_one
drive_one-Moves r a id = drive_found-Moves r a id (get id r.jobs) refl

drive_all-Moves : (r : Runner) (a : Answers) (ids : List ℕ) → Moves r (drive_all r a ids)
unfolding drive_all
drive_all-Moves r a [] = here
drive_all-Moves r a (id ∷ ids) = elim (Bool-cases (a.alive id)) [
  | inr dead ↦ rw dead here
  | inl alive ↦ rw alive (elim (Bool-cases (drive_one r a id).1) [
    | inl lives ↦
        rw lives (Moves-trans (drive_one-Moves r a id) (drive_all-Moves (drive_one r a id).0 a ids))
    | inr dies ↦ rw dies (drive_one-Moves r a id)
  ])
]

-- Either branch of a test.
if-Moves : {r s t : Runner} (b : Bool) → Moves r s → Moves r t → Moves r (if b then s else t)
if-Moves true m n = m
if-Moves false m n = n

ack-Moves : (r : Runner) (a : Answers) (id : ℕ) → Moves r (ack r a id)
ack-Moves r a id = if-Moves (a.removes id) (Moves-one (idles refl refl refl (omega arith))) here

-- What is accepted is a queued job under the id that was drawn.
enqueue-new :
    (id now : ℕ) (intent : Intent) (s : Schedule) (jobs : List Job) (j : Job)
    → enqueue id intent s now jobs ≡ accepts j
    → j ≡ new_job id intent s now
unfolding enqueue
enqueue-new id now intent s jobs j h = ground arith

take_in-Moves :
    (r : Runner) (e : Enqueued)
    → ((j : Job) → e ≡ accepts j → (j.id ≡ r.next_id) × (j.state ≡ queued) × (j.attempts ≡ 0))
    → Moves r (take_in r e)
take_in-Moves r (refuses refusal) new = here
take_in-Moves r (skips blocker) new = here
take_in-Moves r (accepts j) new =
    let n = new j refl in Moves-one (takes j n.0 n.1 n.2 refl (ap (λ i. i + 1) n.0) refl refl)

-- Accepting an intent is a move, also where nothing is accepted.
pub enqueue-Moves :
    (r : Runner) (intent : Intent) (s : Schedule) (now : ℕ)
    → Moves r (take_in r (enqueue r.next_id intent s now r.jobs))
enqueue-Moves r intent s now = take_in-Moves r (enqueue r.next_id intent s now r.jobs) λ j e.
    let n = enqueue-new r.next_id now intent s r.jobs j e in
    (ap (λ x. x.id) n, ap (λ x. x.state) n, ap (λ x. x.attempts) n)

ingest-Moves : (r : Runner) (a : Answers) (file : InboxFile) → Moves r (ingest r a file)
unfolding ingest
ingest-Moves r a file = elim (Bool-cases (any (is_from file.id) r.jobs)) [
  | inl known ↦ rw known (ack-Moves r a file.id)
  | inr fresh ↦ rw fresh (
      Moves-trans (enqueue-Moves r file.entry.intent (to_schedule file) a.now)
        (ack-Moves _ a file.id))
]

ingest_all-Moves :
    (r : Runner) (a : Answers) (files : List InboxFile) → Moves r (ingest_all r a files)
unfolding ingest_all
ingest_all-Moves r a [] = here
ingest_all-Moves r a (f ∷ fs) =
    Moves-trans (ingest-Moves r a f) (ingest_all-Moves (ingest r a f) a fs)

pub drain_inbox-Moves : (r : Runner) (a : Answers) → Moves r (drain_inbox r a)
unfolding drain_inbox
drain_inbox-Moves r a = if-Moves r.has_inbox (ingest_all-Moves r a r.inbox) here

pub prune-Moves : (r : Runner) (now : ℕ) → Moves r (prune r now)
unfolding prune prune_finished
prune-Moves r now =
    Moves-one (drops now refl (record { next_same = refl; sent_same = refl; limits_same = refl }))

-- A whole pass is a sequence of moves: each one a change of one job that the job's own life cycle
-- allows, a digest that is recorded as the bytes leave, a new job, or a pruning.
pub tick-Moves : (r : Runner) (a : Answers) → Moves r (tick r a)
unfolding tick
tick-Moves r a =
    Moves-trans (drain_inbox-Moves r a) (Moves-trans (prune-Moves _ a.now) (drive_all-Moves _ a _))
