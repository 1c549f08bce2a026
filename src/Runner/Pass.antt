-- ===== src/Runner/Pass.antt =====
-- src/runner/runner.ts, `drive`, `readyToFit`, `drainInbox` and `tick`: one pass over the work.
use waterx_agent.Prelude.{
  ℕ, ◌+◌, Bool, true, false, not, ◌&&◌, List, [], ◌∷◌, Option, none, some, ltb, ◌==◌, if◌then◌else◌,
  filter, any, Number, gtb_number,
}
use waterx_agent.Runner.Types.{
  Intent, fit_stop, FitStopIntent, Job, JobState, queued, submitting, submitted, cancelled,
  unresolved, expired, is_terminal, window_closed, position_closed, already_fits,
}
use waterx_agent.Runner.Store.{get, update, add, prune_finished}
use waterx_agent.Runner.Stops.{Position, oversized_stops}
use waterx_agent.Runner.Schedule.{Schedule, enqueue, Enqueued, refuses, skips, accepts}
use waterx_agent.Runner.Request.{position_of, protects}
use waterx_agent.Runner.State.{Runner, InboxFile, Answers, finish}
use waterx_agent.Runner.Submit.{submit, resolve_ambiguous}
use waterx_agent.Runner.Outcome.{await_outcome, fit_stop_grace_ms}

abbrev pub defers : ℕ → Job → Job
defers now j = record j { not_before = some (now + fit_stop_grace_ms); updated_at = now }

-- `position.sizeInAsset >= intent.wasHolding`, on numbers that are not NaN.
abbrev pub at_least : Number → Number → Bool
at_least Number.nan b = false
at_least a Number.nan = false
at_least a b = not (gtb_number b a)

-- The answers of `readyToFit` on the position that it read: the runner, and whether to go on.
unfoldable pub ready_at : Runner → ℕ → Job → FitStopIntent → Option Position → Runner × Bool
ready_at r now job intent none = (finish r job.id cancelled position_closed now, false)
ready_at r now job intent (some position) =
    if any (protects intent.order_id) (oversized_stops position)
    then (r, true)
    else if at_least position.size_in_asset intent.was_holding
    then (record r { jobs = update job.id (defers now) r.jobs }, false)
    else (finish r job.id cancelled already_fits now, false)

-- `readyToFit`. After a read that fails the job stays queued.
unfoldable pub ready_to_fit : Runner → Answers → Job → FitStopIntent → Runner × Bool
unfolding ready_at
ready_to_fit r a job intent = elim a.positions [
  | none ↦ (r, false)
  | some positions ↦
      ready_at r a.now job intent (position_of positions intent.ticker intent.position_id)
]

-- Whether a queued job of this intent goes on to `submit`.
unfoldable pub looks_first : Runner → Answers → Job → Intent → Runner × Bool
unfolding ready_to_fit
looks_first r a job (fit_stop i) = ready_to_fit r a job i
looks_first r a job _ = (r, true)

abbrev pub past : Option ℕ → ℕ → Bool
past none now = false
past (some expiry) now = ltb expiry now

abbrev pub early : Option ℕ → ℕ → Bool
early none now = false
early (some start) now = ltb now start

-- The end of the `queued` case: to `submit`, unless the look said no.
abbrev pub go_on : Answers → Job → Runner × Bool → Runner × Bool
go_on a job (s, true) = submit s a job
go_on a job (s, false) = (s, true)

unfoldable pub drive_queued : Runner → Answers → Job → Runner × Bool
unfolding looks_first
drive_queued r a job =
    if past job.expires_at a.now
    then (finish r job.id expired window_closed a.now, true)
    else if early job.not_before a.now
    then (r, true)
    else go_on a job (looks_first r a job job.intent)

-- The `switch` of `drive`, and whether the process lives on.
unfoldable pub drive_state : Runner → Answers → Job → JobState → Runner × Bool
unfolding drive_queued
drive_state r a job queued = drive_queued r a job
drive_state r a job submitting = (resolve_ambiguous r a job, true)
drive_state r a job submitted = (await_outcome r a job, true)
drive_state r a job _ = (r, true)

-- `drive`
unfoldable pub drive : Runner → Answers → Job → Runner × Bool
unfolding drive_state
drive r a job = drive_state r a job job.state

-- A job whose outcome is not known.
abbrev pub is_ambiguous : Job → Bool
is_ambiguous job = elim job.state [ submitting ↦ true | unresolved ↦ true | _ ↦ false ]

-- `blockedByAmbiguity`
abbrev pub blocked_by_ambiguity : List Job → Bool
blocked_by_ambiguity jobs = any is_ambiguous jobs

abbrev pub is_queued : JobState → Bool
is_queued queued = true
is_queued _ = false

unfoldable pub drive_found : Runner → Answers → Option Job → Runner × Bool
unfolding drive
drive_found r a none = (r, true)
drive_found r a (some job) =
    if is_queued job.state && blocked_by_ambiguity r.jobs then (r, true) else drive r a job

-- One round of the loop in `tick`: the job is an object of the store, so its state is read now.
unfoldable pub drive_one : Runner → Answers → ℕ → Runner × Bool
unfolding drive_found
drive_one r a id = drive_found r a (get id r.jobs)

-- The loop of `tick`, which ends where the process dies.
unfoldable pub drive_all : Runner → Answers → List ℕ → Runner
unfolding drive_one
drive_all r a [] = r
drive_all r a (id ∷ ids) =
    let (s, lives) = drive_one r a id in
    let rest = drive_all s a ids in if not (a.alive id) then r else if lives then rest else s

-- `RANK` and `byAmbiguityFirst`
abbrev rank : JobState → ℕ
rank submitting = 0
rank submitted = 1
rank queued = 2
rank _ = 3

abbrev goes_before : Job → Job → Bool
goes_before a b =
    if rank a.state == rank b.state
    then ltb a.created_at b.created_at
    else ltb (rank a.state) (rank b.state)

-- `Array.prototype.sort` is stable: an element is put in front of the first that it goes before.
insert_job : Job → List Job → List Job
insert_job j [] = j ∷ []
insert_job j (k ∷ ks) = if goes_before k j then k ∷ insert_job j ks else j ∷ k ∷ ks

unfoldable pub sort_jobs : List Job → List Job
unfolding insert_job
sort_jobs [] = []
sort_jobs (j ∷ js) = insert_job j (sort_jobs js)

-- `pending`
unfoldable pub pending : List Job → List Job
pending jobs = filter (λ j. not (is_terminal j.state)) jobs

abbrev ids_of : List Job → List ℕ
ids_of [] = []
ids_of (j ∷ js) = j.id ∷ ids_of js

-- `toSchedule`. Without a key the cooldown is left out.
abbrev pub to_schedule : InboxFile → Schedule
to_schedule file = record {
  not_before = file.entry.not_before;
  expires_at = file.entry.expires_at;
  key = file.entry.key;
  cooldown_ms = elim file.entry.key [ none ↦ none | some _ ↦ file.entry.cooldown_ms ];
  inbox_id = some file.id;
}

abbrev pub is_from : ℕ → Job → Bool
is_from id job = elim job.inbox_id [ none ↦ false | some i ↦ i == id ]

abbrev remove_file : ℕ → List InboxFile → List InboxFile
remove_file id files = filter (λ f. not (f.id == id)) files

-- `ackQuietly`: the file goes, or removing it fails and is reported.
abbrev pub ack : Runner → Answers → ℕ → Runner
ack r a id = if a.removes id then record r { inbox = remove_file id r.inbox } else r

abbrev pub take_in : Runner → Enqueued → Runner
take_in r (refuses refusal) = r
take_in r (skips blocker) = r
take_in r (accepts job) = record r { jobs = add job r.jobs; next_id = job.id + 1 }

-- `ingest`. What `enqueue` throws is a policy refusal, and is acked like a job that was stored.
unfoldable pub ingest : Runner → Answers → InboxFile → Runner
ingest r a file =
    if any (is_from file.id) r.jobs
    then ack r a file.id
    else ack (take_in r (enqueue r.next_id file.entry.intent (to_schedule file) a.now r.jobs)) a
        file.id

unfoldable pub ingest_all : Runner → Answers → List InboxFile → Runner
unfolding ingest
ingest_all r a [] = r
ingest_all r a (f ∷ fs) = ingest_all (ingest r a f) a fs

-- `drainInbox`
unfoldable pub drain_inbox : Runner → Answers → Runner
unfolding ingest_all
drain_inbox r a = if r.has_inbox then ingest_all r a r.inbox else r

unfoldable pub prune : Runner → ℕ → Runner
prune r now = record r { jobs = (prune_finished r.limits.retention_ms now r.jobs).0 }

-- `tick`
unfoldable pub tick : Runner → Answers → Runner
unfolding drain_inbox prune drive_all sort_jobs pending
tick r a =
    let s = prune (drain_inbox r a) a.now in drive_all s a (ids_of (sort_jobs (pending s.jobs)))
