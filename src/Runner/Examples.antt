-- ===== src/Runner/Examples.antt =====
-- Runs of the runner (src/runner/runner.ts), and its theorems at them.
use waterx_agent.Prelude.{
  ℕ, ◌+◌, ◌≤◌, ◌≡◌, refl, ◌↔◌, true, false, List, [], ◌∷◌, Option, none, some, arith, finite, pos,
  All, length,
}
use waterx_agent.Runner.Types.{
  wlp_claim, Job, submitting, filled, is_terminal, default_limits, other_failure, settlement_of,
  policy_failure,
}
use waterx_agent.Runner.Failures.{is_final}
use waterx_agent.Runner.Store.{get, update, prune_finished, is_kept, Rising}
use waterx_agent.Runner.Store.Pruning.{IsProtected, IsDroppable, prune_finished_lem}
use waterx_agent.Runner.Schedule.{Schedule, enqueue, blocking_job, verdict_of, accepts, new_job}
use waterx_agent.Runner.Schedule.Suppression.{
  Yields, IsAcceptable, blocking_job-none, enqueue-IsAcceptable,
}
use waterx_agent.Runner.Reconcile.{did_land, not_found}
use waterx_agent.Runner.Request.{reads, plan}
use waterx_agent.Runner.State.{
  Runner, Answers, signs, lost, transition, finish, refused_early, Attempt,
}
use waterx_agent.Runner.Submit.{
  record_digest, give_back, after_digest, attempt_call, submit, resolve_by, resolve_ambiguous,
}
use waterx_agent.Runner.Pass.{
  drive_queued, drive_state, drive, drive_found, drive_one, drive_all, sort_jobs, pending,
  ingest_all, drain_inbox, prune, tick,
}
use waterx_agent.Runner.Outcome.{await_order_status, settle_search, settle_by, learn_orders}
use waterx_agent.Runner.Outcome.Filled.{filled_needs_row}
use waterx_agent.Runner.Reconcile.{HistoryPage, outcome_of, outcome_from, to_outcome}
use waterx_agent.Runner.Reconcile.Evidence.{IsShown}
use waterx_agent.Runner.Types.{submitted, filled_status}
use waterx_agent.Runner.Stops
use waterx_agent.Runner.Stops.{oversized_stops}
use waterx_agent.Runner.Types.{Side, FitStopIntent}
use waterx_agent.Runner.Request.{UpdateOrderRequest, update_order, calls, plan_fit, plan_fit_at}
use waterx_agent.Runner.Request.Fitting.{Fits, plan_fit_writes}
use waterx_agent.Runner.Moves.{Moves}
use waterx_agent.Runner.Moves.Passes.{tick-Moves}
use waterx_agent.Runner.Moves.AtMostOnce.{sent_count, last_sent}
use waterx_agent.Runner.Moves.History.{
  Happening, is_handed, passes, live, IsNew, sent_at_most_once, sent_is_recoverable,
}
use waterx_agent.Runner.Moves.Lasting.{Keeps, ended_is_final, HasUnresolved, unresolved_waits}
use waterx_agent.Runner.Moves.Attempts.{IsBounded, attempts-IsBounded}
use waterx_agent.Runner.Moves.Halting.{unresolved_halts}

abbrev empty_runner : Runner
empty_runner = record {
  jobs = [];
  inbox = [];
  has_inbox = false;
  fit_stops_enabled = false;
  limits = default_limits;
  next_id = 0;
  sent = [];
}

empty-IsNew : IsNew empty_runner
empty-IsNew = record { no_jobs = refl; none_sent = refl }

-- A pass in which every call of the agent goes the same way, and the chain knows no transaction.
abbrev pass_at : ℕ → Attempt → Answers
pass_at now attempt = record {
  now = now;
  alive = λ i. true;
  agent = λ i call. attempt;
  lookup = λ digest. not_found;
  history = λ cursor. none;
  positions = none;
  positions_at_write = reads [];
  orders = none;
  removes = λ i. true;
}

abbrev no_schedule : Schedule
no_schedule = record {
  not_before = none;
  expires_at = none;
  key = none;
  cooldown_ms = none;
  inbox_id = none;
}

-- The intent is accepted, its transaction leaves and the answer is lost.
abbrev lost_run : List Happening
lost_run =
    is_handed wlp_claim no_schedule 10
    ∷ passes (pass_at 20 (signs "D" (lost (other_failure "timeout"))))
    ∷ []

-- And the chain never sees it.
abbrev unseen_run : List Happening
unseen_run =
    is_handed wlp_claim no_schedule 10
    ∷ passes (pass_at 20 (signs "D" (lost (other_failure "timeout"))))
    ∷ passes (pass_at 400_000 (signs "E" (lost (other_failure "timeout"))))
    ∷ []

-- The agent refuses for good.
abbrev refused_run : List Happening
refused_run =
    is_handed wlp_claim no_schedule 10
    ∷ passes (pass_at 20 (refused_early (policy_failure "read-only")))
    ∷ []

abbrev found_job : Option Job → Job
found_job none = new_job 9 wlp_claim no_schedule 0
found_job (some j) = j

abbrev job_after : List Happening → Job
job_after hs = found_job (get 0 (live empty_runner hs).jobs)

lost_job-found : get 0 (live empty_runner lost_run).jobs ≡ some (job_after lost_run)
unfolding get update enqueue did_land plan transition finish record_digest give_back after_digest
    attempt_call submit resolve_by resolve_ambiguous drive_queued drive_state drive drive_found
    drive_one drive_all sort_jobs pending ingest_all drain_inbox prune prune_finished is_kept tick
    settlement_of is_final
lost_job-found = refl

lost_job-submitting : (job_after lost_run).state ≡ submitting
unfolding get update enqueue did_land plan transition finish record_digest give_back after_digest
    attempt_call submit resolve_by resolve_ambiguous drive_queued drive_state drive drive_found
    drive_one drive_all sort_jobs pending ingest_all drain_inbox prune prune_finished is_kept tick
    settlement_of is_final
lost_job-submitting = refl

lost_job-sent : last_sent 0 (live empty_runner lost_run).sent ≡ some "D"
unfolding get update enqueue did_land plan transition finish record_digest give_back after_digest
    attempt_call submit resolve_by resolve_ambiguous drive_queued drive_state drive drive_found
    drive_one drive_all sort_jobs pending ingest_all drain_inbox prune prune_finished is_kept tick
    settlement_of is_final
lost_job-sent = refl

sent_at_most_once_example : sent_count 0 (live empty_runner unseen_run).sent ≤ 1
sent_at_most_once_example = sent_at_most_once empty_runner unseen_run 0 empty-IsNew

sent_is_recoverable_example : (job_after lost_run).digest ≡ some "D"
sent_is_recoverable_example =
    sent_is_recoverable empty_runner lost_run 0 (job_after lost_run) "D" empty-IsNew lost_job-found
      lost_job-submitting lost_job-sent

abbrev handed_run : List Happening
handed_run = is_handed wlp_claim no_schedule 10 ∷ []

tick-Moves_example :
    Moves (live empty_runner handed_run) (
      tick (live empty_runner handed_run) (pass_at 20 (signs "D" (lost (other_failure "timeout")))))
tick-Moves_example =
    tick-Moves (live empty_runner handed_run)
      (pass_at 20 (signs "D" (lost (other_failure "timeout"))))

attempts-IsBounded_example : IsBounded 3 (live empty_runner unseen_run)
attempts-IsBounded_example = attempts-IsBounded empty_runner unseen_run empty-IsNew

refused_job-found : get 0 (live empty_runner refused_run).jobs ≡ some (job_after refused_run)
unfolding get update enqueue did_land plan transition finish record_digest give_back after_digest
    attempt_call submit resolve_by resolve_ambiguous drive_queued drive_state drive drive_found
    drive_one drive_all sort_jobs pending ingest_all drain_inbox prune prune_finished is_kept tick
    settlement_of is_final
refused_job-found = refl

refused_job-ended : is_terminal (job_after refused_run).state ≡ true
unfolding get update enqueue did_land plan transition finish record_digest give_back after_digest
    attempt_call submit resolve_by resolve_ambiguous drive_queued drive_state drive drive_found
    drive_one drive_all sort_jobs pending ingest_all drain_inbox prune prune_finished is_kept tick
    settlement_of is_final
refused_job-ended = refl

ended_is_final_example :
    Keeps
      (job_after refused_run).state
      (get 0 (live (live empty_runner refused_run) unseen_run).jobs)
ended_is_final_example =
    ended_is_final empty_runner refused_run unseen_run 0 (job_after refused_run) empty-IsNew
      refused_job-found refused_job-ended

unseen_job-unresolved : HasUnresolved 0 (live empty_runner unseen_run).jobs
unfolding get update enqueue did_land plan transition finish record_digest give_back after_digest
    attempt_call submit resolve_by resolve_ambiguous drive_queued drive_state drive drive_found
    drive_one drive_all sort_jobs pending ingest_all drain_inbox prune prune_finished is_kept tick
    settlement_of is_final
unseen_job-unresolved = (job_after unseen_run, refl, refl)

unresolved_waits_example : HasUnresolved 0 (live (live empty_runner unseen_run) refused_run).jobs
unresolved_waits_example =
    unresolved_waits empty_runner unseen_run refused_run 0 empty-IsNew unseen_job-unresolved

unresolved_halts_example :
    let s = live empty_runner unseen_run in
    let t = tick s (pass_at 500_000 (signs "F" (lost (other_failure "timeout")))) in
    (t.sent ≡ s.sent) × HasUnresolved 0 t.jobs
unresolved_halts_example =
    unresolved_halts empty_runner unseen_run
      (pass_at 500_000 (signs "F" (lost (other_failure "timeout")))) 0 empty-IsNew
      unseen_job-unresolved

-- A job with a key that has ended, and stays in its cooldown until 1,020.
abbrev cooling_job : Job
cooling_job = record (new_job 0 wlp_claim no_schedule 10) {
  state = filled;
  updated_at = 20;
  key = some "claim";
  cooldown_ms = some (finite (pos 1000));
}

abbrev cooled_schedule : Schedule
cooled_schedule = record {
  not_before = none;
  expires_at = some 5000;
  key = some "claim";
  cooldown_ms = some (finite (pos 1000));
  inbox_id = none;
}

blocking_job-none_example :
    (blocking_job "claim" (some (finite (pos 1000))) 500 (cooling_job ∷ []) ≡ none)
    ↔ All (Yields "claim" (some (finite (pos 1000))) 500) (cooling_job ∷ [])
blocking_job-none_example =
    blocking_job-none "claim" (some (finite (pos 1000))) 500 (cooling_job ∷ [])

cooled-accepted :
    enqueue 1 wlp_claim cooled_schedule 2000 (cooling_job ∷ [])
    ≡ accepts (new_job 1 wlp_claim cooled_schedule 2000)
unfolding enqueue blocking_job verdict_of
cooled-accepted = refl

enqueue-IsAcceptable_example :
    (◌≡◌ {A = Job}
      (new_job 1 wlp_claim cooled_schedule 2000)
      (new_job 1 wlp_claim cooled_schedule 2000))
    × IsAcceptable cooled_schedule 2000 (cooling_job ∷ [])
enqueue-IsAcceptable_example =
    enqueue-IsAcceptable 1 wlp_claim cooled_schedule 2000 (cooling_job ∷ [])
      (new_job 1 wlp_claim cooled_schedule 2000) cooled-accepted

prune_finished_lem_example :
    let (kept, dropped) = prune_finished 500 900 (cooling_job ∷ []) in
    ((i : ℕ) (j : Job)
      → get i (cooling_job ∷ []) ≡ some j
      → IsProtected 900 j
      → get i kept ≡ some j)
    × ((i : ℕ) (j : Job) → get i kept ≡ some j → get i (cooling_job ∷ []) ≡ some j)
    × ((i : ℕ) (j : Job)
        → get i (cooling_job ∷ []) ≡ some j
        → get i kept ≡ none
        → IsDroppable 500 900 j)
    × (length kept + dropped ≡ length (cooling_job ∷ []))
    × Rising 0 kept
prune_finished_lem_example = prune_finished_lem 500 900 (cooling_job ∷ []) (ground arith)

-- An order that was submitted, and a history that says that it was filled.
abbrev submitted_job : Job
submitted_job = record (new_job 0 wlp_claim no_schedule 10) {
  state = submitted;
  digest = some "D";
  submitted_at = some 20;
}

abbrev submitted_runner : Runner
submitted_runner = record empty_runner { jobs = submitted_job ∷ []; next_id = 1 }

abbrev filled_page : HistoryPage
filled_page = record {
  items =
      record { id = 77; tx_digest = some "D"; status = some filled_status; timestamp = some 30 }
      ∷ [];
  next_cursor = none;
  has_more = false;
}

abbrev told_filled : Answers
told_filled = record (pass_at 50 (refused_early (policy_failure "read-only"))) {
  history = λ cursor. some filled_page;
}

abbrev filled_job : Job
filled_job =
    found_job (get 0 (await_order_status submitted_runner told_filled submitted_job "D").jobs)

submitted_job-stored : get 0 submitted_runner.jobs ≡ some submitted_job
unfolding get
submitted_job-stored = refl

filled_job-stored :
    get 0 (await_order_status submitted_runner told_filled submitted_job "D").jobs ≡ some filled_job
unfolding get update await_order_status settle_search settle_by learn_orders outcome_of outcome_from
    to_outcome transition finish
filled_job-stored = refl

filled_job-filled : filled_job.state ≡ filled
unfolding get update await_order_status settle_search settle_by learn_orders outcome_of outcome_from
    to_outcome transition finish
filled_job-filled = refl

filled_needs_row_example : IsShown (λ cursor. some filled_page) "D" filled_status
filled_needs_row_example =
    filled_needs_row submitted_runner told_filled submitted_job filled_job "D" submitted_job-stored
      (λ e. cc) filled_job-stored filled_job-filled

-- A position of 10 with a leg of 20.
abbrev large_leg : Stops.OrderResponse
large_leg = record {
  id = 5;
  ticker = "BTC";
  reduce_only = true;
  size_in_asset = finite (pos 20);
  trigger_price = finite (pos 90);
}

abbrev small_position : Stops.Position
small_position = record {
  id = 3;
  ticker = "BTC";
  side = Side.long;
  size_in_asset = finite (pos 10);
  entry_price = finite (pos 100);
  linked_orders = large_leg ∷ [];
}

abbrev fit_intent : FitStopIntent
fit_intent = record { ticker = "BTC"; position_id = 3; order_id = 5; was_holding = finite (pos 20) }

abbrev fit_request : UpdateOrderRequest
fit_request = record {
  ticker = "BTC";
  order_id = 5;
  new_trigger_price = finite (pos 90);
  new_size = finite (pos 10);
}

large_leg-fitted :
    plan_fit (reads (small_position ∷ [])) fit_intent ≡ calls (update_order fit_request)
unfolding plan_fit plan_fit_at oversized_stops
large_leg-fitted = refl

plan_fit_writes_example : Fits (small_position ∷ []) fit_intent fit_request
plan_fit_writes_example =
    plan_fit_writes (small_position ∷ []) fit_intent fit_request large_leg-fitted
