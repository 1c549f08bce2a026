-- ===== src/Runner/Outcome.antt =====
-- src/runner/runner.ts, `awaitOutcome` and what it calls: how a submitted job ends, and the
-- follow-ups that a reduce leaves in the inbox.
pub mod Filled
use waterx_agent.Prelude.{
  ℕ, suc, ◌+◌, ◌-◌, ◌*◌, String, Bool, true, false, not, ◌&&◌, List, [], ◌∷◌, ◌++◌, Option, none,
  some, ltb, if◌then◌else◌, filter, is_some, get_or_else, map, decimal, text_join,
}
use waterx_agent.Runner.Types.{
  Intent, close, cancel, reduce, fit_stop, ReduceIntent, Job, filled, cancelled, unresolved,
  Settlement, order_status, gone, onchain, settlement_of, submitted_without_digest,
  request_on_chain, named_is_gone, order_filled, order_ended, no_outcome, open_status,
  filled_status, cancelled_status, invalidated_status, OrderOutcomeStatus,
}
use waterx_agent.Runner.Store.{update}
use waterx_agent.Runner.Stops.{Position, OrderResponse}
use waterx_agent.Runner.Reconcile.{
  OrderOutcome, Search, settled, no_answer, gave_up_paging, read_failed, outcome_of, position_gone,
  order_gone,
}
use waterx_agent.Runner.Request.{position_of}
use waterx_agent.Runner.State.{Runner, InboxEntry, Answers, finish}

abbrev pub fit_stop_grace_ms : ℕ
fit_stop_grace_ms = 30_000

abbrev pub fit_stop_window_ms : ℕ
fit_stop_window_ms = 15 * 60_000

-- `expireIfPastDeadline`. `waited > limit` is written without the subtraction.
unfoldable pub expire_if_past_deadline : Runner → ℕ → Job → Runner
expire_if_past_deadline r now job =
    let since = get_or_else job.submitted_at job.updated_at in
    if ltb (r.limits.fill_deadline_ms + since) now
    then finish r job.id unresolved (no_outcome (now - since)) now
    else r

abbrev pub finish_if_gone : Runner → ℕ → Job → Bool → Runner
finish_if_gone r now job is_gone =
    if is_gone then finish r job.id filled named_is_gone now else expire_if_past_deadline r now job

-- The read that the intent asks for. One that fails throws out of the job, which stays as it is.
unfoldable pub disappearance_of : Runner → Answers → Job → Intent → Runner
unfolding expire_if_past_deadline
disappearance_of r a job (close i) = elim a.positions [
  | none ↦ r
  | some positions ↦ finish_if_gone r a.now job (position_gone positions i.ticker i.position_id)
]
disappearance_of r a job (cancel i) = elim a.orders [
  | none ↦ r
  | some orders ↦ finish_if_gone r a.now job (order_gone orders i.ticker i.order_id)
]
disappearance_of r a job _ = finish_if_gone r a.now job true

-- `awaitDisappearance`
unfoldable pub await_disappearance : Runner → Answers → Job → Runner
unfolding disappearance_of
await_disappearance r a job = disappearance_of r a job job.intent

abbrev is_empty : List ℕ → Bool
is_empty [] = true
is_empty _ = false

abbrev pub learns_orders : List ℕ → ℕ → Job → Job
learns_orders ids now j = record j { order_ids = some ids; updated_at = now }

-- `outcome.orderIds.length > 0 && job.orderIds === undefined`
abbrev pub learns : Job → OrderOutcome → Bool
learns job outcome = not (is_empty outcome.order_ids) && not (is_some job.order_ids)

-- The write of the order ids, the first time that there are any.
unfoldable pub learn_orders : Runner → ℕ → Job → OrderOutcome → Runner
learn_orders r now job outcome =
    if learns job outcome
    then record r { jobs = update job.id (learns_orders outcome.order_ids now) r.jobs }
    else r

abbrev first_or_zero : List ℕ → ℕ
first_or_zero [] = 0
first_or_zero (n ∷ ns) = n

-- The tests of `awaitOrderStatus` on the status.
unfoldable pub settle_by : Runner → ℕ → Job → List ℕ → OrderOutcomeStatus → Runner
unfolding expire_if_past_deadline
settle_by r now job ids filled_status =
    finish r job.id filled (order_filled (first_or_zero ids)) now
settle_by r now job ids cancelled_status =
    finish r job.id cancelled (order_ended cancelled_status) now
settle_by r now job ids invalidated_status =
    finish r job.id cancelled (order_ended invalidated_status) now
settle_by r now job ids open_status = expire_if_past_deadline r now job

-- `job` is one object with the store's: after the write of the order ids its `updatedAt` is now.
abbrev pub seen_after : ℕ → Job → OrderOutcome → Job
seen_after now job outcome =
    if learns job outcome then learns_orders outcome.order_ids now job else job

-- A search that throws leaves the job as it is.
unfoldable pub settle_search : Runner → ℕ → Job → Search → Runner
unfolding expire_if_past_deadline learn_orders settle_by
settle_search r now job (settled outcome) =
    settle_by (learn_orders r now job outcome) now (seen_after now job outcome) outcome.order_ids
      outcome.status
settle_search r now job no_answer = expire_if_past_deadline r now job
settle_search r now job gave_up_paging = r
settle_search r now job read_failed = r

-- `awaitOrderStatus`
unfoldable pub await_order_status : Runner → Answers → Job → String → Runner
unfolding settle_search
await_order_status r a job digest =
    settle_search r a.now job
      (outcome_of a.history digest (get_or_else job.submitted_at job.created_at))

-- The key of a follow-up: the leg, and the digest of the reduce (or the instant, if it has none).
unfoldable pub fit_key : Position → OrderResponse → Option String → ℕ → String
fit_key position leg digest now = text_join (
    "fit-stop:"
    ∷ position.ticker
    ∷ ":"
    ∷ decimal position.id
    ∷ ":"
    ∷ decimal leg.id
    ∷ ":"
    ∷ get_or_else digest (decimal now)
    ∷ [])

-- What a follow-up of a reduce looks like.
unfoldable pub fit_entry : Position → ℕ → Option String → OrderResponse → InboxEntry
unfolding fit_key
fit_entry position now digest leg = record {
  intent = fit_stop (record {
    ticker = position.ticker;
    position_id = position.id;
    order_id = leg.id;
    was_holding = position.size_in_asset;
  });
  not_before = some (now + fit_stop_grace_ms);
  expires_at = some (now + fit_stop_window_ms);
  key = some (fit_key position leg digest now);
  cooldown_ms = none;
}

-- `Inbox.submit`, once for each entry.
unfoldable pub leave : Runner → List InboxEntry → Runner
leave r [] = r
leave r (e ∷ es) =
    leave
      (record r {
        inbox = r.inbox ++ record { id = r.next_id; entry = e } ∷ [];
        next_id = suc r.next_id;
      })
      es

abbrev is_protective_leg : OrderResponse → Bool
is_protective_leg leg = leg.reduce_only

-- The body of `queueStopFits` once the position is read; no position and no leg queue nothing.
abbrev pub queue_fits_of : Runner → ℕ → Option String → Option Position → Runner
queue_fits_of r now digest none = r
queue_fits_of r now digest (some position) =
    leave r (map (fit_entry position now digest) (filter is_protective_leg position.linked_orders))

-- `queueStopFits`. A read that fails is caught, and queues nothing.
unfoldable pub queue_stop_fits : Runner → Answers → Job → ReduceIntent → Runner
unfolding leave fit_entry
queue_stop_fits r a job intent =
    if not (r.fit_stops_enabled && r.has_inbox) then r else elim a.positions [
      | none ↦ r
      | some positions ↦
          queue_fits_of r a.now job.digest (position_of positions intent.ticker intent.position_id)
    ]

abbrev pub follow_up : Runner → Answers → Job → Intent → Runner
follow_up r a job (reduce i) = queue_stop_fits r a job i
follow_up r a job _ = r

-- The `switch` of `awaitOutcome`.
unfoldable pub outcome_by : Runner → Answers → Job → String → Settlement → Runner
unfolding await_disappearance await_order_status queue_stop_fits
outcome_by r a job digest onchain =
    follow_up (finish r job.id filled request_on_chain a.now) a job job.intent
outcome_by r a job digest gone = await_disappearance r a job
outcome_by r a job digest order_status = await_order_status r a job digest

-- `awaitOutcome`
unfoldable pub await_outcome : Runner → Answers → Job → Runner
unfolding outcome_by
await_outcome r a job = elim job.digest [
  | none ↦ finish r job.id unresolved submitted_without_digest a.now
  | some digest ↦ outcome_by r a job digest (settlement_of job.intent)
]
