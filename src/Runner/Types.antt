-- ===== src/Runner/Types.antt =====
-- src/runner/types.ts: intents, jobs, their states and limits. Instants are milliseconds since the
-- epoch; ids are numbers, whether the wire spells them as numerals or the program draws them.
use waterx_agent.Prelude.{ℕ, ◌*◌, String, Bool, true, false, Option, List, Number}

-- `"long" | "short"`
pub data Side : Type 0 where
  long short : Side

-- `string | number`
pub data Quantity : Type 0 where
  text : String → Quantity
  num : Number → Quantity

pub record OpenIntent : Type 0 where
  pub ticker : String
  pub side : Side
  pub collateral : Quantity
  pub leverage : Option Number
  pub size : Option Quantity
  pub slippage_percent : Option Number
  pub take_profit_price : Option Quantity
  pub stop_loss_price : Option Quantity

pub record LimitIntent : Type 0 where
  pub ticker : String
  pub side : Side
  pub collateral : Quantity
  pub leverage : Option Number
  pub size : Option Quantity
  pub trigger_price : Quantity
  pub is_stop_order : Option Bool
  pub reduce_only : Option Bool
  pub linked_position_id : Option ℕ
  pub take_profit_price : Option Quantity
  pub stop_loss_price : Option Quantity

pub record CloseIntent : Type 0 where
  pub ticker : String
  pub position_id : ℕ
  pub slippage_percent : Option Number

pub record CancelIntent : Type 0 where
  pub ticker : String
  pub order_id : ℕ

pub record ReduceIntent : Type 0 where
  pub ticker : String
  pub position_id : ℕ
  pub size : Option Quantity
  pub percent : Option Number
  pub slippage_percent : Option Number

pub record IncreaseIntent : Type 0 where
  pub ticker : String
  pub position_id : ℕ
  pub collateral : Quantity
  pub leverage : Option Number
  pub size : Option Quantity
  pub slippage_percent : Option Number

pub record MarginIntent : Type 0 where
  pub ticker : String
  pub position_id : ℕ
  pub amount : Quantity

pub record FitStopIntent : Type 0 where
  pub ticker : String
  pub position_id : ℕ
  pub order_id : ℕ
  pub was_holding : Number

-- The union `Intent`, a constructor for each `kind`.
pub data Intent : Type 0 where
  open_order : OpenIntent → Intent
  limit : LimitIntent → Intent
  close : CloseIntent → Intent
  cancel : CancelIntent → Intent
  reduce : ReduceIntent → Intent
  increase : IncreaseIntent → Intent
  add_margin remove_margin : MarginIntent → Intent
  fit_stop : FitStopIntent → Intent
  wlp_mint wlp_burn : Quantity → Intent
  wlp_cancel_burn : Quantity → Intent
  wlp_claim : Intent

pub data Settlement : Type 0 where
  order_status gone onchain : Settlement

unfoldable pub settlement_of : Intent → Settlement
settlement_of (open_order i) = order_status
settlement_of (limit i) = order_status
settlement_of (close i) = gone
settlement_of (cancel i) = gone
settlement_of _ = onchain

pub data JobState : Type 0 where
  queued submitting submitted filled cancelled failed unresolved expired : JobState

-- `TERMINAL_STATES.has`
abbrev pub is_terminal : JobState → Bool
is_terminal queued = false
is_terminal submitting = false
is_terminal submitted = false
is_terminal _ = true

-- What a `catch` can hold, by what the runner asks of it.
pub data Failure : Type 0 where
  policy_failure : String → Failure
  api_failure : (code status : ℕ) → String → Failure
  other_failure : String → Failure

pub data OrderOutcomeStatus : Type 0 where
  open_status filled_status cancelled_status invalidated_status : OrderOutcomeStatus

-- The notes of a job's events, as data in place of their sentences.
pub data Note : Type 0 where
  accepted : Note
  attempt : ℕ → Note
  digest_noted : String → Note
  on_chain : String → Note
  not_sent : Failure → Note
  refused : Failure → Note
  gave_up : ℕ → Note
  window_closed : Note
  no_digest : Note
  chain_confirms : String → Note
  execution_failed : String → String → Note
  never_seen : String → Note
  submitted_without_digest : Note
  request_on_chain : Note
  named_is_gone : Note
  order_filled : ℕ → Note
  order_ended : OrderOutcomeStatus → Note
  no_outcome : ℕ → Note
  position_closed : Note
  already_fits : Note

pub record JobEvent : Type 0 where
  pub at : ℕ
  pub state : JobState
  pub note : Note

pub record Job : Type 0 where
  pub id : ℕ
  pub state : JobState
  pub intent : Intent
  pub created_at : ℕ
  pub updated_at : ℕ
  pub not_before : Option ℕ
  pub expires_at : Option ℕ
  pub key : Option String
  pub cooldown_ms : Option Number
  pub inbox_id : Option ℕ
  pub digest : Option String
  pub digest_at : Option ℕ
  pub submitted_at : Option ℕ
  pub order_ids : Option (List ℕ)
  pub attempts : ℕ
  pub error : Option Note
  pub events : List JobEvent

pub record RunnerLimits : Type 0 where
  pub max_attempts : ℕ
  pub fill_deadline_ms : ℕ
  pub digest_settle_ms : ℕ
  pub retention_ms : ℕ

abbrev pub default_limits : RunnerLimits
default_limits = record {
  max_attempts = 3;
  fill_deadline_ms = 30 * 60_000;
  digest_settle_ms = 300_000;
  retention_ms = 30 * 24 * 3_600_000;
}
