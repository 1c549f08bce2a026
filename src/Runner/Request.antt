-- ===== src/Runner/Request.antt =====
-- src/runner/runner.ts, `execute` and `fitStop`: the call of the agent that an intent becomes.
pub mod Fitting
use waterx_agent.Prelude.{
  ℕ, String, Bool, true, false, List, Option, none, some, Number, find, ◌==◌, [], ◌∷◌, decimal,
  text_join,
}
use waterx_agent.Runner.Types.{
  Side, long, short, Quantity, Intent, open_order, limit, close, cancel, reduce, increase,
  add_margin, remove_margin, fit_stop, wlp_mint, wlp_burn, wlp_cancel_burn, wlp_claim, CloseIntent,
  CancelIntent, ReduceIntent, IncreaseIntent, MarginIntent, FitStopIntent, Failure, other_failure,
}
use waterx_agent.Runner.Stops.{Position, OversizedStop, oversized_stops}
use waterx_agent.Runner.Reconcile.{is_position}

pub record OpenRequest : Type 0 where
  pub ticker : String
  pub is_long : Bool
  pub collateral : Quantity
  pub leverage : Option Number
  pub size : Option Quantity
  pub slippage_percent : Option Number
  pub take_profit_price : Option Quantity
  pub stop_loss_price : Option Quantity

pub record LimitRequest : Type 0 where
  pub ticker : String
  pub is_long : Bool
  pub collateral : Quantity
  pub trigger_price : Quantity
  pub leverage : Option Number
  pub size : Option Quantity
  pub is_stop_order : Option Bool
  pub reduce_only : Option Bool
  pub linked_position_id : Option ℕ
  pub take_profit_price : Option Quantity
  pub stop_loss_price : Option Quantity

pub record UpdateOrderRequest : Type 0 where
  pub ticker : String
  pub order_id : ℕ
  pub new_trigger_price : Number
  pub new_size : Number

-- The methods of `WaterXAgent` that the runner calls, with their arguments.
pub data AgentCall : Type 0 where
  open_position : OpenRequest → AgentCall
  place_limit_order : LimitRequest → AgentCall
  close_position : CloseIntent → AgentCall
  cancel_order : CancelIntent → AgentCall
  reduce_position : ReduceIntent → AgentCall
  increase_position : IncreaseIntent → AgentCall
  add_to_margin take_from_margin : MarginIntent → AgentCall
  update_order : UpdateOrderRequest → AgentCall
  mint_wlp burn_wlp : Quantity → AgentCall
  cancel_wlp_burn : Quantity → AgentCall
  claim_wlp_rewards : AgentCall

-- A call, or the error that is thrown before one is made.
pub data Planned : Type 0 where
  calls : AgentCall → Planned
  throws : Failure → Planned

abbrev pub is_long : Side → Bool
is_long long = true
is_long short = false

-- `position`: one position by ticker and id. The read is the argument; `none` is a read that fails.
abbrev pub position_of : List Position → String → ℕ → Option Position
position_of positions ticker id = find (is_position ticker id) positions

abbrev pub protects : ℕ → OversizedStop → Bool
protects order_id stop = stop.order_id == order_id

-- A read of the account's positions, as it may fail.
pub data PositionsRead : Type 0 where
  reads : List Position → PositionsRead
  read_throws : Failure → PositionsRead

abbrev pub gone_message : FitStopIntent → String
gone_message intent = text_join (
    "position "
    ∷ intent.ticker
    ∷ "#"
    ∷ decimal intent.position_id
    ∷ " is gone, so its legs need no resizing"
    ∷ [])

abbrev pub fits_message : FitStopIntent → String
fits_message intent =
    text_join (
      intent.ticker ∷ "#" ∷ decimal intent.order_id ∷ " already fits the position it protects" ∷ [])

-- What `fitStop` does with the position that it read.
unfoldable pub plan_fit_at : FitStopIntent → Option Position → Planned
plan_fit_at intent none = throws (other_failure (gone_message intent))
plan_fit_at intent (some position) =
    elim (find (protects intent.order_id) (oversized_stops position)) [
      | none ↦ throws (other_failure (fits_message intent))
      | some stop ↦ calls (
          update_order (record {
            ticker = stop.ticker;
            order_id = stop.order_id;
            new_trigger_price = stop.trigger_price;
            new_size = stop.should_be;
          }))
    ]

-- `fitStop`
unfoldable pub plan_fit : PositionsRead → FitStopIntent → Planned
unfolding plan_fit_at
plan_fit (read_throws failure) intent = throws failure
plan_fit (reads positions) intent =
    plan_fit_at intent (position_of positions intent.ticker intent.position_id)

-- `execute`, for what a read of the positions at this instant answers.
unfoldable pub plan : PositionsRead → Intent → Planned
unfolding plan_fit
plan positions (open_order i) = calls (
    open_position (record {
      ticker = i.ticker;
      is_long = is_long i.side;
      collateral = i.collateral;
      leverage = i.leverage;
      size = i.size;
      slippage_percent = i.slippage_percent;
      take_profit_price = i.take_profit_price;
      stop_loss_price = i.stop_loss_price;
    }))
plan positions (limit i) = calls (
    place_limit_order (record {
      ticker = i.ticker;
      is_long = is_long i.side;
      collateral = i.collateral;
      trigger_price = i.trigger_price;
      leverage = i.leverage;
      size = i.size;
      is_stop_order = i.is_stop_order;
      reduce_only = i.reduce_only;
      linked_position_id = i.linked_position_id;
      take_profit_price = i.take_profit_price;
      stop_loss_price = i.stop_loss_price;
    }))
plan positions (close i) = calls (close_position i)
plan positions (cancel i) = calls (cancel_order i)
plan positions (reduce i) = calls (reduce_position i)
plan positions (increase i) = calls (increase_position i)
plan positions (add_margin i) = calls (add_to_margin i)
plan positions (remove_margin i) = calls (take_from_margin i)
plan positions (fit_stop i) = plan_fit positions i
plan positions (wlp_mint amount) = calls (mint_wlp amount)
plan positions (wlp_burn amount) = calls (burn_wlp amount)
plan positions (wlp_cancel_burn id) = calls (cancel_wlp_burn id)
plan positions wlp_claim = calls claim_wlp_rewards
