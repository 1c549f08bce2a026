-- ===== src/Runner/Stops.antt =====
-- src/agent/stops.ts: which protective orders are larger than the position they protect.
use waterx_agent.Prelude.{
  ℕ, String, Bool, false, not, ◌&&◌, List, [], map, filter, Number, zero_number, gtb_number,
  if◌then◌else◌,
}
use waterx_agent.Runner.Types.{Side, long, short}

-- The fields of `OrderResponse` that are read here and in the runner.
pub record OrderResponse : Type 0 where
  pub id : ℕ
  pub ticker : String
  pub reduce_only : Bool
  pub size_in_asset : Number
  pub trigger_price : Number

-- The fields of `Position` that are read here and in the runner.
pub record Position : Type 0 where
  pub id : ℕ
  pub ticker : String
  pub side : Side
  pub size_in_asset : Number
  pub entry_price : Number
  pub linked_orders : List OrderResponse

pub data StopKind : Type 0 where
  stop_loss take_profit protective : StopKind

pub record OversizedStop : Type 0 where
  pub order_id : ℕ
  pub ticker : String
  pub kind : StopKind
  pub size : Number
  pub should_be : Number
  pub trigger_price : Number

-- `a === b` on numbers that are not NaN: neither is above the other. NaN equals nothing.
abbrev same_number : Number → Number → Bool
same_number Number.nan b = false
same_number a Number.nan = false
same_number a b = not (gtb_number a b) && not (gtb_number b a)

kind_by_side : Side → Bool → StopKind
kind_by_side long above = if above then take_profit else stop_loss
kind_by_side short above = if above then stop_loss else take_profit

unfoldable pub kind_of : OrderResponse → Position → StopKind
unfolding kind_by_side
kind_of order position =
    if not (gtb_number position.entry_price zero_number)
    then protective
    else if same_number order.trigger_price position.entry_price
    then protective
    else kind_by_side position.side (gtb_number order.trigger_price position.entry_price)

abbrev pub outgrows : Number → OrderResponse → Bool
outgrows holds order = order.reduce_only && gtb_number order.size_in_asset holds

abbrev pub oversized_stop : Position → OrderResponse → OversizedStop
oversized_stop position order = record {
  order_id = order.id;
  ticker = order.ticker;
  kind = kind_of order position;
  size = order.size_in_asset;
  should_be = position.size_in_asset;
  trigger_price = order.trigger_price;
}

unfoldable pub oversized_stops : Position → List OversizedStop
oversized_stops position =
    if not (gtb_number position.size_in_asset zero_number)
    then []
    else map (oversized_stop position)
        (filter (outgrows position.size_in_asset) position.linked_orders)
