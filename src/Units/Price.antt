-- ===== src/Units/Price.antt =====
-- src/units.ts, `acceptablePriceFor`: the bound that a slippage puts on a price. Its numbers are doubles,
-- counted in the smallest of them, of which `one` make 1.
use waterx_agent.Prelude.{
  rounded, ℕ, ◌+◌, ◌-◌, ◌*◌, ◌/◌, ◌^◌, ◌||◌, Option, none, some, leb, ◌==◌, if◌then◌else◌, Number,
  finite, pos, ◌≡◌, refl,
}
use waterx_agent.Verify.Text.{Text, codes}
use waterx_agent.Verify.Authorized.{digits}
use waterx_agent.Units.{fixed, text, to_raw_acceptable_price, assert_width, scale_to_integer}

abbrev pub one : ℕ
one = 2 ^ 1074

pub data OrderSide : Type 0 where
  buy sell : OrderSide

-- `1 + slippagePercent / 100` and `1 - slippagePercent / 100`, where `unit` stands for 1
abbrev pub factor : (unit : ℕ) → OrderSide → (slippage : ℕ) → ℕ
factor unit buy slippage = rounded (unit + rounded slippage 100) 1
factor unit sell slippage = rounded (unit - rounded slippage 100) 1

abbrev pub product : (unit price : ℕ) → OrderSide → (slippage : ℕ) → ℕ
product unit price side slippage = rounded (price * factor unit side slippage) unit

-- The whole number nearest to a / b, the larger of two.
unfoldable pub nearest : ℕ → ℕ → ℕ
nearest a b = (2 * a + b) / (2 * b)

-- `acceptablePriceFor`. An error is nothing. A product too large for `toFixed` to print in digits, or
-- for a double, is one that the width refuses.
unfoldable pub acceptable_price_for : Number → OrderSide → Number → Option Text
unfolding fixed nearest assert_width scale_to_integer
acceptable_price_for (finite (pos p)) side (finite (pos s)) =
    if p == 0 || leb (100 * one) s
    then none
    else to_raw_acceptable_price one (text (fixed (nearest (product one p side s * 10 ^ 9) one)))
acceptable_price_for _ side _ = none

-- A buy at 0.0002725 dollars with a slippage of 0.3 percent, each the double that these texts are. The
-- exact product would be nearest to 273318.
abbrev pub small_price : ℕ
small_price =
    55154614026242145526970878105038323123756325899141366505327332659566354383238826325163773694853642354094561042814383671367506253707042147624419288318194821656210519189125461713459312557911514820690584932989219650800898276597453928725248471281604623838180599424174714766550790346054493276926260701238777095227924621033472

abbrev pub small_slippage : ℕ
small_slippage =
    60720675992193183258632185437780307453235506442961718484599183730345885952522589595929667541669098189700156829200843309415519122823321072325231909802013771815862344289543353687241404511809398948594185287965647027405065343964835699108547477413961848478329135193367166323818640827240422760315324021597348068550358202025246720

buy_bound :
    acceptable_price_for (finite (pos small_price)) buy (finite (pos small_slippage))
    ≡ some (codes "273317")
unfolding acceptable_price_for digits rounded
buy_bound = refl
