-- ===== src/Units/Examples.antt =====
-- Amounts on which the conversions run.
use waterx_agent.Prelude.{
  IsDouble, refl, ◌*◌, ◌^◌, ℕ, none, some, ◌≡◌, ltb, if◌then◌else◌, finite, pos, arith,
}
use waterx_agent.Units.{numeral, u64_max}
use waterx_agent.Units.Price.{one, buy, small_price, small_slippage, acceptable_price_for}
use waterx_agent.Units.Accurate.{IsAccurate, IsBeyond}
use waterx_agent.Units.Decimal.{value}
use waterx_agent.Units.Printed.{IsNearest, acceptable_price_for-IsNearest}

small_price-IsDouble : IsDouble small_price
small_price-IsDouble = (5026737760085853, 1010, omega arith, refl)

acceptable_price_for-IsNearest_example :
    (price : ℕ) × (n : ℕ) × IsAccurate small_price buy small_slippage price
    × IsBeyond small_price buy price
    × IsNearest (price * 10 ^ 9) one n
    × (acceptable_price_for (finite (pos small_price)) buy (finite (pos small_slippage))
        ≡ (if ltb u64_max n then none else some (numeral n)))
    × (value (numeral n) ≡ n)
acceptable_price_for-IsNearest_example =
    acceptable_price_for-IsNearest small_price small_slippage buy small_price-IsDouble (omega arith)
      (omega arith)
