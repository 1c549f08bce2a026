-- ===== src/Units/Accurate.antt =====
-- The product that `acceptablePriceFor` computes in doubles, against the exact one.
use native.Mathlib.Nat.{mul-le-mul_left}
use waterx_agent.Prelude.{
  IsDouble, rounded, rounded_close, rounded_le-double, double-rounded_le, ℕ, ◌+◌, ◌-◌, ◌*◌, ◌^◌,
  ◌≤◌, ◌<◌, refl, arith,
}
use waterx_agent.Units.Price.{one, OrderSide, buy, sell, factor, product}

-- A hundred times the exact factor.
abbrev pub percent : (o : ℕ) → OrderSide → ℕ → ℕ
percent o buy s = 100 * o + s
percent o sell s = 100 * o - s

-- 2^52 times the distance of two numbers is no more than that.
abbrev pub IsWithin : (reach a b : ℕ) → Type 0
IsWithin reach a b = (2 ^ 52 * a ≤ 2 ^ 52 * b + reach) × (2 ^ 52 * b ≤ 2 ^ 52 * a + reach)

-- The price times the exact factor, to nine parts of the price in 2^52, and one smallest double.
abbrev pub IsAccurate : (p : ℕ) → OrderSide → (s price : ℕ) → Type 0
IsAccurate p side s price =
    IsWithin (100 * one * (9 * p + 2 ^ 52)) (price * (100 * one)) (p * percent one side s)

module _ (o s : ℕ) (large : 2 ^ 52 ≤ o) (double : IsDouble o) (h : s < 100 * o) where
  part_of : (100 * rounded s 100 ≤ 100 * o) × IsWithin (200 * o) (100 * rounded s 100) s
  part_of =
      let (above, below) = rounded_close s 100 (omega arith) in
      let most = rounded_le-double o s 100 double (omega arith) (omega (arith, h)) in
      (omega (arith, most), (omega (arith, above, large, h), omega (arith, below, large, h)))

  factor_by :
      (g : ℕ) → g ≤ 2 * o → (rounded g 1 ≤ 3 * o) × IsWithin (300 * o) (100 * rounded g 1) (100 * g)
  factor_by g most =
      let (above, below) = rounded_close g 1 (omega arith) in
      (
        omega (arith, above, large, most),
        (omega (arith, above, large, most), omega (arith, below, large, most)),
      )

  product_by :
      (p f c : ℕ)
      → f ≤ 3 * o
      → IsWithin (500 * o) (100 * f) c
      → IsWithin (100 * o * (9 * p + 2 ^ 52)) (rounded (p * f) o * (100 * o)) (p * c)
  product_by p f c most (high, low) =
      let (above, below) = rounded_close (p * f) o (omega (arith, large)) in
      let up = mul-le-mul_left p high in
      let down = mul-le-mul_left p low in
      let bound = mul-le-mul_left p most in
      (omega (arith, above, up, bound), omega (arith, below, down, bound))

  accurate :
      (p : ℕ) (side : OrderSide)
      → IsWithin
          (100 * o * (9 * p + 2 ^ 52))
          (rounded (p * factor o side s) o * (100 * o))
          (p * percent o side s)
  accurate p buy =
      let (part, (part_up, part_down)) = part_of in
      let (most, (up, down)) = factor_by (o + rounded s 100) (omega (arith, part)) in
      product_by p (factor o buy s) (100 * o + s) most
        (omega (arith, up, part_up), omega (arith, down, part_down))
  accurate p sell =
      let (part, (part_up, part_down)) = part_of in
      let (most, (up, down)) = factor_by (o - rounded s 100) (omega arith) in
      product_by p (factor o sell s) (100 * o - s) most
        (omega (arith, up, part, part_down, h), omega (arith, down, part, part_up, h))

one-IsDouble : IsDouble one
one-IsDouble = (1, 1074, omega arith, refl)

pub product-IsAccurate :
    (p s : ℕ) (side : OrderSide) → s < 100 * one → IsAccurate p side s (product one p side s)
product-IsAccurate p s side h = accurate one s (omega arith) one-IsDouble h p side

-- The side of the price on which a bound lies.
abbrev pub IsBeyond : (p : ℕ) → OrderSide → (price : ℕ) → Type 0
IsBeyond p buy price = p ≤ price
IsBeyond p sell price = price ≤ p

IsBeyond-by :
    (o p s : ℕ) (side : OrderSide)
    → IsDouble o
    → 0 < o
    → IsDouble p
    → IsBeyond p side (product o p side s)
IsBeyond-by o p s buy double h is =
    let more = double-rounded_le o (o + rounded s 100) 1 double (omega arith) (omega arith) in
    double-rounded_le p (p * factor o buy s) o is h (mul-le-mul_left p more)
IsBeyond-by o p s sell double h is =
    let less = rounded_le-double o (o - rounded s 100) 1 double (omega arith) (omega arith) in
    rounded_le-double p (p * factor o sell s) o is h (mul-le-mul_left p less)

pub product-IsBeyond :
    (p s : ℕ) (side : OrderSide) → IsDouble p → IsBeyond p side (product one p side s)
product-IsBeyond p s side is = IsBeyond-by one p s side one-IsDouble (omega arith) is
