-- ===== src/Prelude/Numbers.antt =====
-- The JavaScript number, where the program computes with it: NaN, the infinities, and the finite values
-- as integers that count the smallest double.
use Prim.Native.Nat.{ℕ, suc}
use mathlib.Core.Path.{◌≡◌}
use mathlib.Core.Bool.{Bool, true, false}
use native.Mathlib.Omega.{arith}
use waterx_agent.Prelude.Doubles.{rounded, IsDouble, rounded_le-double, double-rounded_le}
use waterx_agent.Prelude.Int.{ℤ, pos, negsuc, ◌+ℤ◌, neg_ℤ, ltb_ℤ, ◌≤ℤ◌, +ℤ_parts, neg_parts}

pub data Number : Type 0 where
  nan : Number
  infinite : Number
  neg_infinite : Number
  finite : ℤ → Number

abbrev pub zero_number : Number
zero_number = finite (pos 0)

-- `Number.isFinite`
abbrev pub is_finite : Number → Bool
is_finite (finite a) = true
is_finite _ = false

-- `a > b`, false whenever NaN is involved.
abbrev pub gtb_number : Number → Number → Bool
gtb_number (finite a) (finite b) = ltb_ℤ b a
gtb_number (finite a) neg_infinite = true
gtb_number infinite (finite b) = true
gtb_number infinite neg_infinite = true
gtb_number _ _ = false

-- The double nearest to an integer.
unfoldable pub rounded_ℤ : ℤ → ℤ
unfolding rounded neg_ℤ
rounded_ℤ (pos n) = pos (rounded n 1)
rounded_ℤ (negsuc n) = neg_ℤ (pos (rounded (suc n) 1))

-- The sum, as the double nearest to the exact one. One beyond the largest double stays finite.
infixl 65 ◌+ᴺ◌
unfoldable pub ◌+ᴺ◌ : Number → Number → Number
unfolding rounded_ℤ
finite a +ᴺ finite b = finite (rounded_ℤ (a +ℤ b))
finite a +ᴺ infinite = infinite
finite a +ᴺ neg_infinite = neg_infinite
infinite +ᴺ finite b = infinite
infinite +ᴺ infinite = infinite
neg_infinite +ᴺ finite b = neg_infinite
neg_infinite +ᴺ neg_infinite = neg_infinite
_ +ᴺ _ = nan

unfoldable pub neg_number : Number → Number
neg_number (finite a) = finite (neg_ℤ a)
neg_number infinite = neg_infinite
neg_number neg_infinite = infinite
neg_number nan = nan

-- A finite number of zero or more: what a ceiling can bound.
abbrev pub IsAmount : Number → Type 0
IsAmount (finite a) = pos 0 ≤ℤ a
IsAmount _ = ⊥

-- The order as a proposition. Nothing is below or above NaN.
infix 50 ◌≤ᴺ◌
abbrev pub ◌≤ᴺ◌ : Number → Number → Type 0
finite a ≤ᴺ finite b = a ≤ℤ b
neg_infinite ≤ᴺ finite b = Unit
neg_infinite ≤ᴺ neg_infinite = Unit
neg_infinite ≤ᴺ infinite = Unit
finite a ≤ᴺ infinite = Unit
infinite ≤ᴺ infinite = Unit
_ ≤ᴺ _ = ⊥

-- Two finite numbers in order.
abbrev pub IsAtMost : Number → Number → Type 0
IsAtMost (finite a) (finite b) = a ≤ℤ b
IsAtMost _ _ = ⊥

-- A sum that is not above a ceiling is below it.
pub add-IsAtMost :
    (c amount ceiling : Number)
    → IsAtMost c ceiling
    → IsAmount amount
    → gtb_number (c +ᴺ amount) ceiling ≡ false
    → IsAtMost (c +ᴺ amount) ceiling
unfolding ◌+ᴺ◌
add-IsAtMost nan amount ceiling b n h = elim b [ ]
add-IsAtMost infinite amount ceiling b n h = elim b [ ]
add-IsAtMost neg_infinite amount ceiling b n h = elim b [ ]
add-IsAtMost (finite c) nan ceiling b n h = elim n [ ]
add-IsAtMost (finite c) infinite ceiling b n h = elim n [ ]
add-IsAtMost (finite c) neg_infinite ceiling b n h = elim n [ ]
add-IsAtMost (finite c) (finite a) nan b n h = elim b [ ]
add-IsAtMost (finite c) (finite a) infinite b n h = elim b [ ]
add-IsAtMost (finite c) (finite a) neg_infinite b n h = elim b [ ]
add-IsAtMost (finite c) (finite a) (finite m) b n h = ground (arith, rounded_ℤ (c +ℤ a))

abbrev pub size_of : ℤ → ℕ
size_of (pos n) = n
size_of (negsuc n) = suc n

-- A number that there is: NaN, an infinity or a double.
abbrev pub IsJsNumber : Number → Type 0
IsJsNumber (finite a) = IsDouble (size_of a)
IsJsNumber _ = Unit

rounded_ℤ_le : (x m : ℤ) → IsDouble (size_of m) → x ≤ℤ m → rounded_ℤ x ≤ℤ m
unfolding rounded_ℤ
rounded_ℤ_le (pos x) (pos m) d h =
    omega (arith, rounded_le-double m x 1 d (omega arith) (omega (arith, h)))
rounded_ℤ_le (pos x) (negsuc m) d h = absurd (omega (arith, h))
rounded_ℤ_le (negsuc x) (pos m) d h = omega (arith, neg_parts (pos (rounded (suc x) 1)))
rounded_ℤ_le (negsuc x) (negsuc m) d h = omega (
  arith,
  neg_parts (pos (rounded (suc x) 1)),
  double-rounded_le (suc m) (suc x) 1 d (omega arith) (omega (arith, h)),
)

-- Giving an amount back leaves a sum below its ceiling.
pub sub-IsAtMost :
    (c amount ceiling : Number)
    → IsJsNumber ceiling
    → IsAtMost c ceiling
    → IsAmount amount
    → IsAtMost (c +ᴺ neg_number amount) ceiling
unfolding ◌+ᴺ◌ neg_number
sub-IsAtMost nan amount ceiling d b n = elim b [ ]
sub-IsAtMost infinite amount ceiling d b n = elim b [ ]
sub-IsAtMost neg_infinite amount ceiling d b n = elim b [ ]
sub-IsAtMost (finite c) nan ceiling d b n = elim n [ ]
sub-IsAtMost (finite c) infinite ceiling d b n = elim n [ ]
sub-IsAtMost (finite c) neg_infinite ceiling d b n = elim n [ ]
sub-IsAtMost (finite c) (finite a) nan d b n = elim b [ ]
sub-IsAtMost (finite c) (finite a) infinite d b n = elim b [ ]
sub-IsAtMost (finite c) (finite a) neg_infinite d b n = elim b [ ]
sub-IsAtMost (finite c) (finite a) (finite m) d b n =
    rounded_ℤ_le (c +ℤ neg_ℤ a) m d (omega (arith, +ℤ_parts c (neg_ℤ a), neg_parts a))

pub amount-finite : (n : Number) → IsAmount n → is_finite n ≡ true
amount-finite n a = ground arith

pub neg_number-finite : (n : Number) → IsAmount n → is_finite (neg_number n) ≡ true
unfolding neg_number
neg_number-finite n a = ground arith
