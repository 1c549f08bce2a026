-- ===== src/Units/Printed.antt =====
-- The bound on a price is the product rounded to the last place of the chain, or the width refuses it.
use waterx_agent.Prelude.{
  IsDouble, ℕ, zero, suc, ◌+◌, ◌*◌, ◌/◌, ◌%◌, ◌^◌, ◌≤◌, ◌<◌, Bool, true, false, not, ◌&&◌, ◌||◌, [],
  ◌∷◌, ◌++◌, none, some, leb, ltb, ◌==◌, if◌then◌else◌, length, ◌≡◌, refl, sym, ap, ◌∙◌, arith,
  Bool-cases, inl, inr, finite, pos, length-append,
}
use waterx_agent.Verify.Text.{Text}
use waterx_agent.Verify.Authorized.{is_blank, skip_blanks, drop_blanks, keep_unless_blank}
use waterx_agent.Units.{
  is_digit, all_digits, numeral, numeral_from, places, fixed, assert_width, text, text_of,
  scale_to_integer, scale_found, u64_max,
}
use waterx_agent.Units.Price.{one, OrderSide, product, nearest, acceptable_price_for}
use waterx_agent.Units.Accurate.{IsAccurate, IsBeyond, product-IsAccurate, product-IsBeyond}
use waterx_agent.Units.Decimal.{value, read_on, read_on-append, all_digits-append, power_suc}
use waterx_agent.Units.Exact.{point, IsExactly, scale_text-IsExactly}

-- A digit behind a text of digits.
digit-IsDigit : (d : ℕ) → d < 10 → all_digits ((d + b'0') ∷ []) ≡ true
unfolding all_digits
digit-IsDigit d h = ground (arith, h)

value-snoc : (s : Text) (d : ℕ) → value (s ++ (d + b'0') ∷ []) ≡ value s * 10 + d
unfolding value read_on
value-snoc s d = read_on-append 0 s _ ∙ omega arith

numeral_from-value : (r n : ℕ) → n < r → value (numeral_from r n) ≡ n
unfolding numeral_from value read_on
numeral_from-value zero n h = absurd (omega (arith, h))
numeral_from-value (suc r) n h = elim (Bool-cases (ltb n 10)) [
  | inl few ↦ rw few (omega arith)
  | inr more ↦ rw more (
      value-snoc (numeral_from r (n / 10)) (n % 10)
      ∙ omega (arith, numeral_from-value r (n / 10) (ground (arith, h, more))))
]

numeral_from-all_digits : (r n : ℕ) → all_digits (numeral_from r n) ≡ true
unfolding numeral_from all_digits
numeral_from-all_digits zero n = refl
numeral_from-all_digits (suc r) n = elim (Bool-cases (ltb n 10)) [
  | inl few ↦ rw few (digit-IsDigit n (ground (arith, few)))
  | inr more ↦ rw more (
      all_digits-append (numeral_from r (n / 10)) ((n % 10 + b'0') ∷ [])
        (numeral_from-all_digits r (n / 10)) (digit-IsDigit (n % 10) (omega arith)))
]

numeral-value : (n : ℕ) → value (numeral n) ≡ n
unfolding numeral
numeral-value n = numeral_from-value (suc n) n (omega arith)

numeral-all_digits : (n : ℕ) → all_digits (numeral n) ≡ true
unfolding numeral
numeral-all_digits n = numeral_from-all_digits (suc n) n

length-numeral : (n : ℕ) → 0 < length (numeral n)
unfolding numeral numeral_from
length-numeral n = elim (Bool-cases (ltb n 10)) [
  | inl few ↦ rw few (omega arith)
  | inr more ↦
      rw more (omega (arith, length-append (numeral_from n (n / 10)) ((n % 10 + b'0') ∷ [])))
]

length-places : (k n : ℕ) → length (places k n) ≡ k
unfolding places
length-places zero n = refl
length-places (suc k) n =
    omega
      (arith, length-append (places k (n / 10)) ((n % 10 + b'0') ∷ []), length-places k (n / 10))

places-all_digits : (k n : ℕ) → all_digits (places k n) ≡ true
unfolding places all_digits
places-all_digits zero n = refl
places-all_digits (suc k) n =
    all_digits-append (places k (n / 10)) ((n % 10 + b'0') ∷ []) (places-all_digits k (n / 10))
      (digit-IsDigit (n % 10) (omega arith))

-- The places read on behind any number.
read_on-places : (k m n : ℕ) → n < 10 ^ k → read_on m (places k n) ≡ m * 10 ^ k + n
unfolding places read_on
read_on-places zero m n h = omega (arith, h)
read_on-places (suc k) m n h =
    read_on-append m (places k (n / 10)) _
    ∙ omega (
      arith,
      read_on-places k m (n / 10) (omega (arith, h, power_suc k)),
      ap (λ (p : ℕ). m * p) (power_suc k),
    )

point_lem : (f : Text) → 0 < length f → point f ≡ b'.' ∷ f
point_lem [] h = absurd (omega (arith, h))
point_lem (c ∷ f) h = refl

fixed-value : (n : ℕ) → value (numeral (n / 10 ^ 9) ++ places 9 (n % 10 ^ 9)) ≡ n
unfolding value numeral
fixed-value n =
    read_on-append 0 (numeral (n / 10 ^ 9)) _
    ∙ read_on-places 9 _ (n % 10 ^ 9) (omega arith)
    ∙ omega (arith, numeral-value (n / 10 ^ 9))

fixed-IsExactly : (n : ℕ) → IsExactly 9 (fixed n) n
unfolding fixed
fixed-IsExactly n =
    let fraction = places 9 (n % 10 ^ 9) in
    let nine = length-places 9 (n % 10 ^ 9) in
    (
      numeral (n / 10 ^ 9),
      fraction,
      (
        ap (λ (t : Text). numeral (n / 10 ^ 9) ++ t)
            (sym (point_lem fraction (omega (arith, nine)))),
        length-numeral (n / 10 ^ 9),
        numeral-all_digits (n / 10 ^ 9),
        places-all_digits 9 (n % 10 ^ 9),
      ),
      omega (arith, nine),
      ap (λ (l : ℕ). n * 10 ^ l) nine ∙ sym (ap (λ (v : ℕ). v * 10 ^ 9) (fixed-value n)),
    )

-- A text without blanks is trimmed to itself.
abbrev no_blanks : Text → Bool
no_blanks [] = true
no_blanks (c ∷ s) = not (is_blank c) && no_blanks s

no_blanks-append :
    (s t : Text) → no_blanks s ≡ true → no_blanks t ≡ true → no_blanks (s ++ t) ≡ true
no_blanks-append [] t a b = b
no_blanks-append (c ∷ s) t a b = elim (Bool-cases (is_blank c)) [
  | inl blank ↦ absurd (cc)
  | inr other ↦ rw other (no_blanks-append s t (rw other at a) b)
]

digits-no_blanks : (s : Text) → all_digits s ≡ true → no_blanks s ≡ true
unfolding all_digits
digits-no_blanks [] e = refl
digits-no_blanks (c ∷ s) e = elim (Bool-cases (is_digit c)) [
  | inl is ↦
      let other : is_blank c ≡ false = ground (arith, is) in
      rw other (digits-no_blanks s (rw is at e))
  | inr no_digit ↦ absurd (cc)
]

skip_blanks-same : (s : Text) → no_blanks s ≡ true → skip_blanks s ≡ s
unfolding skip_blanks
skip_blanks-same [] e = refl
skip_blanks-same (c ∷ s) e = elim (Bool-cases (is_blank c)) [
  | inl blank ↦ absurd (cc)
  | inr other ↦ rw other refl
]

drop_blanks-same : (s : Text) → no_blanks s ≡ true → drop_blanks s ≡ s
unfolding drop_blanks keep_unless_blank
drop_blanks-same [] e = refl
drop_blanks-same (c ∷ s) e = elim (Bool-cases (is_blank c)) [
  | inl blank ↦ absurd (cc)
  | inr other ↦ ap (keep_unless_blank c) (drop_blanks-same s (rw other at e)) ∙ kept s other
]
  where
    kept : (s : Text) → is_blank c ≡ false → keep_unless_blank c s ≡ c ∷ s
    kept [] e = rw e refl
    kept (d ∷ s) e = refl

fixed-no_blanks : (n : ℕ) → no_blanks (fixed n) ≡ true
unfolding fixed
fixed-no_blanks n =
    no_blanks-append (numeral (n / 10 ^ 9)) (b'.' ∷ places 9 (n % 10 ^ 9))
      (digits-no_blanks _ (numeral-all_digits (n / 10 ^ 9)))
      (digits-no_blanks (places 9 (n % 10 ^ 9)) (places-all_digits 9 (n % 10 ^ 9)))

-- What `toFixed` prints is scaled back to what it was printed from.
scale_to_integer-fixed : (one n : ℕ) → scale_to_integer one (text (fixed n)) 9 ≡ some n
unfolding scale_to_integer text_of scale_found
scale_to_integer-fixed one n =
    rw
      (
        skip_blanks-same (fixed n) (fixed-no_blanks n),
        drop_blanks-same (fixed n) (fixed-no_blanks n),
      )
      ((scale_text-IsExactly 9 (fixed n) n).1 (fixed-IsExactly n))

abbrev pub IsNearest : (numerator denominator n : ℕ) → Type 0
IsNearest a b n = (2 * n * b ≤ 2 * a + b) × (2 * a + b < 2 * (n + 1) * b)

nearest-IsNearest : (a b : ℕ) → 0 < b → IsNearest a b (nearest a b)
unfolding nearest
nearest-IsNearest a b h = (omega (arith, h), omega (arith, h))

-- For a positive price that is a double and a slippage under a hundred percent, there is a price,
-- not below the given one on a buy and not above it on a sell, and no farther from the exact
-- product of the price and the factor of its side than nine parts of the price in 2^52 and one
-- smallest double, such that `acceptablePriceFor` answers the numeral of the integer nearest to
-- 10^9 times it, ties upwards, unless the integer is above the largest u64, which it refuses; the
-- text that it prints on the way is never refused. Read as digits, the numeral is that integer.
pub acceptable_price_for-IsNearest :
    (p s : ℕ) (side : OrderSide)
    → IsDouble p
    → 0 < p
    → s < 100 * one
    → (price : ℕ) × (n : ℕ) × IsAccurate p side s price
      × IsBeyond p side price
      × IsNearest (price * 10 ^ 9) one n
      × (acceptable_price_for (finite (pos p)) side (finite (pos s))
          ≡ (if ltb u64_max n then none else some (numeral n)))
      × (value (numeral n) ≡ n)
unfolding acceptable_price_for assert_width
acceptable_price_for-IsNearest p s side double h k =
    let price = product one p side s in
    let n = nearest (price * 10 ^ 9) one in
    let valid : (p == 0 || leb (100 * one) s) ≡ false = ground (arith, h, k) in
    (
      price,
      n,
      product-IsAccurate p s side k,
      product-IsBeyond p s side double,
      nearest-IsNearest (price * 10 ^ 9) one (omega arith),
      rw valid (ap (assert_width u64_max) (scale_to_integer-fixed one n)),
      numeral-value n,
    )
