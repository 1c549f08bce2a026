-- ===== src/Units/Exact.antt =====
-- An amount is scaled without loss, or refused.
use waterx_agent.Prelude.{
  ℕ, zero, suc, ◌+◌, ◌-◌, ◌*◌, ◌^◌, ◌≤◌, ◌<◌, Bool, true, false, ◌&&◌, [], ◌∷◌, ◌++◌, Option, none,
  some, ltb, ◌==◌, if◌then◌else◌, length, ◌≡◌, refl, sym, ap, ◌∙◌, arith, Bool-cases, inl, inr, ◌↔◌,
  ==_iff, subst, some-injective, ltb→lt,
}
use native.Mathlib.Nat.{mul-le-mul_right, zero-add}
use Prim.Native.Nat.add
use waterx_agent.Verify.Text.{Text, replicate}
use waterx_agent.Verify.Authorized.{digits}
use waterx_agent.Units.{
  is_digit, all_digits, take_digits, and_digit, fraction_of, groups, match_decimal, scale_match,
  scale_text,
}
use waterx_agent.Units.Decimal.{
  value, read_on, digits_from-read_on, read_on-append, read_on-zeros, all_digits-append,
  all_digits-zeros, power_suc,
}

-- A text is a decimal with these digits before and behind the point, which goes with the latter.
abbrev pub point : Text → Text
point [] = []
point (c ∷ s) = b'.' ∷ c ∷ s

abbrev pub IsDecimal : Text → Text → Text → Type 0
IsDecimal s whole fraction =
    (s ≡ whole ++ point fraction)
    × (0 < length whole)
    × (all_digits whole ≡ true)
    × (all_digits fraction ≡ true)

-- The text is a decimal with few enough places, and so many units of the last place are what it says.
abbrev pub IsExactly : ℕ → Text → ℕ → Type 0
IsExactly decimals s n =
    (whole : Text) × (fraction : Text) × IsDecimal s whole fraction
    × (length fraction ≤ decimals)
    × (n * 10 ^ length fraction ≡ value (whole ++ fraction) * 10 ^ decimals)

take_digits_lem :
    (s : Text)
    → (s ≡ (take_digits s).0 ++ (take_digits s).1) × (all_digits (take_digits s).0 ≡ true)
unfolding take_digits all_digits
take_digits_lem [] = (refl, refl)
take_digits_lem (c ∷ s) = elim (Bool-cases (is_digit c)) [
  | inl is ↦ let (e, ds) = take_digits_lem s in rw is (ap (λ (t : Text). c ∷ t) e, rw is ds)
  | inr other ↦ rw other (refl, refl)
]

fraction_of_lem : (s f : Text) → fraction_of s ≡ some f → (s ≡ point f) × (all_digits f ≡ true)
unfolding fraction_of
fraction_of_lem [] f e =
    subst (λ (g : Text). ([] ≡ point g) × (all_digits g ≡ true)) (some-injective _ _ e) (refl, refl)
fraction_of_lem (p ∷ []) f e = absurd (cc)
fraction_of_lem (p ∷ c ∷ s) f e = go (p == b'.') (all_digits (c ∷ s)) refl refl e
  where
    go :
        (is_point are_digits : Bool)
        → (p == b'.') ≡ is_point
        → all_digits (c ∷ s) ≡ are_digits
        → (if is_point && are_digits then some (c ∷ s) else none) ≡ some f
        → (p ∷ c ∷ s ≡ point f) × (all_digits f ≡ true)
    go true true is_point are_digits e =
        subst (λ (g : Text). (p ∷ c ∷ s ≡ point g) × (all_digits g ≡ true)) (some-injective _ _ e)
          (rw (((==_iff p b'.').0 is_point)) refl, are_digits)
    go true false _ _ e = absurd (cc)
    go false b _ _ e = absurd (cc)

groups_lem :
    (ds : Text) (o : Option Text) (w f : Text)
    → groups ds o ≡ some (w, f)
    → (ds ≡ w) × (o ≡ some f) × (0 < length w)
unfolding groups
groups_lem [] o w f e = absurd (cc)
groups_lem (c ∷ s) none w f e = absurd (cc)
groups_lem (c ∷ s) (some g) w f e =
    let same = some-injective _ _ e in
    let whole = ap (λ (p : Text × Text). p.0) same in
    (
      whole,
      ap (λ (p : Text × Text). some p.1) same,
      subst (λ (t : Text). 0 < length t) whole (omega arith),
    )

match_decimal-IsDecimal : (s w f : Text) → match_decimal s ≡ some (w, f) → IsDecimal s w f
unfolding match_decimal
match_decimal-IsDecimal s w f e =
    let (whole, fraction, some_digit) =
      groups_lem (take_digits s).0 (fraction_of (take_digits s).1) w f e in
    let (split, ws) = take_digits_lem s in
    let (rest, fs) = fraction_of_lem (take_digits s).1 f fraction in
    (split ∙ (rw (whole, rest) refl), some_digit, (rw whole at ws), fs)

take_digits-point : (w f : Text) → all_digits w ≡ true → take_digits (w ++ point f) ≡ (w, point f)
unfolding take_digits all_digits
take_digits-point [] [] e = refl
take_digits-point [] (c ∷ f) e = refl
take_digits-point (c ∷ w) f e = elim (Bool-cases (is_digit c)) [
  | inl is ↦ rw is (ap (and_digit c) (take_digits-point w f (rw is at e)))
  | inr other ↦ absurd (cc)
]

fraction_of-point : (f : Text) → all_digits f ≡ true → fraction_of (point f) ≡ some f
unfolding fraction_of
fraction_of-point [] e = refl
fraction_of-point (c ∷ f) e = rw e refl

decimal-match_decimal : (s w f : Text) → IsDecimal s w f → match_decimal s ≡ some (w, f)
unfolding match_decimal groups
decimal-match_decimal s [] f (e, some_digit, ws, fs) = ground (arith, some_digit)
decimal-match_decimal s (c ∷ w) f (e, some_digit, ws, fs) =
    rw (e, take_digits-point (c ∷ w) f ws, fraction_of-point f fs) refl

power_add : (a b : ℕ) → 10 ^ (a + b) ≡ 10 ^ a * 10 ^ b
power_add zero b = rw (zero-add b) (omega arith)
power_add (suc a) b = omega (
  arith,
  ap (λ (e : ℕ). 10 ^ e) (add.suc a b),
  power_suc (a + b),
  power_suc a,
  power_add a b,
  ap (λ (p : ℕ). p * 10 ^ b) (power_suc a),
)

power_pos : (a : ℕ) → 0 < 10 ^ a
power_pos zero = omega arith
power_pos (suc a) = omega (arith, power_suc a, power_pos a)

cancel : (a b p : ℕ) → 0 < p → a * p ≡ b * p → a ≡ b
cancel a b p h e = elim (Bool-cases (ltb a b)) [
  | inl less ↦ absurd (omega (arith, h, e, mul-le-mul_right p (ltb→lt a b less)))
  | inr other ↦ elim (Bool-cases (ltb b a)) [
    | inl more ↦ absurd (omega (arith, h, e, mul-le-mul_right p (ltb→lt b a more)))
    | inr same ↦ ground (arith, other, same)
  ]
]

-- The digits with the zeros behind them.
value-padded :
    (w f : Text) (k : ℕ) → read_on 0 (w ++ (f ++ replicate k b'0')) ≡ value (w ++ f) * 10 ^ k
unfolding value
value-padded w f k =
    read_on-append 0 w _
    ∙ read_on-append (read_on 0 w) f _
    ∙ read_on-zeros k _
    ∙ ap (λ (n : ℕ). n * 10 ^ k) (sym (read_on-append 0 w f))

digits-padded :
    (w f : Text) (k : ℕ)
    → 0 < length w
    → all_digits w ≡ true
    → all_digits f ≡ true
    → digits 10 (w ++ (f ++ replicate k b'0')) ≡ some (value (w ++ f) * 10 ^ k)
unfolding digits
digits-padded [] f k h ws fs = absurd (omega (arith, h))
digits-padded (c ∷ w) f k h ws fs =
    digits_from-read_on 0 (c ∷ (w ++ (f ++ replicate k b'0')))
      (all_digits-append (c ∷ w) _ ws (all_digits-append f _ fs (all_digits-zeros k)))
    ∙ ap some (value-padded (c ∷ w) f k)

same_units : (v d l n : ℕ) → l ≤ d → (n ≡ v * 10 ^ (d - l)) ↔ (n * 10 ^ l ≡ v * 10 ^ d)
same_units v d l n h =
    let whole : 10 ^ d ≡ 10 ^ (d - l) * 10 ^ l =
      ap (λ (e : ℕ). 10 ^ e) (omega (arith, h)) ∙ power_add (d - l) l in
    let scaled : v * 10 ^ (d - l) * 10 ^ l ≡ v * 10 ^ d =
      omega (arith, ap (λ (p : ℕ). v * p) whole) in
    (
      λ e. ap (λ (m : ℕ). m * 10 ^ l) e ∙ scaled,
      λ e. cancel _ _ (10 ^ l) (power_pos l) (e ∙ sym scaled),
    )

scale_match_lem :
    (d : ℕ) (w f : Text)
    → 0 < length w
    → all_digits w ≡ true
    → all_digits f ≡ true
    → length f ≤ d
    → scale_match d (some (w, f)) ≡ some (value (w ++ f) * 10 ^ (d - length f))
unfolding scale_match
scale_match_lem d w f h ws fs small =
    let fits : ltb d (length f) ≡ false = ground (arith, small) in
    rw fits (digits-padded w f (d - length f) h ws fs)

scale_match_fits :
    (d : ℕ) (w f : Text) (n : ℕ) → scale_match d (some (w, f)) ≡ some n → length f ≤ d
unfolding scale_match
scale_match_fits d w f n e = elim (Bool-cases (ltb d (length f))) [
  | inl many ↦ absurd (cc)
  | inr few ↦ ground (arith, few)
]

scaled-IsExactly : (d : ℕ) (s : Text) (n : ℕ) → scale_text d s ≡ some n → IsExactly d s n
unfolding scale_text scale_match
scaled-IsExactly d s n e = go (match_decimal s) refl e
  where
    go :
        (m : Option (Text × Text))
        → match_decimal s ≡ m
        → scale_match d m ≡ some n
        → IsExactly d s n
    go none m e = absurd (cc)
    go (some (w, f)) m e =
        let (split, h, ws, fs) = match_decimal-IsDecimal s w f m in
        let small = scale_match_fits d w f n e in
        let same = some-injective _ _ (sym e ∙ scale_match_lem d w f h ws fs small) in
        (w, f, (split, h, ws, fs), small, (same_units (value (w ++ f)) d (length f) n small).0 same)

exactly-scale_text : (d : ℕ) (s : Text) (n : ℕ) → IsExactly d s n → scale_text d s ≡ some n
unfolding scale_text
exactly-scale_text d s n (w, f, is, small, units) =
    let (split, h, ws, fs) = is in
    rw (decimal-match_decimal s w f is) (
      scale_match_lem d w f h ws fs small
      ∙ ap some (sym ((same_units (value (w ++ f)) d (length f) n small).1 units)))

pub scale_text-IsExactly : (d : ℕ) (s : Text) (n : ℕ) → (scale_text d s ≡ some n) ↔ IsExactly d s n
scale_text-IsExactly d s n = (scaled-IsExactly d s n, exactly-scale_text d s n)
