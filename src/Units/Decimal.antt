-- ===== src/Units/Decimal.antt =====
-- The number that digits stand for.
use waterx_agent.Prelude.{
  ℕ, zero, suc, ◌+◌, ◌-◌, ◌*◌, ◌^◌, true, [], ◌∷◌, ◌++◌, some, ltb, ◌≡◌, refl, ap, ◌∙◌, arith,
  Bool-cases, inl, inr,
}
use waterx_agent.Verify.Text.{Text, replicate}
use waterx_agent.Verify.Authorized.{digit_value, digits_from}
use waterx_agent.Units.{is_digit, all_digits}

-- The digits read on from a number, and from nothing.
unfoldable pub read_on : ℕ → Text → ℕ
read_on n [] = n
read_on n (c ∷ s) = read_on (n * 10 + (c - b'0')) s

unfoldable pub value : Text → ℕ
unfolding read_on
value s = read_on 0 s

digit_step :
    (c : ℕ) → is_digit c ≡ true → (digit_value c ≡ c - b'0') × (ltb (digit_value c) 10 ≡ true)
digit_step c e = rw e (refl, ground (arith, e))

pub digits_from-read_on :
    (n : ℕ) (s : Text) → all_digits s ≡ true → digits_from 10 n s ≡ some (read_on n s)
unfolding digits_from all_digits read_on
digits_from-read_on n [] e = refl
digits_from-read_on n (c ∷ s) e = elim (Bool-cases (is_digit c)) [
  | inl is ↦
      let (same, small) = digit_step c is in
      rw small (rw same (digits_from-read_on (n * 10 + (c - b'0')) s (rw is at e)))
  | inr other ↦ absurd (cc)
]

pub read_on-append : (n : ℕ) (s t : Text) → read_on n (s ++ t) ≡ read_on (read_on n s) t
unfolding read_on
read_on-append n [] t = refl
read_on-append n (c ∷ s) t = read_on-append (n * 10 + (c - b'0')) s t

pub power_suc : (w : ℕ) → 10 ^ suc w ≡ 10 * 10 ^ w
power_suc w = omega arith

pub read_on-zeros : (k n : ℕ) → read_on n (replicate k b'0') ≡ n * 10 ^ k
unfolding read_on
read_on-zeros zero n = omega arith
read_on-zeros (suc k) n =
    read_on-zeros k (n * 10 + 0) ∙ omega (arith, ap (λ (p : ℕ). n * p) (power_suc k))

pub all_digits-append :
    (s t : Text) → all_digits s ≡ true → all_digits t ≡ true → all_digits (s ++ t) ≡ true
unfolding all_digits
all_digits-append [] t a b = b
all_digits-append (c ∷ s) t a b = elim (Bool-cases (is_digit c)) [
  | inl is ↦ rw is (all_digits-append s t (rw is at a) b)
  | inr other ↦ absurd (cc)
]

pub all_digits-zeros : (k : ℕ) → all_digits (replicate k b'0') ≡ true
unfolding all_digits
all_digits-zeros zero = refl
all_digits-zeros (suc k) = all_digits-zeros k
