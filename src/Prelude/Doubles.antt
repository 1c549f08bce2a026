-- ===== src/Prelude/Doubles.antt =====
-- The finite numbers of JavaScript: a double that is not negative is a count of the smallest one, and what an operation gives is the double nearest to the exact result.
use Prim.Native.Nat.add
use native.Mathlib.Nat.{mul-le-mul_left, mul-le-mul_right, zero-add}
use Prim.Native.Nat.{ℕ, zero, suc, ◌+◌, ◌-◌, ◌*◌, ◌/◌, ◌%◌, ◌^◌, ◌≤◌, ◌<◌}
use mathlib.Core.Path.{◌≡◌, refl, sym, ap, subst, ◌∙◌}
use mathlib.Core.Logic.{◌⊎◌, inl, inr}
use mathlib.Core.Bool.{Bool, true, false}
use native.Mathlib.Omega.{arith}
use waterx_agent.Prelude.Tests.{ltb, ◌==◌, if◌then◌else◌, Bool-cases, ltb→lt}

-- The distance of the doubles around a quotient: the least power of two of which fewer than 2^53 are
-- not below it. There is an end to the doubling, since the quotient is below two to its numerator.
unfoldable pub step_from : (rounds a b : ℕ) → ℕ
step_from zero a b = 1
step_from (suc rounds) a b = elim (ltb a (2 ^ 53 * b)) [
  | true ↦ 1
  | false ↦ 2 * step_from rounds a (2 * b)
]

-- The nearest whole number, the even one of two.
unfoldable pub half_even : (q r d : ℕ) → ℕ
half_even q r d =
    if ltb (2 * r) d then q else if ltb d (2 * r) then q + 1 else if q % 2 == 0 then q else q + 1

unfoldable pub rounded_by : (step a b : ℕ) → ℕ
unfolding half_even
rounded_by step a b = half_even (a / (step * b)) (a % (step * b)) (step * b) * step

-- The double nearest to a / b.
unfoldable pub rounded : (a b : ℕ) → ℕ
unfolding step_from rounded_by
rounded a b = rounded_by (step_from a a b) a b

-- A double: 53 bits, shifted.
abbrev pub IsDouble : ℕ → Type 0
IsDouble x = (m : ℕ) × (e : ℕ) × (m < 2 ^ 53) × (x ≡ m * 2 ^ e)

pub cancel_lt : (a b c : ℕ) → a * c < b * c → a < b
cancel_lt a b c h = elim (Bool-cases (ltb a b)) [
  | inl less ↦ ltb→lt a b less
  | inr other ↦ absurd (omega (arith, h, mul-le-mul_right c (not_less other)))
]
  where
    not_less : ltb a b ≡ false → b ≤ a
    not_less e = ground (arith, e)

-- What makes a step fit a quotient.
power_suc : (e : ℕ) → 2 ^ suc e ≡ 2 * 2 ^ e
power_suc e = omega arith

record IsStep (step a b : ℕ) : Type 0 where
  power : (e : ℕ) × (step ≡ 2 ^ e)
  covers : a < 2 ^ 53 * (step * b)
  least : (step ≡ 1) ⊎ (2 ^ 52 * (step * b) ≤ a)

step_from-IsStep : (r a b : ℕ) → a < 2 ^ 53 * (2 ^ r * b) → IsStep (step_from r a b) a b
unfolding step_from
step_from-IsStep zero a b h = record {
  power = (0, refl);
  covers = omega (arith, h);
  least = inl refl;
}
step_from-IsStep (suc r) a b h =
    go (ltb a (2 ^ 53 * b)) refl
      (step_from-IsStep r a (2 * b) (omega (arith, h, ap (λ (p : ℕ). p * b) (power_suc r))))
  where
    go :
        (t : Bool)
        → ltb a (2 ^ 53 * b) ≡ t
        → IsStep (step_from r a (2 * b)) a (2 * b)
        → IsStep (elim t [ true ↦ 1 | false ↦ 2 * step_from r a (2 * b) ]) a b
    go true small rest = record {
      power = (0, refl);
      covers = ground (arith, small);
      least = inl refl;
    }
    go false large rest = record {
      power = (suc rest.power.0, omega (arith, rest.power.1, power_suc rest.power.0));
      covers = omega (arith, rest.covers);
      least = inr (by_least rest.least);
    }
      where
        by_least :
            (step_from r a (2 * b) ≡ 1) ⊎ (2 ^ 52 * (step_from r a (2 * b) * (2 * b)) ≤ a)
            → 2 ^ 52 * (2 * step_from r a (2 * b) * b) ≤ a
        by_least (inl one) = rw one (ground (arith, large))
        by_least (inr much) = omega (arith, much)

below_power : (a : ℕ) → a < 2 ^ a
below_power zero = omega arith
below_power (suc a) = omega (arith, below_power a, power_suc a)

enough-IsStep : (a b : ℕ) → 0 < b → IsStep (step_from a a b) a b
enough-IsStep a b h =
    step_from-IsStep a a b (omega (arith, h, below_power a, mul-le-mul_left (2 ^ a) h))

power_add : (a b : ℕ) → 2 ^ (a + b) ≡ 2 ^ a * 2 ^ b
power_add zero b = rw (zero-add b) (omega arith)
power_add (suc a) b = omega (
  arith,
  ap (λ (e : ℕ). 2 ^ e) (add.suc a b),
  power_suc (a + b),
  power_suc a,
  power_add a b,
  ap (λ (p : ℕ). p * 2 ^ b) (power_suc a),
)

power_pos : (e : ℕ) → 0 < 2 ^ e
power_pos zero = omega arith
power_pos (suc e) = omega (arith, power_suc e, power_pos e)

splits : (a b : ℕ) → b ≤ a → a ≡ (a - b) + b
splits a b h = omega (arith, h)

power_le : (a b : ℕ) → a ≤ b → 2 ^ a ≤ 2 ^ b
power_le a b h = omega (
  arith,
  ap (λ (e : ℕ). 2 ^ e) (splits b a h),
  power_add (b - a) a,
  mul-le-mul_right (2 ^ a) (power_pos (b - a)),
)

step_pos : {s a b : ℕ} → IsStep s a b → 0 < s
step_pos v = omega (arith, v.power.1, power_pos v.power.0)

-- A double is whole steps, or so small that the quotient is not.
on_steps :
    (x s a b : ℕ)
    → IsDouble x
    → IsStep s a b
    → ((n : ℕ) × (x ≡ n * s)) ⊎ ((x < 2 ^ 52 * s) × (2 ^ 52 * (s * b) ≤ a))
on_steps x s a b (m, e, small, is) v = by_least v.least
  where
    k : ℕ
    k = v.power.0

    by_least :
        (s ≡ 1) ⊎ (2 ^ 52 * (s * b) ≤ a)
        → ((n : ℕ) × (x ≡ n * s)) ⊎ ((x < 2 ^ 52 * s) × (2 ^ 52 * (s * b) ≤ a))
    by_least (inl one) = inl (x, rw one (omega arith))
    by_least (inr much) = elim (Bool-cases (ltb e k)) [
      | inl less ↦ inr (
        omega (
          arith,
          is,
          v.power.1,
          mul-le-mul_right (2 ^ e) small,
          power_pos e,
          power_suc e,
          power_le (suc e) k (ltb→lt e k less),
        ),
        much,
      )
      | inr other ↦ inl (
        m * 2 ^ (e - k),
        is
            ∙ ap (λ (p : ℕ). m * p)
                (ap (λ (i : ℕ). 2 ^ i) (splits e k (ground (arith, other))) ∙ power_add (e - k) k)
            ∙ omega (arith, ap (λ (p : ℕ). m * 2 ^ (e - k) * p) v.power.1),
      )
    ]

half_even_bounds : (q r d : ℕ) → (q ≤ half_even q r d) × (half_even q r d ≤ q + 1)
unfolding half_even
half_even_bounds q r d = (ground arith, ground arith)

half_even-exact : (q d : ℕ) → 0 < d → half_even q 0 d ≡ q
unfolding half_even
half_even-exact q d h = ground (arith, h)

le_quotient : (n a d : ℕ) → 0 < d → n * d ≤ a → n ≤ a / d
le_quotient n a d h le =
    let less : n < a / d + 1 = cancel_lt n (a / d + 1) d (omega (arith, h, le)) in
    omega (arith, less)

step_bounds : (s a b : ℕ) → 0 < s → 0 < b → 0 < s * b
step_bounds s a b p q = omega (arith, mul-le-mul_right b p, q)

rounded_by_low : (x n s a b : ℕ) → 0 < s * b → n * (s * b) ≤ a → x ≤ n * s → x ≤ rounded_by s a b
unfolding rounded_by
rounded_by_low x n s a b h le below =
    let q = a / (s * b) in
    let kept = (half_even_bounds q (a % (s * b)) (s * b)).0 in
    omega (arith, below, mul-le-mul_right s (le_quotient n a (s * b) h le), mul-le-mul_right s kept)

rounded_by_high : (n s a b : ℕ) → 0 < s * b → a ≤ n * (s * b) → rounded_by s a b ≤ n * s
unfolding rounded_by
rounded_by_high n s a b h le = mul-le-mul_right s (by_quotient (ltb q n) refl)
  where
    d : ℕ
    d = s * b

    q : ℕ
    q = a / d

    by_quotient : (t : Bool) → ltb q n ≡ t → half_even q (a % d) d ≤ n
    by_quotient true less = omega (arith, (half_even_bounds q (a % d) d).1, ltb→lt q n less)
    by_quotient false other =
        let least : n ≤ q = ground (arith, other) in
        let none_left : a % d ≡ 0 = omega (arith, h, le, mul-le-mul_right d least) in
        let most : q < n + 1 = cancel_lt q (n + 1) d (omega (arith, h, le)) in
        subst (λ (r : ℕ). half_even q r d ≤ n) (sym none_left)
          (subst (λ (k : ℕ). k ≤ n) (sym (half_even-exact q d h)) (omega (arith, most)))

-- What is a double and not above a quotient is not above the rounded quotient, and so below.
pub double-rounded_le : (x a b : ℕ) → IsDouble x → 0 < b → x * b ≤ a → x ≤ rounded a b
unfolding rounded
double-rounded_le x a b double h le = by_steps (on_steps x s a b double v)
  where
    s : ℕ
    s = step_from a a b

    v : IsStep s a b
    v = enough-IsStep a b h

    by_steps :
        ((n : ℕ) × (x ≡ n * s)) ⊎ ((x < 2 ^ 52 * s) × (2 ^ 52 * (s * b) ≤ a)) → x ≤ rounded_by s a b
    by_steps (inl (n, is)) =
        rounded_by_low x n s a b (step_bounds s a b (step_pos v) h)
          (omega (arith, le, ap (λ (p : ℕ). p * b) is)) (omega (arith, is))
    by_steps (inr (few, much)) =
        rounded_by_low x (2 ^ 52) s a b (step_bounds s a b (step_pos v) h) much (omega (arith, few))

pub rounded_le-double : (x a b : ℕ) → IsDouble x → 0 < b → a ≤ x * b → rounded a b ≤ x
unfolding rounded
rounded_le-double x a b double h le = by_steps (on_steps x s a b double v)
  where
    s : ℕ
    s = step_from a a b

    v : IsStep s a b
    v = enough-IsStep a b h

    by_steps :
        ((n : ℕ) × (x ≡ n * s)) ⊎ ((x < 2 ^ 52 * s) × (2 ^ 52 * (s * b) ≤ a)) → rounded_by s a b ≤ x
    by_steps (inl (n, is)) =
        subst (λ (y : ℕ). rounded_by s a b ≤ y) (sym is)
          (rounded_by_high n s a b (step_bounds s a b (step_pos v) h)
            (omega (arith, le, ap (λ (p : ℕ). p * b) is)))
    by_steps (inr (few, much)) = absurd (omega (arith, few, much, le, mul-le-mul_right b few, h))

-- How far rounding goes: by less than a 2^52th, and by a smallest double at most below the normal ones.
pub rounded_close :
    (a b : ℕ)
    → 0 < b
    → (2 ^ 52 * (rounded a b * b) ≤ 2 ^ 52 * a + a + 2 ^ 52 * b)
      × (2 ^ 52 * a ≤ 2 ^ 52 * (rounded a b * b) + a + 2 ^ 52 * b)
unfolding rounded rounded_by
rounded_close a b h = by_least (step_from a a b) (enough-IsStep a b h)
  where
    by_least :
        (s : ℕ)
        → IsStep s a b
        → (2 ^ 52 * (rounded_by s a b * b) ≤ 2 ^ 52 * a + a + 2 ^ 52 * b)
          × (2 ^ 52 * a ≤ 2 ^ 52 * (rounded_by s a b * b) + a + 2 ^ 52 * b)
    by_least s v =
        let d = s * b in
        let positive : 0 < s * b = step_bounds s a b (step_pos v) h in
        let (low, high) = half_even_bounds (a / d) (a % d) d in
        let narrow : 2 ^ 52 * (s * b) ≤ a + 2 ^ 52 * b = by_cases v.least in
        (
          omega (arith, positive, narrow, mul-le-mul_right d high),
          omega (arith, positive, narrow, mul-le-mul_right d low),
        )
      where
        by_cases : (s ≡ 1) ⊎ (2 ^ 52 * (s * b) ≤ a) → 2 ^ 52 * (s * b) ≤ a + 2 ^ 52 * b
        by_cases (inl one) = omega (arith, ap (λ (p : ℕ). p * b) one)
        by_cases (inr much) = omega (arith, much)
