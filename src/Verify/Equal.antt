-- ===== src/Verify/Equal.antt =====
-- The tests by `===` and by `has` say what they mean.
use waterx_agent.Prelude.{
  Bool, true, List, [], ◌∷◌, some, ◌≡◌, refl, ap, arith, ◌⊎◌, inl, inr, find, any, ==_refl, ℤ,
  Bool-cases,
}
use waterx_agent.Verify.Text.{Text, eq_text, has}
use waterx_agent.Verify.Encoding.{Value, number, text, flag, eq_ℤ, eq_value}

abbrev pub In : {A : Type 0} → A → List A → Type 0
In a [] = ⊥
In a (x ∷ xs) = (x ≡ a) ⊎ In a xs

pub eq_text_sound : (s t : Text) → eq_text s t ≡ true → s ≡ t
unfolding eq_text
eq_text_sound [] [] h = refl
eq_text_sound [] (b ∷ t) h = cc
eq_text_sound (a ∷ s) [] h = cc
eq_text_sound (a ∷ s) (b ∷ t) h = ground (arith, eq_text_sound s t)

pub has_sound : (ss : List Text) (t : Text) → has ss t ≡ true → In t ss
unfolding has
has_sound [] t h = absurd (cc)
has_sound (s ∷ ss) t h = elim (Bool-cases (eq_text s t)) [
  | inl same ↦ inl (eq_text_sound s t same)
  | inr other ↦ inr (has_sound ss t (rw other at h))
]

pub find-In :
    {A : Type 0} (p : A → Bool) (xs : List A) (a : A) → find p xs ≡ some a → In a xs × (p a ≡ true)
find-In p [] a h = absurd (ground arith)
find-In p (x ∷ xs) a h = elim (Bool-cases (p x)) [
  | inl yes_x ↦ ground (arith, yes_x)
  | inr no_x ↦ let (m, e) = find-In p xs a (rw no_x at h) in (inr m, e)
]

pub eq_ℤ_sound : (a b : ℤ) → eq_ℤ a b ≡ true → a ≡ b
eq_ℤ_sound a b h = ground arith

pub eq_value_sound : (a b : Value) → eq_value a b ≡ true → a ≡ b
unfolding eq_value
eq_value_sound (number a) (number b) h = ap number (eq_ℤ_sound a b h)
eq_value_sound (text s) (text t) h = ap text (eq_text_sound s t h)
eq_value_sound (flag a) (flag b) h = ground arith
eq_value_sound (number a) (text t) h = cc
eq_value_sound (number a) (flag b) h = cc
eq_value_sound (text s) (number b) h = cc
eq_value_sound (text s) (flag b) h = cc
eq_value_sound (flag a) (number b) h = cc
eq_value_sound (flag a) (text t) h = cc

pub any-In :
    {A : Type 0} (p : A → Bool) (xs : List A) → any p xs ≡ true → (a : A) × In a xs × (p a ≡ true)
any-In p [] h = absurd (cc)
any-In p (x ∷ xs) h = elim (Bool-cases (p x)) [
  | inl yes_x ↦ (x, inl refl, yes_x)
  | inr no_x ↦ let (a, m, e) = any-In p xs (rw no_x at h) in (a, inr m, e)
]

pub eq_text_refl : (s : Text) → eq_text s s ≡ true
unfolding eq_text
eq_text_refl [] = refl
eq_text_refl (a ∷ s) = rw (==_refl a) (eq_text_refl s)
