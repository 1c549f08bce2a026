-- ===== src/Verify/Reach/Ends.antt =====
-- The walk of `reachableFrom` ends: each deeper call has marked one more command.
use waterx_agent.Prelude.{
  ℕ, zero, suc, ◌+◌, ◌≤◌, ◌<◌, false, List, [], ◌∷◌, Option, none, some, ◌==◌, if◌then◌else◌,
  get_elem?, length, ◌≡◌, refl, arith, Bool-cases, inl, inr, ==_iff,
}
use waterx_agent.Verify.Text.{Text}
use waterx_agent.Verify.Transaction.{
  Argument, input, result, nested_result, gas_coin, Command, Decoded, arguments_of, pure_input,
  Bytes,
}
use waterx_agent.Verify.Reach.{
  Walk, member, mark, add_input, note_constructor, nothing_seen, and_then, walk_arguments, visit,
  walk, reachable_from,
}

-- How many of the first `n` commands the walk has not seen.
abbrev pub unseen : ℕ → List ℕ → ℕ
unseen zero seen = 0
unseen (suc n) seen = (if member n seen then 0 else 1) + unseen n seen

unseen-cons_le : (n i : ℕ) (seen : List ℕ) → unseen n (i ∷ seen) ≤ unseen n seen
unseen-cons_le zero i seen = omega arith
unseen-cons_le (suc n) i seen = ground (arith, unseen-cons_le n i seen)

unseen-cons_lt :
    (n i : ℕ) (seen : List ℕ) → i < n → member i seen ≡ false → unseen n (i ∷ seen) < unseen n seen
unseen-cons_lt zero i seen h e = absurd (omega arith)
unseen-cons_lt (suc n) i seen h e = elim (Bool-cases (n == i)) [
  | inl same ↦ let p : n ≡ i = (==_iff n i).0 same in ground (arith, unseen-cons_le n i seen)
  | inr other ↦ ground (arith, unseen-cons_lt n i seen)
]

get_elem-lt :
    (commands : List Command) (i : ℕ) (c : Command)
    → get_elem? commands i ≡ some c
    → i < length commands
get_elem-lt [] i c h = absurd (ground arith)
get_elem-lt (x ∷ xs) zero c h = omega arith
get_elem-lt (x ∷ xs) (suc i) c h = omega (arith, get_elem-lt xs i c h)

unseen-none : (n : ℕ) → unseen n [] ≡ n
unseen-none zero = refl
unseen-none (suc n) = omega (arith, unseen-none n)

-- A walk that ended, with no more unseen than before.
abbrev pub Ended : ℕ → Walk → Option Walk → Type 0
Ended n w r = (v : Walk) × (r ≡ some v) × (unseen n v.seen ≤ unseen n w.seen)

-- A step that ends from wherever at most `m` commands are unseen.
abbrev Steps : ℕ → ℕ → (ℕ → Walk → Option Walk) → Type 0
Steps n m step = (i : ℕ) (w : Walk) → unseen n w.seen ≤ m → Ended n w (step i w)

Ended-and_then :
    (n : ℕ) (w : Walk) (r : Option Walk) (k : Walk → Option Walk)
    → Ended n w r
    → ((v : Walk) → unseen n v.seen ≤ unseen n w.seen → Ended n v (k v))
    → Ended n w (and_then r k)
Ended-and_then n w r k (v, e, le) next = let (u, f, below) = next v le in (u, (rw e f), omega arith)

add_input-seen : (o : Option Bytes) (w : Walk) → (add_input o w).seen ≡ w.seen
add_input-seen none w = refl
add_input-seen (some bytes) w = refl

note_constructor-seen :
    (p : Option Text) (i : ℕ) (c : Command) (w : Walk) → (note_constructor p i c w).seen ≡ w.seen
unfolding note_constructor
note_constructor-seen p i c w = ground arith

module _ (t : Decoded) (p : Option Text) (n : ℕ) where
  walk_arguments-Ended :
      (m : ℕ) (step : ℕ → Walk → Option Walk)
      → Steps n m step
      → (args : List Argument) (w : Walk) → unseen n w.seen ≤ m
      → Ended n w (walk_arguments t p step args w)
  unfolding walk_arguments
  walk_arguments-Ended m step s [] w h = (w, refl, omega arith)
  walk_arguments-Ended m step s (input i ∷ rest) w h =
      let kept = add_input-seen (pure_input (get_elem? t.inputs i)) w in
      let v = add_input (pure_input (get_elem? t.inputs i)) w in
      let below : unseen n v.seen ≤ m = rw kept h in
      let (u, e, le) = walk_arguments-Ended m step s rest v below in (u, e, rw kept at le)
  walk_arguments-Ended m step s (result i ∷ rest) w h =
      Ended-and_then n w (step i w) (walk_arguments t p step rest) (s i w h)
        (λ v le. walk_arguments-Ended m step s rest v (omega arith))
  walk_arguments-Ended m step s (nested_result i j ∷ rest) w h =
      Ended-and_then n w (step i w) (walk_arguments t p step rest) (s i w h)
        (λ v le. walk_arguments-Ended m step s rest v (omega arith))
  walk_arguments-Ended m step s (gas_coin ∷ rest) w h = walk_arguments-Ended m step s rest w h

module _ (t : Decoded) (p : Option Text) where
  visit-Ended :
      (step : ℕ → Walk → Option Walk) (i : ℕ) (w : Walk) (c : Option Command)
      → get_elem? t.commands i ≡ c
      → (i < length t.commands
          → Steps (length t.commands) (unseen (length t.commands) (i ∷ w.seen)) step)
      → Ended (length t.commands) w (visit t p step i c (mark i w))
  unfolding visit
  visit-Ended step i w none e s = (mark i w, refl, unseen-cons_le (length t.commands) i w.seen)
  visit-Ended step i w (some c) e s =
      let n = length t.commands in
      let kept = note_constructor-seen p i c (mark i w) in
      let v = note_constructor p i c (mark i w) in
      let below : unseen n v.seen ≤ unseen n (i ∷ w.seen) = rw kept (omega arith) in
      let (u, f, le) =
        walk_arguments-Ended t p n (unseen n (i ∷ w.seen)) step (s (get_elem-lt t.commands i c e))
          (arguments_of c) v below in
      (u, f, omega (arith, rw kept at le, unseen-cons_le n i w.seen))

  -- A walk with more fuel than there are commands unseen.
  walk-Ended :
      (fuel i : ℕ) (w : Walk)
      → unseen (length t.commands) w.seen < fuel
      → Ended (length t.commands) w (walk t p fuel i w)
  unfolding walk
  walk-Ended zero i w h = absurd (omega arith)
  walk-Ended (suc fuel) i w h = elim (Bool-cases (member i w.seen)) [
    | inl seen_before ↦ rw seen_before (w, refl, omega arith)
    | inr fresh ↦ rw fresh (
        visit-Ended (walk t p fuel) i w (get_elem? t.commands i) refl (λ lt j v le.
          walk-Ended fuel j v
            (omega (arith, unseen-cons_lt (length t.commands) i w.seen lt fresh))))
  ]

-- The walk from a command ends within a depth of one more than the number of commands, whatever
-- the arguments refer to, cycles and commands that are not there included; `reachableFrom` is what
-- it returns.
pub reachable_from-ends :
    (t : Decoded) (p : Option Text) (i : ℕ)
    → walk t p (suc (length t.commands)) i nothing_seen ≡ some (reachable_from t p i)
unfolding reachable_from
reachable_from-ends t p i =
    let (v, e, le) =
      walk-Ended t p (suc (length t.commands)) i nothing_seen
        (omega (arith, unseen-none (length t.commands))) in
    rw e refl
