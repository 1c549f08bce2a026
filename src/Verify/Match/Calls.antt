-- ===== src/Verify/Match/Calls.antt =====
-- The calls of a transaction by their places and by their names.
use waterx_agent.Prelude.{
  ℕ, zero, suc, ◌+◌, String, Bool, true, false, List, [], ◌∷◌, some, if◌then◌else◌, get_elem?, ◌≡◌,
  refl, arith, All, subst, ◌≢◌, includes, str_eq,
}
use waterx_agent.Verify.Transaction.{
  MoveCall, Command, move_call, make_move_vec, other_command, call_of,
}
use waterx_agent.Verify.Arguments.{name_of}
use waterx_agent.Verify.Match.{entrypoints_of, calls_from}

-- What holds of every entrypoint holds of the name of each call.
pub All-entrypoints_of {κ} :
    (P : String → Type κ) (commands : List Command) (i : ℕ) (c : MoveCall)
    → All P (entrypoints_of commands)
    → call_of (get_elem? commands i) ≡ some c
    → P (name_of c)
unfolding entrypoints_of
All-entrypoints_of P [] i c a e = absurd (cc)
All-entrypoints_of P (move_call b ∷ commands) zero c a e =
    let same : b ≡ c = ground arith in subst (λ (x : MoveCall). P (name_of x)) same a.0
All-entrypoints_of P (make_move_vec es ∷ commands) zero c a e = absurd (cc)
All-entrypoints_of P (other_command k es ∷ commands) zero c a e = absurd (cc)
All-entrypoints_of P (move_call b ∷ commands) (suc i) c a e =
    All-entrypoints_of P commands i c a.1 e
All-entrypoints_of P (make_move_vec es ∷ commands) (suc i) c a e =
    All-entrypoints_of P commands i c a e
All-entrypoints_of P (other_command k es ∷ commands) (suc i) c a e =
    All-entrypoints_of P commands i c a e

All-if {κ} :
    (P : ℕ → Type κ) (b : Bool) (i : ℕ) (is : List ℕ) → All P (if b then i ∷ is else is) → All P is
All-if P true i is a = a.1
All-if P false i is a = a

All-if_true {κ} :
    (P : ℕ → Type κ) (b : Bool) (i : ℕ) (is : List ℕ)
    → All P (if b then i ∷ is else is)
    → b ≡ true
    → P i
All-if_true P true i is a e = a.0
All-if_true P false i is a e = absurd (cc)

-- What holds of every place that is counted holds of the place of each call with such a name.
pub All-calls_from {κ} :
    (P : ℕ → Type κ) (p : String → Bool) (k : ℕ) (commands : List Command) (i j : ℕ) (c : MoveCall)
    → All P (calls_from p k commands)
    → call_of (get_elem? commands i) ≡ some c
    → p (name_of c) ≡ true
    → k + i ≡ j
    → P j
unfolding calls_from
All-calls_from P p k [] i j c a e q s = absurd (cc)
All-calls_from P p k (move_call b ∷ commands) zero j c a e q s =
    let same : c ≡ b = ground arith in
    let here : k ≡ j = omega arith in
    subst P here (All-if_true P (p (name_of b)) k _ a (rw same at q))
All-calls_from P p k (make_move_vec es ∷ commands) zero j c a e q s = absurd (cc)
All-calls_from P p k (other_command o es ∷ commands) zero j c a e q s = absurd (cc)
All-calls_from P p k (move_call b ∷ commands) (suc i) j c a e q s =
    All-calls_from P p (suc k) commands i j c (All-if P (p (name_of b)) k _ a) e q (omega arith)
All-calls_from P p k (make_move_vec es ∷ commands) (suc i) j c a e q s =
    All-calls_from P p (suc k) commands i j c a e q (omega arith)
All-calls_from P p k (other_command o es ∷ commands) (suc i) j c a e q s =
    All-calls_from P p (suc k) commands i j c a e q (omega arith)

if_cons : (b : Bool) (i : ℕ) (is : List ℕ) → (b ≡ false → is ≢ []) → (if b then i ∷ is else is) ≢ []
if_cons true i is h e = absurd (ground arith)
if_cons false i is h e = h refl e

-- An entrypoint that is called is called in some place.
pub calls_from-ne_nil :
    (name : String) (k : ℕ) (commands : List Command)
    → includes (entrypoints_of commands) name ≡ true
    → calls_from (λ n. str_eq n name) k commands ≢ []
unfolding entrypoints_of calls_from
calls_from-ne_nil name k [] h = absurd (cc)
calls_from-ne_nil name k (move_call c ∷ commands) h =
    if_cons (str_eq (name_of c) name) k _
      (λ other. calls_from-ne_nil name (suc k) commands (rw other at h))
calls_from-ne_nil name k (make_move_vec es ∷ commands) h = calls_from-ne_nil name (suc k) commands h
calls_from-ne_nil name k (other_command o es ∷ commands) h =
    calls_from-ne_nil name (suc k) commands h
