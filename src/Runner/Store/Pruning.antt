-- ===== src/Runner/Store/Pruning.antt =====
-- `pruneFinished` (src/runner/store.ts): what is never dropped, and what is.
use waterx_agent.Prelude.{
  ℕ, ◌+◌, ◌≤◌, ◌≡◌, ◌≢◌, ◌⊎◌, inl, inr, true, false, List, none, some, arith, length,
  length-filter_le, Bool-cases,
}
use waterx_agent.Runner.Types.{Job, unresolved, is_terminal}
use waterx_agent.Runner.Store.{
  get, is_kept, is_cooling, prune_finished, Rising, Rising-filter, get-filter, get-filter-some,
}

-- A job that retention does not touch.
abbrev pub IsProtected : (now : ℕ) → Job → Type 0
IsProtected now j =
    (is_terminal j.state ≡ false) ⊎ ((j.state ≡ unresolved) ⊎ (is_cooling now j ≡ true))

protected-is_kept :
    (retention now : ℕ) (j : Job) → IsProtected now j → is_kept retention now j ≡ true
unfolding is_kept
protected-is_kept retention now j p = ground arith

-- It ended, with a known outcome, is not cooling, and is as old as the retention.
abbrev pub IsDroppable : (retention now : ℕ) → Job → Type 0
IsDroppable retention now j =
    (is_terminal j.state ≡ true)
    × (j.state ≢ unresolved)
    × (is_cooling now j ≡ false)
    × (retention + j.updated_at ≤ now)

dropped-is_kept :
    (retention now : ℕ) (j : Job) → is_kept retention now j ≡ false → IsDroppable retention now j
unfolding is_kept
dropped-is_kept retention now j h = ground arith

prune_finished-IsDroppable :
    (retention now : ℕ) (jobs : List Job) (i : ℕ) (j : Job)
    → Rising 0 jobs
    → get i jobs ≡ some j
    → get i (prune_finished retention now jobs).0 ≡ none
    → IsDroppable retention now j
unfolding prune_finished
prune_finished-IsDroppable retention now jobs i j r found gone =
    elim (Bool-cases (is_kept retention now j)) [
      | inl kept ↦ cc (get-filter (is_kept retention now) i 0 jobs j r found kept)
      | inr dropped ↦ dropped-is_kept retention now j dropped
    ]

-- In a store with rising ids, pruning keeps every unfinished, unresolved or cooling job as it is
-- and adds nothing; a job that it drops had ended, with a known outcome, outside its cooldown, and
-- no less long ago than the retention; it reports the number of jobs that it dropped, and the ids
-- still rise.
pub prune_finished_lem :
    (retention now : ℕ) (jobs : List Job)
    → Rising 0 jobs
    → let (kept, dropped) = prune_finished retention now jobs in
      ((i : ℕ) (j : Job) → get i jobs ≡ some j → IsProtected now j → get i kept ≡ some j)
      × ((i : ℕ) (j : Job) → get i kept ≡ some j → get i jobs ≡ some j)
      × ((i : ℕ) (j : Job) → get i jobs ≡ some j → get i kept ≡ none → IsDroppable retention now j)
      × (length kept + dropped ≡ length jobs)
      × Rising 0 kept
unfolding prune_finished
prune_finished_lem retention now jobs r = (
  λ i j found p.
      get-filter (is_kept retention now) i 0 jobs j r found (protected-is_kept retention now j p),
  λ i j found. get-filter-some (is_kept retention now) i 0 jobs j r found,
  λ i j found gone. prune_finished-IsDroppable retention now jobs i j r found gone,
  omega (arith, length-filter_le (is_kept retention now) jobs),
  Rising-filter (is_kept retention now) 0 jobs r,
)
