-- ===== src/Runner/Store.antt =====
-- src/runner/store.ts: the operations of `JobStore` on the list of jobs. A write is the new list: a
-- flush that fails is not modelled.
pub mod Updates
pub mod Pruning
use waterx_agent.Prelude.{
  ℕ, ◌+◌, ◌-◌, Bool, true, false, not, ◌&&◌, List, [], ◌∷◌, ◌++◌, Option, none, some, ltb,
  if◌then◌else◌, length, filter, finite, sub_ℕ, gtb_number,
}
use Updates.{get, update}
unfoldable pub use Updates.*
use waterx_agent.Runner.Types.{Job, JobState, is_terminal, unresolved}

-- `add`
abbrev pub add : Job → List Job → List Job
add job jobs = jobs ++ job ∷ []

-- `job.cooldownMs !== undefined && now - job.updatedAt < job.cooldownMs`
abbrev pub is_cooling : ℕ → Job → Bool
is_cooling now job = elim job.cooldown_ms [
  | none ↦ false
  | some cooldown ↦ gtb_number cooldown (finite (sub_ℕ now job.updated_at))
]

abbrev is_unresolved : JobState → Bool
is_unresolved unresolved = true
is_unresolved _ = false

-- The test of `pruneFinished`: is this job kept?
unfoldable pub is_kept : (retention_ms now : ℕ) → Job → Bool
is_kept retention_ms now job =
    if not (is_terminal job.state)
    then true
    else if is_unresolved job.state
    then true
    else if is_cooling now job
    then true
    else ltb now (retention_ms + job.updated_at)

-- `pruneFinished`: the jobs that stay, and how many were dropped.
unfoldable pub prune_finished : (retention_ms now : ℕ) → List Job → List Job × ℕ
prune_finished retention_ms now jobs =
    let kept = filter (is_kept retention_ms now) jobs in (kept, length jobs - length kept)
