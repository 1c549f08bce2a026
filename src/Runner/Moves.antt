-- ===== src/Runner/Moves.antt =====
-- The specification of the runner: what may happen to one job, and to the store, in one move. The
-- files below show that the code of src/runner/runner.ts makes such moves only.
pub mod Changes
pub mod Outcomes
pub mod Passes
pub mod AtMostOnce
pub mod History
pub mod Lasting
pub mod Attempts
pub mod Halting
use waterx_agent.Prelude.{
  ℕ, ◌+◌, ◌≤◌, ◌<◌, ◌≡◌, ◌≢◌, String, Bool, true, false, List, [], ◌∷◌, none, some, filter,
}
use waterx_agent.Runner.Types.{
  Job, JobState, queued, submitting, submitted, filled, cancelled, failed, unresolved, expired,
  is_terminal,
}
use waterx_agent.Runner.Store.{get, update, add, is_kept}
use waterx_agent.Runner.State.{Runner}

-- In which terminal states a job may end, by the state that it leaves.
abbrev pub may_end : JobState → JobState → Bool
may_end queued expired = true
may_end queued failed = true
may_end queued cancelled = true
may_end submitting failed = true
may_end submitting unresolved = true
may_end submitted filled = true
may_end submitted cancelled = true
may_end submitted unresolved = true
may_end _ _ = false

-- A change of one job, `j` before and `k` after, that sends nothing.
pub data JobStep (max_attempts : ℕ) (j k : Job) : Type 0 where
  -- Its state, digest and attempts stay.
  adjusts :
      k.state ≡ j.state → k.digest ≡ j.digest → k.attempts ≡ j.attempts → JobStep max_attempts j k
  -- An attempt begins, while there are attempts left.
  starts :
      j.state ≡ queued
      → j.attempts < max_attempts
      → k.state ≡ submitting
      → k.digest ≡ none
      → k.attempts ≡ j.attempts + 1
      → JobStep max_attempts j k
  -- Nothing was signed, so the job waits again.
  gives_back :
      j.state ≡ submitting
      → j.digest ≡ none
      → k.state ≡ queued
      → k.attempts ≡ j.attempts
      → JobStep max_attempts j k
  -- A transaction whose digest is recorded was seen on chain.
  confirms :
      j.state ≡ submitting
      → j.digest ≢ none
      → k.state ≡ submitted
      → k.attempts ≡ j.attempts
      → JobStep max_attempts j k
  ends : may_end j.state k.state ≡ true → k.attempts ≡ j.attempts → JobStep max_attempts j k

-- What a move leaves alone.
pub record Frame (r s : Runner) : Type 0 where
  pub next_same : s.next_id ≡ r.next_id
  pub sent_same : s.sent ≡ r.sent
  pub limits_same : s.limits ≡ r.limits

-- One move of the runner. Only `sends` lets a transaction out.
pub data Move (r s : Runner) : Type 0 where
  idles : s.jobs ≡ r.jobs → s.sent ≡ r.sent → s.limits ≡ r.limits → r.next_id ≤ s.next_id → Move r s
  changes :
      (i : ℕ) (f : Job → Job) (j : Job)
      → get i r.jobs ≡ some j
      → ((x : Job) → (f x).id ≡ x.id)
      → JobStep r.limits.max_attempts j (f j)
      → s.jobs ≡ update i f r.jobs
      → Frame r s
      → Move r s
  -- The digest is recorded first: the job is `submitting`, and had none.
  sends :
      (i : ℕ) (f : Job → Job) (j : Job) (digest : String)
      → get i r.jobs ≡ some j
      → ((x : Job) → (f x).id ≡ x.id)
      → j.state ≡ submitting
      → j.digest ≡ none
      → (f j).state ≡ submitting
      → (f j).digest ≡ some digest
      → (f j).attempts ≡ j.attempts
      → s.jobs ≡ update i f r.jobs
      → s.sent ≡ (i, digest) ∷ r.sent
      → s.next_id ≡ r.next_id
      → s.limits ≡ r.limits
      → Move r s
  takes :
      (j : Job)
      → j.id ≡ r.next_id
      → j.state ≡ queued
      → j.attempts ≡ 0
      → s.jobs ≡ add j r.jobs
      → s.next_id ≡ r.next_id + 1
      → s.sent ≡ r.sent
      → s.limits ≡ r.limits
      → Move r s
  drops :
      (now : ℕ) → s.jobs ≡ filter (is_kept r.limits.retention_ms now) r.jobs → Frame r s → Move r s

pub data Moves (r : Runner) : Runner → Type 0 where
  here : Moves r r
  more : {s t : Runner} → Moves r s → Move s t → Moves r t

pub Moves-trans : {r s t : Runner} → Moves r s → Moves s t → Moves r t
Moves-trans m here = m
Moves-trans m (more n step) = more (Moves-trans m n) step

pub Moves-one : {r s : Runner} → Move r s → Moves r s
Moves-one m = more here m
