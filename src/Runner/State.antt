-- ===== src/Runner/State.antt =====
-- src/runner/runner.ts: the runner's state, what its surroundings answer during one pass, and the
-- two ways in which a job changes, `transition` and `finish`.
use waterx_agent.Prelude.{ℕ, String, Bool, List, [], ◌∷◌, ◌++◌, Option, some, Number}
use waterx_agent.Runner.Types.{
  Intent, Job, JobState, failed, unresolved, Note, RunnerLimits, Failure,
}
use waterx_agent.Runner.Store.{update}
use waterx_agent.Runner.Stops.{Position, OrderResponse}
use waterx_agent.Runner.Reconcile.{Lookup, History}
use waterx_agent.Runner.Request.{AgentCall, PositionsRead}

-- src/runner/inbox.ts: an intent as it waits for the runner.
pub record InboxEntry : Type 0 where
  pub intent : Intent
  pub not_before : Option ℕ
  pub expires_at : Option ℕ
  pub key : Option String
  pub cooldown_ms : Option Number

-- A file of the inbox, under its name.
pub record InboxFile : Type 0 where
  pub id : ℕ
  pub entry : InboxEntry

-- `jobs` is the store. `sent` is no part of the program: it notes for each job the transactions
-- whose bytes left the process. `next_id` stands for the fresh ids that `randomUUID` draws.
pub record Runner : Type 0 where
  pub jobs : List Job
  pub inbox : List InboxFile
  pub has_inbox : Bool
  pub fit_stops_enabled : Bool
  pub limits : RunnerLimits
  pub next_id : ℕ
  pub sent : List (ℕ × String)

-- What follows once the digest is recorded.
pub data AfterDigest : Type 0 where
  -- The call returns with a digest.
  confirmed : String → AfterDigest
  -- It throws, and the bytes may be on their way.
  lost : Failure → AfterDigest
  -- The process dies.
  dies_after_digest : AfterDigest

-- How a call of the agent goes. The executor awaits `onSubmitting` before the bytes leave, so no
-- call returns without it.
pub data Attempt : Type 0 where
  refused_early : Failure → Attempt
  dies_before_digest : Attempt
  signs : String → AfterDigest → Attempt

-- The answers of the agent, the chain, the backend and the file system during one pass. `now` is
-- read once; `alive` says for each job whether the process still runs when the loop comes to it.
pub record Answers : Type 0 where
  pub now : ℕ
  pub alive : ℕ → Bool
  pub agent : ℕ → AgentCall → Attempt
  pub lookup : String → Lookup
  pub history : History
  pub positions : Option (List Position)
  pub positions_at_write : PositionsRead
  pub orders : Option (List OrderResponse)
  pub removes : ℕ → Bool

-- What `transition` writes into the job, before the caller's own change.
abbrev pub moved_to : JobState → Note → ℕ → Job → Job
moved_to state note now j = record j {
  state = state;
  updated_at = now;
  events = j.events ++ record { at = now; state = state; note = note } ∷ [];
}

-- `transition`
unfoldable pub transition : Runner → ℕ → JobState → Note → ℕ → (Job → Job) → Runner
transition r id state note now mutate = record r {
  jobs = update id (λ j. mutate (moved_to state note now j)) r.jobs;
}

-- The change that `finish` hands to `transition`.
abbrev pub with_error : JobState → Note → Job → Job
with_error failed note j = record j { error = some note }
with_error unresolved note j = record j { error = some note }
with_error _ note j = j

-- `finish`
unfoldable pub finish : Runner → ℕ → JobState → Note → ℕ → Runner
unfolding transition
finish r id state note now = transition r id state note now (with_error state note)
