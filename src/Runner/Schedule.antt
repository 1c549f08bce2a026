-- ===== src/Runner/Schedule.antt =====
-- src/runner/runner.ts, `enqueue` and `blockingJob`: which intents are accepted, and as which job.
pub mod Suppression
use waterx_agent.Prelude.{
  ℕ, ◌+◌, ◌-◌, ◌/◌, String, Bool, true, false, not, ◌&&◌, List, [], ◌∷◌, Option, none, some, leb,
  ltb, if◌then◌else◌, is_some, get_or_else, Number, finite, zero_number, is_finite, gtb_number,
  str_eq, sub_ℕ,
}
use waterx_agent.Runner.Types.{
  Intent, Job, JobState, queued, unresolved, expired, is_terminal, Note, accepted, JobEvent,
}
use waterx_agent.Runner.Store.{is_cooling}

pub record Schedule : Type 0 where
  pub not_before : Option ℕ
  pub expires_at : Option ℕ
  pub key : Option String
  pub cooldown_ms : Option Number
  pub inbox_id : Option ℕ

-- Why a keyed intent is not accepted, by the job that blocks it.
pub data Blocker : Type 0 where
  in_play : ℕ → JobState → Blocker
  outcome_unknown : ℕ → Blocker
  in_cooldown : Blocker

-- `job.key === key`
abbrev pub has_key : String → Job → Bool
has_key key job = elim job.key [ none ↦ false | some k ↦ str_eq k key ]

-- `at - job.updatedAt < cooldownMs`, for the cooldown that is asked for now.
abbrev pub in_window : Option Number → ℕ → Job → Bool
in_window none now job = false
in_window (some cooldown) now job = gtb_number cooldown (finite (sub_ℕ now job.updated_at))

-- What one job with the key says, by its state; `hot` is the test of the cooldown.
unfoldable pub verdict_of : (id : ℕ) → JobState → (hot : Bool) → Option Blocker
verdict_of id unresolved hot = some (outcome_unknown id)
verdict_of id expired hot = none
verdict_of id state hot =
    if not (is_terminal state)
    then some (in_play id state)
    else if hot
    then some in_cooldown
    else none

-- One round of the loop: a job with another key is passed over.
abbrev pub first_blocker : (keyed : Bool) → (verdict rest : Option Blocker) → Option Blocker
first_blocker false verdict rest = rest
first_blocker true none rest = rest
first_blocker true (some blocker) rest = some blocker

-- `blockingJob`
unfoldable pub blocking_job : String → Option Number → ℕ → List Job → Option Blocker
unfolding verdict_of
blocking_job key cooldown now [] = none
blocking_job key cooldown now (job ∷ jobs) =
    first_blocker (has_key key job) (verdict_of job.id job.state (in_window cooldown now job))
      (blocking_job key cooldown now jobs)

pub data Refusal : Type 0 where
  cooldown_without_key cooldown_bounds_nothing : Refusal
  deferred_without_expiry expiry_before_start : Refusal

-- How `enqueue` ends: it throws, it returns `undefined`, or it stores a job and returns it.
pub data Enqueued : Type 0 where
  refuses : Refusal → Enqueued
  skips : Blocker → Enqueued
  accepts : Job → Enqueued

-- `cooldownMs !== undefined && (!Number.isFinite(cooldownMs) || cooldownMs <= 0)`
abbrev pub bounds_nothing : Option Number → Bool
bounds_nothing none = false
bounds_nothing (some c) = if not (is_finite c) then true else not (gtb_number c zero_number)

abbrev pub blocked : Option String → Option Number → ℕ → List Job → Option Blocker
blocked none cooldown now jobs = none
blocked (some key) cooldown now jobs = blocking_job key cooldown now jobs

-- `expiresAt !== undefined && expiresAt <= (notBefore ?? at)`
abbrev pub expires_first : Schedule → ℕ → Bool
expires_first s now = elim s.expires_at [
  | none ↦ false
  | some expiry ↦ leb expiry (get_or_else s.not_before now)
]

-- The job that `enqueue` builds.
abbrev pub new_job : ℕ → Intent → Schedule → ℕ → Job
new_job id intent s now = record {
  id = id;
  state = queued;
  intent = intent;
  created_at = now;
  updated_at = now;
  not_before = s.not_before;
  expires_at = s.expires_at;
  key = s.key;
  cooldown_ms = s.cooldown_ms;
  inbox_id = s.inbox_id;
  digest = none;
  digest_at = none;
  submitted_at = none;
  order_ids = none;
  attempts = 0;
  error = none;
  events = record { at = now; state = queued; note = accepted } ∷ [];
}

-- `enqueue`, for the id that is drawn and the jobs in the store.
unfoldable pub enqueue : ℕ → Intent → Schedule → ℕ → List Job → Enqueued
enqueue id intent s now jobs =
    if is_some s.cooldown_ms && not (is_some s.key)
    then refuses cooldown_without_key
    else if bounds_nothing s.cooldown_ms
    then refuses cooldown_bounds_nothing
    else elim (blocked s.key s.cooldown_ms now jobs) [
      | some blocker ↦ skips blocker
      | none ↦
          if is_some s.not_before && not (is_some s.expires_at)
          then refuses deferred_without_expiry
          else if expires_first s now
          then refuses expiry_before_start
          else accepts (new_job id intent s now)
    ]
