-- ===== src/Runner/Submit.antt =====
-- src/runner/runner.ts, `submit` and `resolveAmbiguous`: the states between `queued` and
-- `submitted`.
use waterx_agent.Prelude.{
  ℕ, ◌+◌, String, Bool, true, false, [], ◌∷◌, ◌++◌, none, some, leb, if◌then◌else◌, get_or_else,
}
use waterx_agent.Runner.Types.{
  Job, queued, submitting, submitted, failed, unresolved, attempt, digest_noted, on_chain, not_sent,
  refused, gave_up, no_digest, chain_confirms, execution_failed, never_seen, Failure,
}
use waterx_agent.Runner.Failures.{is_final}
use waterx_agent.Runner.Store.{update}
use waterx_agent.Runner.Reconcile.{LandedVerdict, landed, aborted, never_landed, unknown, did_land}
use waterx_agent.Runner.Request.{AgentCall, Planned, calls, throws, plan}
use waterx_agent.Runner.State.{
  Runner, AfterDigest, confirmed, lost, dies_after_digest, Attempt, refused_early,
  dies_before_digest, signs, Answers, transition, finish,
}

-- The first write of `submit`.
abbrev pub starts_attempt : Job → Job
starts_attempt j = record j {
  attempts = j.attempts + 1;
  digest = none;
  digest_at = none;
  submitted_at = none;
}

-- The write of `onSubmitting`.
abbrev pub notes_digest : String → ℕ → Job → Job
notes_digest digest now j = record j {
  digest = some digest;
  digest_at = some now;
  updated_at = now;
  events = j.events ++ record { at = now; state = submitting; note = digest_noted digest } ∷ [];
}

-- `onSubmitting`, after which the bytes leave.
unfoldable pub record_digest : Runner → ℕ → String → ℕ → Runner
record_digest r id digest now = record r {
  jobs = update id (notes_digest digest now) r.jobs;
  sent = (id, digest) ∷ r.sent;
}

abbrev pub confirms : String → ℕ → Job → Job
confirms digest now j = record j { digest = some digest; submitted_at = some now }

-- The `catch` in `submit` when no digest was seen.
unfoldable pub give_back : Runner → ℕ → Failure → ℕ → Runner
give_back r id failure now =
    if is_final failure
    then finish r id failed (refused failure) now
    else transition r id queued (not_sent failure) now (λ j. j)

-- The rest of `submit` once the digest is recorded; also whether the process lives on.
unfoldable pub after_digest : Runner → ℕ → AfterDigest → ℕ → Runner × Bool
after_digest r id (confirmed digest) now =
    (transition r id submitted (on_chain digest) now (confirms digest now), true)
after_digest r id (lost failure) now = (r, true)
after_digest r id dies_after_digest now = (r, false)

unfoldable pub attempt_call : Runner → ℕ → Attempt → ℕ → Runner × Bool
unfolding record_digest give_back after_digest
attempt_call r id (refused_early failure) now = (give_back r id failure now, true)
attempt_call r id dies_before_digest now = (r, false)
attempt_call r id (signs digest rest) now = after_digest (record_digest r id digest now) id rest now

abbrev pub perform : Runner → ℕ → (AgentCall → Attempt) → Planned → ℕ → Runner × Bool
perform r id agent (calls call) now = attempt_call r id (agent call) now
perform r id agent (throws failure) now = attempt_call r id (refused_early failure) now

-- `submit`
unfoldable pub submit : Runner → Answers → Job → Runner × Bool
submit r a job =
    if leb r.limits.max_attempts job.attempts
    then (finish r job.id failed (gave_up job.attempts) a.now, true)
    else perform (transition r job.id submitting (attempt (job.attempts + 1)) a.now starts_attempt)
        job.id (a.agent job.id) (plan a.positions_at_write job.intent) a.now

abbrev pub sees_submitted : ℕ → Job → Job
sees_submitted now j = record j { submitted_at = some now }

-- The `switch` on the verdict in `resolveAmbiguous`.
unfoldable pub resolve_by : Runner → ℕ → String → ℕ → LandedVerdict → Runner
resolve_by r id digest now landed =
    transition r id submitted (chain_confirms digest) now (sees_submitted now)
resolve_by r id digest now (aborted reason) =
    finish r id failed (execution_failed digest reason) now
resolve_by r id digest now never_landed = finish r id unresolved (never_seen digest) now
resolve_by r id digest now unknown = r

-- `resolveAmbiguous`
unfoldable pub resolve_ambiguous : Runner → Answers → Job → Runner
unfolding resolve_by
resolve_ambiguous r a job = elim job.digest [
  | none ↦ transition r job.id queued no_digest a.now (λ j. j)
  | some digest ↦ resolve_by r job.id digest a.now (
      did_land (a.lookup digest) (get_or_else job.digest_at job.updated_at)
        r.limits.digest_settle_ms a.now)
]
