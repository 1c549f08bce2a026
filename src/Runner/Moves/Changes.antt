-- ===== src/Runner/Moves/Changes.antt =====
-- `submit` and `resolveAmbiguous` (src/runner/runner.ts) make moves of the specification only.
use waterx_agent.Prelude.{
  ℕ, ◌≡◌, refl, ◌≢◌, inl, inr, String, true, none, some, arith, Bool-cases, Option-cases, leb,
  ==_refl,
}
use waterx_agent.Runner.Types.{
  Job, JobState, queued, submitting, submitted, failed, unresolved, Note, Failure,
}
use waterx_agent.Runner.Failures.{is_final}
use waterx_agent.Runner.Store.{get, get-update}
use waterx_agent.Runner.Reconcile.{LandedVerdict, landed, aborted, never_landed, unknown}
use waterx_agent.Runner.Request.{AgentCall, Planned, calls, throws, plan}
use waterx_agent.Runner.State.{
  Runner, AfterDigest, confirmed, lost, dies_after_digest, Attempt, refused_early,
  dies_before_digest, signs, Answers, moved_to, transition, with_error, finish,
}
use waterx_agent.Runner.Submit.{
  starts_attempt, notes_digest, record_digest, confirms, give_back, after_digest, attempt_call,
  perform, submit, sees_submitted, resolve_by, resolve_ambiguous,
}
use waterx_agent.Runner.Moves.{
  may_end, JobStep, starts, gives_back, ends, Move, changes, sends, Moves, here, Moves-one,
  Moves-trans,
}

pub transition-Move :
    (r : Runner) (i : ℕ) (state : JobState) (note : Note) (now : ℕ) (mutate : Job → Job) (j : Job)
    → get i r.jobs ≡ some j
    → ((x : Job) → (mutate x).id ≡ x.id)
    → JobStep r.limits.max_attempts j (mutate (moved_to state note now j))
    → Move r (transition r i state note now mutate)
unfolding transition
transition-Move r i state note now mutate j found same step =
    changes i (λ x. mutate (moved_to state note now x)) j found
      (λ x. same (moved_to state note now x)) step refl
      (record { next_same = refl; sent_same = refl; limits_same = refl })

-- The job as it stands after a transition.
pub transition-get :
    (r : Runner) (i : ℕ) (state : JobState) (note : Note) (now : ℕ) (mutate : Job → Job) (j : Job)
    → get i r.jobs ≡ some j
    → ((x : Job) → (mutate x).id ≡ x.id)
    → get i (transition r i state note now mutate).jobs ≡ some (mutate (moved_to state note now j))
unfolding transition
transition-get r i state note now mutate j found same = ground (
  arith,
  get-update i i (λ x. mutate (moved_to state note now x)) r.jobs j
      (λ x. same (moved_to state note now x)) found,
  ==_refl i,
)

with_error-id : (state : JobState) (note : Note) (j : Job) → (with_error state note j).id ≡ j.id
with_error-id failed note j = refl
with_error-id unresolved note j = refl
with_error-id _ note j = refl

with_error-state :
    (state : JobState) (note : Note) (j : Job) → (with_error state note j).state ≡ j.state
with_error-state failed note j = refl
with_error-state unresolved note j = refl
with_error-state _ note j = refl

with_error-attempts :
    (state : JobState) (note : Note) (j : Job) → (with_error state note j).attempts ≡ j.attempts
with_error-attempts failed note j = refl
with_error-attempts unresolved note j = refl
with_error-attempts _ note j = refl

pub finish-Move :
    (r : Runner) (i : ℕ) (state : JobState) (note : Note) (now : ℕ) (j : Job)
    → get i r.jobs ≡ some j
    → may_end j.state state ≡ true
    → Move r (finish r i state note now)
unfolding finish
finish-Move r i state note now j found may =
    transition-Move r i state note now (with_error state note) j found (with_error-id state note) (
      ends (rw (with_error-state state note (moved_to state note now j)) may)
        (with_error-attempts state note (moved_to state note now j)))

give_back-Move :
    (r : Runner) (i : ℕ) (failure : Failure) (now : ℕ) (j : Job)
    → get i r.jobs ≡ some j
    → j.state ≡ submitting
    → j.digest ≡ none
    → Move r (give_back r i failure now)
unfolding give_back
give_back-Move r i failure now j found s d = elim (Bool-cases (is_final failure)) [
  | inl final ↦ rw final (finish-Move r i failed _ now j found (rw s))
  | inr again ↦
      rw again
        (transition-Move r i queued _ now (λ x. x) j found (λ x. refl) (gives_back s d refl refl))
]

-- The bytes leave only here, and the digest is recorded in the same move.
record_digest-Move :
    (r : Runner) (i : ℕ) (digest : String) (now : ℕ) (j : Job)
    → get i r.jobs ≡ some j
    → j.state ≡ submitting
    → j.digest ≡ none
    → Move r (record_digest r i digest now)
unfolding record_digest
record_digest-Move r i digest now j found s d =
    sends i (notes_digest digest now) j digest found (λ x. refl) s d s refl refl refl refl refl refl

record_digest-get :
    (r : Runner) (i : ℕ) (digest : String) (now : ℕ) (j : Job)
    → get i r.jobs ≡ some j
    → get i (record_digest r i digest now).jobs ≡ some (notes_digest digest now j)
unfolding record_digest
record_digest-get r i digest now j found =
    ground (arith, get-update i i (notes_digest digest now) r.jobs j (λ x. refl) found, ==_refl i)

after_digest-Moves :
    (r : Runner) (i : ℕ) (rest : AfterDigest) (now : ℕ) (j : Job)
    → get i r.jobs ≡ some j
    → j.state ≡ submitting
    → j.digest ≢ none
    → Moves r (after_digest r i rest now).0
unfolding after_digest
after_digest-Moves r i (confirmed digest) now j found s d = Moves-one (
    transition-Move r i submitted _ now (confirms digest now) j found (λ x. refl)
      (JobStep.confirms s d refl refl))
after_digest-Moves r i (lost failure) now j found s d = here
after_digest-Moves r i dies_after_digest now j found s d = here

attempt_call-Moves :
    (r : Runner) (i : ℕ) (attempt : Attempt) (now : ℕ) (j : Job)
    → get i r.jobs ≡ some j
    → j.state ≡ submitting
    → j.digest ≡ none
    → Moves r (attempt_call r i attempt now).0
unfolding attempt_call
attempt_call-Moves r i (refused_early failure) now j found s d =
    Moves-one (give_back-Move r i failure now j found s d)
attempt_call-Moves r i dies_before_digest now j found s d = here
attempt_call-Moves r i (signs digest rest) now j found s d =
    Moves-trans (Moves-one (record_digest-Move r i digest now j found s d)) (
      after_digest-Moves (record_digest r i digest now) i rest now (notes_digest digest now j)
        (record_digest-get r i digest now j found) s (λ e. cc))

perform-Moves :
    (r : Runner) (i : ℕ) (agent : AgentCall → Attempt) (planned : Planned) (now : ℕ) (j : Job)
    → get i r.jobs ≡ some j
    → j.state ≡ submitting
    → j.digest ≡ none
    → Moves r (perform r i agent planned now).0
perform-Moves r i agent (calls call) now j found s d =
    attempt_call-Moves r i (agent call) now j found s d
perform-Moves r i agent (throws failure) now j found s d =
    attempt_call-Moves r i (refused_early failure) now j found s d

-- An attempt starts from `queued` only, and sends at most once.
pub submit-Moves :
    (r : Runner) (a : Answers) (j : Job)
    → get j.id r.jobs ≡ some j
    → j.state ≡ queued
    → Moves r (submit r a j).0
unfolding submit
submit-Moves r a j found s = elim (Bool-cases (leb r.limits.max_attempts j.attempts)) [
  | inl spent ↦ rw spent (Moves-one (finish-Move r j.id failed _ a.now j found (rw s)))
  | inr left ↦ rw left (
      Moves-trans
        (Moves-one (
          transition-Move r j.id submitting _ a.now starts_attempt j found (λ x. refl)
            (starts s (ground arith) refl refl refl)))
        (perform-Moves _ j.id (a.agent j.id) (plan a.positions_at_write j.intent) a.now _
          (transition-get r j.id submitting _ a.now starts_attempt j found (λ x. refl)) refl refl))
]

resolve_by-Moves :
    (r : Runner) (i : ℕ) (digest : String) (now : ℕ) (verdict : LandedVerdict) (j : Job)
    → get i r.jobs ≡ some j
    → j.state ≡ submitting
    → j.digest ≢ none
    → Moves r (resolve_by r i digest now verdict)
unfolding resolve_by
resolve_by-Moves r i digest now landed j found s d = Moves-one (
    transition-Move r i submitted _ now (sees_submitted now) j found (λ x. refl)
      (JobStep.confirms s d refl refl))
resolve_by-Moves r i digest now (aborted reason) j found s d =
    Moves-one (finish-Move r i failed _ now j found (rw s))
resolve_by-Moves r i digest now never_landed j found s d =
    Moves-one (finish-Move r i unresolved _ now j found (rw s))
resolve_by-Moves r i digest now unknown j found s d = here

pub resolve_ambiguous-Moves :
    (r : Runner) (a : Answers) (j : Job)
    → get j.id r.jobs ≡ some j
    → j.state ≡ submitting
    → Moves r (resolve_ambiguous r a j)
unfolding resolve_ambiguous
resolve_ambiguous-Moves r a j found s = elim (Option-cases j.digest) [
  | inl e ↦
      rw (e, resolve_ambiguous)
        (Moves-one (
          transition-Move r j.id queued _ a.now (λ x. x) j found (λ x. refl)
            (gives_back s e refl refl)))
  | inr (digest, e) ↦
      rw (e, resolve_ambiguous)
        (resolve_by-Moves r j.id digest a.now _ j found s (λ none_recorded. cc))
]
