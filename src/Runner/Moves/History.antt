-- ===== src/Runner/Moves/History.antt =====
-- What can happen to a runner (src/runner/runner.ts) over its life, and what then holds of the
-- transactions that it sends.
use waterx_agent.Prelude.{
  ℕ, ◌≤◌, ◌≡◌, refl, ◌⊎◌, inl, inr, String, List, [], ◌∷◌, none, some, arith, subst, sym, ap, ◌∙◌,
}
use waterx_agent.Runner.Types.{Intent, Job, queued, submitting}
use waterx_agent.Runner.Store.{get, All-get, get-id}
use waterx_agent.Runner.Schedule.{Schedule, enqueue}
use waterx_agent.Runner.State.{Runner, Answers}
use waterx_agent.Runner.Pass.{take_in, tick}
use waterx_agent.Runner.Moves.{Moves, here, Moves-trans}
use waterx_agent.Runner.Moves.Passes.{tick-Moves, enqueue-Moves}
use waterx_agent.Runner.Moves.AtMostOnce.{
  sent_count, last_sent, last_sent-count, IsRecorded, IsSafe, Moves-IsSafe,
}

-- What can happen to a runner: it is handed an intent, or it makes a pass, which a crash may end at
-- any point. A restart reads the store back as it was written.
pub data Happening : Type 0 where
  is_handed : Intent → Schedule → ℕ → Happening
  passes : Answers → Happening

abbrev pub happens : Runner → Happening → Runner
happens r (is_handed intent s now) = take_in r (enqueue r.next_id intent s now r.jobs)
happens r (passes a) = tick r a

abbrev pub live : Runner → List Happening → Runner
live r [] = r
live r (h ∷ hs) = live (happens r h) hs

happens-Moves : (r : Runner) (h : Happening) → Moves r (happens r h)
happens-Moves r (is_handed intent s now) = enqueue-Moves r intent s now
happens-Moves r (passes a) = tick-Moves r a

pub live-Moves : (r : Runner) (hs : List Happening) → Moves r (live r hs)
live-Moves r [] = here
live-Moves r (h ∷ hs) = Moves-trans (happens-Moves r h) (live-Moves (happens r h) hs)

-- A runner whose store and record of sent transactions are empty.
pub record IsNew (r : Runner) : Type 0 where
  pub no_jobs : r.jobs ≡ []
  pub none_sent : r.sent ≡ []

pub new-IsSafe : {r : Runner} → IsNew r → IsSafe r
new-IsSafe n = record {
  rising = rw n.no_jobs tt;
  recorded = rw n.no_jobs tt;
  once = λ i. rw n.none_sent (omega arith);
  fresh = λ i h. rw n.none_sent refl;
}

pub live-IsSafe : (r : Runner) (hs : List Happening) → IsNew r → IsSafe (live r hs)
live-IsSafe r hs n = Moves-IsSafe (live-Moves r hs) (new-IsSafe n)

pub IsRecorded-at :
    (r : Runner) (i : ℕ) (j : Job)
    → IsSafe r
    → get i r.jobs ≡ some j
    → IsRecorded r.next_id r.sent j
IsRecorded-at r i j v found = All-get (IsRecorded r.next_id r.sent) i r.jobs j v.recorded found

-- From an empty store, whatever sequence of new intents, passes and crashes follows and whatever
-- the agent, the chain and the backend answer, no job has more than one transaction that left.
pub sent_at_most_once :
    (r : Runner) (hs : List Happening) (i : ℕ) → IsNew r → sent_count i (live r hs).sent ≤ 1
sent_at_most_once r hs i n = (live-IsSafe r hs n).once i

-- In every state that a runner with an empty store reaches, a stored job that is still being
-- submitted and of which a transaction has left carries that transaction's digest: the chain can
-- be asked.
pub sent_is_recoverable :
    (r : Runner) (hs : List Happening) (i : ℕ) (j : Job) (digest : String)
    → IsNew r
    → get i (live r hs).jobs ≡ some j
    → j.state ≡ submitting
    → last_sent i (live r hs).sent ≡ some digest
    → j.digest ≡ some digest
sent_is_recoverable r hs i j digest n found s left =
    by_record ((IsRecorded-at (live r hs) i j (live-IsSafe r hs n) found).names s)
  where
    same : j.id ≡ i
    same = get-id i (live r hs).jobs j found

    by_record :
        (last_sent j.id (live r hs).sent ≡ none) ⊎ (last_sent j.id (live r hs).sent ≡ j.digest)
        → j.digest ≡ some digest
    by_record (inl nothing) = cc (ap (λ k. last_sent k (live r hs).sent) same)
    by_record (inr e) = sym e ∙ ap (λ k. last_sent k (live r hs).sent) same ∙ left

-- In every state that a runner with an empty store reaches, nothing has been sent for a stored job
-- that is queued.
pub queued_is_unsent :
    (r : Runner) (hs : List Happening) (i : ℕ) (j : Job)
    → IsNew r
    → get i (live r hs).jobs ≡ some j
    → j.state ≡ queued
    → sent_count i (live r hs).sent ≡ 0
queued_is_unsent r hs i j n found s =
    let nothing = (IsRecorded-at (live r hs) i j (live-IsSafe r hs n) found).waits s in
    last_sent-count i (live r hs).sent
      (subst (λ k. last_sent k (live r hs).sent ≡ none) (get-id i (live r hs).jobs j found) nothing)
