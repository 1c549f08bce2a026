-- ===== src/Runner/Moves/AtMostOnce.antt =====
-- The promise of src/runner/runner.ts: however passes, new intents and crashes follow one another,
-- a job's transaction leaves the process at most once.
use waterx_agent.Prelude.{
  ℕ, suc, ◌+◌, ◌≤◌, ◌<◌, ◌≡◌, refl, ◌≢◌, ◌⊎◌, inl, inr, String, true, List, [], ◌∷◌, Option, none,
  some, arith, ◌==◌, if◌then◌else◌, ==_refl, All, All-append, All-filter, sym, ap, ◌∙◌,
}
use waterx_agent.Runner.Types.{Job, JobState, queued, submitting}
use waterx_agent.Runner.Store.{
  get, update, is_kept, Rising, Rising-append, Rising-filter, Rising-update, All-update, All-get,
  get-id,
}
use waterx_agent.Runner.State.{Runner}
use waterx_agent.Runner.Moves.{
  may_end, JobStep, adjusts, starts, gives_back, confirms, ends, Move, idles, changes, sends, takes,
  drops, Moves, here, more,
}

-- How often a transaction of the job has left, and the digest of the last.
abbrev pub sent_count : ℕ → List (ℕ × String) → ℕ
sent_count i [] = 0
sent_count i ((k, digest) ∷ sent) = if k == i then suc (sent_count i sent) else sent_count i sent

abbrev pub last_sent : ℕ → List (ℕ × String) → Option String
last_sent i [] = none
last_sent i ((k, digest) ∷ sent) = if k == i then some digest else last_sent i sent

-- Of a job that waits nothing was sent. Of one that is being submitted, at most what its record says.
pub record IsRecorded (next : ℕ) (sent : List (ℕ × String)) (j : Job) : Type 0 where
  pub below : j.id < next
  pub waits : j.state ≡ queued → last_sent j.id sent ≡ none
  pub names : j.state ≡ submitting → (last_sent j.id sent ≡ none) ⊎ (last_sent j.id sent ≡ j.digest)

pub record IsSafe (r : Runner) : Type 0 where
  pub rising : Rising 0 r.jobs
  pub recorded : All (IsRecorded r.next_id r.sent) r.jobs
  pub once : (i : ℕ) → sent_count i r.sent ≤ 1
  pub fresh : (i : ℕ) → r.next_id ≤ i → last_sent i r.sent ≡ none

pub last_sent-count :
    (i : ℕ) (sent : List (ℕ × String)) → last_sent i sent ≡ none → sent_count i sent ≡ 0
last_sent-count i [] h = refl
last_sent-count i ((k, digest) ∷ sent) h = ground (arith, last_sent-count i sent)

may_end-ne : (s t : JobState) → may_end s t ≡ true → (t ≢ queued) × (t ≢ submitting)
may_end-ne s t h = ground arith

-- A change that sends nothing keeps the record true.
step-IsRecorded :
    (max next : ℕ) (sent : List (ℕ × String)) (j k : Job)
    → k.id ≡ j.id
    → JobStep max j k
    → IsRecorded next sent j
    → IsRecorded next sent k
step-IsRecorded max next sent j k same (adjusts s d a) v = record {
  below = rw same v.below;
  waits = λ q. rw same (v.waits (sym s ∙ q));
  names = λ q. rw (same, d) (v.names (sym s ∙ q));
}
step-IsRecorded max next sent j k same (starts q left s d a) v = record {
  below = rw same v.below;
  waits = λ e. cc;
  names = λ e. inl (rw same (v.waits q));
}
step-IsRecorded max next sent j k same (gives_back s d q a) v = record {
  below = rw same v.below;
  waits = λ e. rw same (unsent (v.names s));
  names = λ e. cc;
}
  where
    unsent :
        (last_sent j.id sent ≡ none) ⊎ (last_sent j.id sent ≡ j.digest) → last_sent j.id sent ≡ none
    unsent (inl nothing) = nothing
    unsent (inr same_digest) = same_digest ∙ d
step-IsRecorded max next sent j k same (confirms s d t a) v = record {
  below = rw same v.below;
  waits = λ e. cc;
  names = λ e. cc;
}
step-IsRecorded max next sent j k same (ends may a) v =
    let live = may_end-ne j.state k.state may in
    record {
      below = rw same v.below;
      waits = λ e. absurd (live.0 e);
      names = λ e. absurd (live.1 e);
    }

-- Another job's transaction is no part of this job's record.
other-IsRecorded :
    (next i : ℕ) (digest : String) (sent : List (ℕ × String)) (j : Job)
    → j.id ≢ i
    → IsRecorded next sent j
    → IsRecorded next ((i, digest) ∷ sent) j
other-IsRecorded next i digest sent j other v = ground arith

-- A job whose digest is recorded as its bytes leave.
sent-IsRecorded :
    (next i : ℕ) (digest : String) (sent : List (ℕ × String)) (j : Job)
    → j.id ≡ i
    → j.id < next
    → j.state ≡ submitting
    → j.digest ≡ some digest
    → IsRecorded next ((i, digest) ∷ sent) j
sent-IsRecorded next i digest sent j same b s d = record {
  below = b;
  waits = λ e. cc;
  names = λ e. inr (rw (same, d, ==_refl i));
}

later-IsRecorded :
    {m n : ℕ} (sent : List (ℕ × String)) (js : List Job)
    → m ≤ n
    → All (IsRecorded m sent) js
    → All (IsRecorded n sent) js
later-IsRecorded sent [] h v = tt
later-IsRecorded sent (j ∷ js) h v = (
  record { below = omega (arith, v.0.below); waits = v.0.waits; names = v.0.names },
  later-IsRecorded sent js h v.1,
)

below-next :
    (n : ℕ) (sent : List (ℕ × String)) (js : List Job)
    → All (IsRecorded n sent) js
    → All (λ j. j.id < n) js
below-next n sent [] v = tt
below-next n sent (j ∷ js) v = (v.0.below, below-next n sent js v.1)

last_sent-ne :
    (i : ℕ) (digest : String) (k : ℕ) (sent : List (ℕ × String))
    → i ≢ k
    → last_sent k sent ≡ none
    → last_sent k ((i, digest) ∷ sent) ≡ none
last_sent-ne i digest k sent other nothing = ground arith

sent_count-cons :
    (i : ℕ) (digest : String) (sent : List (ℕ × String))
    → last_sent i sent ≡ none
    → ((k : ℕ) → sent_count k sent ≤ 1)
    → (k : ℕ) → sent_count k ((i, digest) ∷ sent) ≤ 1
sent_count-cons i digest sent nothing once k =
    ground (arith, once k, last_sent-count i sent nothing)

-- A job that is being submitted without a digest was not sent.
unsent :
    (next i : ℕ) (sent : List (ℕ × String)) (j : Job)
    → j.id ≡ i
    → j.state ≡ submitting
    → j.digest ≡ none
    → IsRecorded next sent j
    → last_sent i sent ≡ none
unsent next i sent j same s d v = rw (← same) (nothing (v.names s))
  where
    nothing :
        (last_sent j.id sent ≡ none) ⊎ (last_sent j.id sent ≡ j.digest) → last_sent j.id sent ≡ none
    nothing (inl e) = e
    nothing (inr e) = e ∙ d

send-IsSafe :
    (r s : Runner) (i : ℕ) (f : Job → Job) (j : Job) (digest : String)
    → get i r.jobs ≡ some j
    → ((x : Job) → (f x).id ≡ x.id)
    → j.state ≡ submitting
    → j.digest ≡ none
    → (f j).state ≡ submitting
    → (f j).digest ≡ some digest
    → s.jobs ≡ update i f r.jobs
    → s.sent ≡ (i, digest) ∷ r.sent
    → s.next_id ≡ r.next_id
    → IsSafe r
    → IsSafe s
send-IsSafe r s i f j digest found same st d fs fd js ss ns v =
    let old = All-get (IsRecorded r.next_id r.sent) i r.jobs j v.recorded found in
    let id = get-id i r.jobs j found in
    let nothing = unsent r.next_id i r.sent j id st d old in
    record {
      rising = rw js (Rising-update 0 i f r.jobs same v.rising);
      recorded =
          rw (js, ss, ns)
            (All-update (IsRecorded r.next_id r.sent) (IsRecorded r.next_id ((i, digest) ∷ r.sent))
              0 i f r.jobs j v.rising found v.recorded
              (sent-IsRecorded r.next_id i digest r.sent (f j) (same j ∙ id) (rw same old.below) fs
                fd)
              (λ x k other. other-IsRecorded r.next_id i digest r.sent x other k));
      once = rw ss (sent_count-cons i digest r.sent nothing v.once);
      fresh = λ k h. rw ss (
          last_sent-ne i digest k r.sent (λ e. absurd (omega (arith, old.below, ap (λ n. n) id)))
            (v.fresh k (rw ns at h)));
    }

Move-IsSafe : {r s : Runner} → Move r s → IsSafe r → IsSafe s
Move-IsSafe {r} {s} (idles js ss ls n) v = record {
  rising = rw js v.rising;
  recorded = rw (js, ss) (later-IsRecorded r.sent r.jobs n v.recorded);
  once = rw ss v.once;
  fresh = λ i h. rw ss (v.fresh i (omega arith));
}
Move-IsSafe {r} {s} (changes i f j found same step js frame) v = record {
  rising = rw js (Rising-update 0 i f r.jobs same v.rising);
  recorded =
      rw (js, frame.next_same, frame.sent_same)
        (All-update (IsRecorded r.next_id r.sent) (IsRecorded r.next_id r.sent) 0 i f r.jobs j
          v.rising found v.recorded
          (step-IsRecorded r.limits.max_attempts r.next_id r.sent j (f j) (same j) step
            (All-get (IsRecorded r.next_id r.sent) i r.jobs j v.recorded found))
          (λ x k other. k));
  once = rw frame.sent_same v.once;
  fresh = λ k h. rw frame.sent_same (v.fresh k (rw frame.next_same at h));
}
Move-IsSafe {r} {s} (sends i f j digest found same st d fs fd fa js ss ns ls) v =
    send-IsSafe r s i f j digest found same st d fs fd js ss ns v
Move-IsSafe {r} {s} (takes j id q n js ns ss ls) v = record {
  rising = rw js (
      Rising-append 0 r.next_id r.jobs j v.rising (omega arith)
        (below-next r.next_id r.sent r.jobs v.recorded) (omega arith));
  recorded =
      rw (js, ns, ss)
        (All-append (IsRecorded (r.next_id + 1) r.sent) r.jobs (j ∷ [])
          (later-IsRecorded {m = r.next_id} r.sent r.jobs (omega arith) v.recorded)
          (
            record {
              below = omega arith;
              waits = λ e. v.fresh j.id (omega arith);
              names = λ e. inl (v.fresh j.id (omega arith));
            },
            tt,
          ));
  once = rw ss v.once;
  fresh = λ k h. rw ss (v.fresh k (omega arith));
}
Move-IsSafe {r} {s} (drops now js frame) v = record {
  rising = rw js (Rising-filter (is_kept r.limits.retention_ms now) 0 r.jobs v.rising);
  recorded =
      rw (js, frame.next_same, frame.sent_same)
        (All-filter (IsRecorded r.next_id r.sent) (is_kept r.limits.retention_ms now) r.jobs
          v.recorded);
  once = rw frame.sent_same v.once;
  fresh = λ k h. rw frame.sent_same (v.fresh k (rw frame.next_same at h));
}

pub Moves-IsSafe : {r s : Runner} → Moves r s → IsSafe r → IsSafe s
Moves-IsSafe here v = v
Moves-IsSafe (more m step) v = Move-IsSafe step (Moves-IsSafe m v)
