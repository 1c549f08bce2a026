-- ===== src/Runner/Moves/Attempts.antt =====
-- The bound on attempts (src/runner/runner.ts, `submit`): a job is sent at most `maxAttempts` times.
use waterx_agent.Prelude.{
  ℕ, ◌≤◌, ◌≡◌, refl, List, [], ◌∷◌, some, arith, All, All-append, All-filter, subst,
}
use waterx_agent.Runner.Types.{Job}
use waterx_agent.Runner.Store.{get, update, is_kept, All-update, All-get}
use waterx_agent.Runner.State.{Runner}
use waterx_agent.Runner.Moves.{
  JobStep, adjusts, starts, gives_back, confirms, ends, Move, idles, changes, sends, takes, drops,
  Moves, here, more,
}
use waterx_agent.Runner.Moves.AtMostOnce.{IsSafe, Moves-IsSafe}
use waterx_agent.Runner.Moves.History.{IsNew, new-IsSafe, Happening, live, live-Moves}

abbrev pub HasAttempts : ℕ → Job → Type 0
HasAttempts max j = j.attempts ≤ max

step-HasAttempts : (max : ℕ) (j k : Job) → JobStep max j k → HasAttempts max j → HasAttempts max k
step-HasAttempts max j k (adjusts s d a) h = omega arith
step-HasAttempts max j k (starts q left s d a) h = omega arith
step-HasAttempts max j k (gives_back s d q a) h = omega arith
step-HasAttempts max j k (confirms s d t a) h = omega arith
step-HasAttempts max j k (ends may a) h = omega arith

pub record IsBounded (max : ℕ) (r : Runner) : Type 0 where
  pub limit : r.limits.max_attempts ≡ max
  pub tried : All (HasAttempts max) r.jobs

update-tried :
    (max : ℕ) (r : Runner) (i : ℕ) (f : Job → Job) (j : Job)
    → IsSafe r
    → get i r.jobs ≡ some j
    → All (HasAttempts max) r.jobs
    → HasAttempts max (f j)
    → All (HasAttempts max) (update i f r.jobs)
update-tried max r i f j v found tried h =
    All-update (HasAttempts max) (HasAttempts max) 0 i f r.jobs j v.rising found tried h
      (λ x k other. k)

Move-IsBounded : {r s : Runner} (max : ℕ) → Move r s → IsSafe r → IsBounded max r → IsBounded max s
Move-IsBounded max (idles js ss ls n) v b = record { limit = rw ls b.limit; tried = rw js b.tried }
Move-IsBounded {r} max (changes i f j found same step js frame) v b = record {
  limit = rw frame.limits_same b.limit;
  tried = rw js (
      update-tried max r i f j v found b.tried (
        step-HasAttempts max j (f j) (subst (λ m. JobStep m j (f j)) b.limit step)
          (All-get (HasAttempts max) i r.jobs j b.tried found)));
}
Move-IsBounded {r} max (sends i f j d found same st d' fs fd fa js ss ns ls) v b = record {
  limit = rw ls b.limit;
  tried = rw js (
      update-tried max r i f j v found b.tried
        (rw fa (All-get (HasAttempts max) i r.jobs j b.tried found)));
}
Move-IsBounded {r} max (takes j id q n js ns ss ls) v b = record {
  limit = rw ls b.limit;
  tried = rw js (All-append (HasAttempts max) r.jobs (j ∷ []) b.tried (omega arith, tt));
}
Move-IsBounded {r} max (drops now js frame) v b = record {
  limit = rw frame.limits_same b.limit;
  tried = rw js (All-filter (HasAttempts max) (is_kept r.limits.retention_ms now) r.jobs b.tried);
}

Moves-IsBounded :
    {r s : Runner} (max : ℕ) → Moves r s → IsSafe r → IsBounded max r → IsBounded max s
Moves-IsBounded max here v b = b
Moves-IsBounded max (more m step) v b =
    Move-IsBounded max step (Moves-IsSafe m v) (Moves-IsBounded max m v b)

-- However long a runner lives that began with an empty store, no stored job has begun more
-- attempts than the limit allows, and the limit stays what it was.
pub attempts-IsBounded :
    (r : Runner) (hs : List Happening) → IsNew r → IsBounded r.limits.max_attempts (live r hs)
attempts-IsBounded r hs n =
    Moves-IsBounded r.limits.max_attempts (live-Moves r hs) (new-IsSafe n)
      (record { limit = refl; tried = rw n.no_jobs tt })
