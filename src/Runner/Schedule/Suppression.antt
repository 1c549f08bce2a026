-- ===== src/Runner/Schedule/Suppression.antt =====
-- `blockingJob` and `enqueue` (src/runner/runner.ts): when an intent is suppressed, refused, accepted.
use waterx_agent.Prelude.{
  some-injective, str_eq, str_eq_iff, ap, Bool-cases, nan, infinite, neg_infinite, finite, sub_ℕ,
  ◌≤ℤ◌, ℕ, ◌<◌, ◌≡◌, refl, ◌≢◌, ◌⊎◌, inl, inr, ◌↔◌, String, Bool, true, false, not, ◌&&◌, List, [],
  ◌∷◌, Option, none, some, arith, subst, is_finite, gtb_number, zero_number, All, Number,
  get_or_else, is_some,
}
use waterx_agent.Runner.Types.{Intent, Job, JobState, unresolved, expired, is_terminal}
use waterx_agent.Runner.Schedule.{
  Schedule, Blocker, has_key, in_window, verdict_of, first_blocker, blocking_job, accepts, enqueue,
  new_job, bounds_nothing, expires_first, blocked, outcome_unknown,
}

-- The cooldown since an instant is over, as far as one is asked for.
abbrev pub IsPast : Option Number → (now since : ℕ) → Type 0
IsPast none now since = Unit
IsPast (some (finite a)) now since = a ≤ℤ sub_ℕ now since
IsPast (some infinite) now since = ⊥
IsPast (some _) now since = Unit

-- A job that does not stand in the way of a new intent with the key: it has another key, or it
-- expired unsent, or it ended with a known outcome and outside the cooldown.
abbrev pub Yields : String → Option Number → ℕ → Job → Type 0
Yields key cooldown now job =
    (job.key ≢ some key)
    ⊎ ((job.state ≡ expired)
        ⊎ ((is_terminal job.state ≡ true)
            × (job.state ≢ unresolved)
            × IsPast cooldown now job.updated_at))

in_window-IsPast :
    (cooldown : Option Number) (now : ℕ) (job : Job)
    → (in_window cooldown now job ≡ false) ↔ IsPast cooldown now job.updated_at
in_window-IsPast none now job = (λ h. tt, λ h. refl)
in_window-IsPast (some nan) now job = (λ h. tt, λ h. refl)
in_window-IsPast (some infinite) now job = (λ h. cc, λ h. elim h [ ])
in_window-IsPast (some neg_infinite) now job = (λ h. tt, λ h. refl)
in_window-IsPast (some (finite a)) now job = (λ h. ground (arith, h), λ h. ground (arith, h))

has_key-other : (key : String) (job : Job) → (has_key key job ≡ false) ↔ (job.key ≢ some key)
has_key-other key job = by_key job.key
  where
    by_key :
        (o : Option String)
        → (elim o [ none ↦ false | some k ↦ str_eq k key ] ≡ false) ↔ (o ≢ some key)
    by_key none = (λ h e. cc, λ h. refl)
    by_key (some k) = (
      λ h e. absurd (cc (h, (str_eq_iff k key).1 (some-injective _ _ e))),
      λ n. elim (Bool-cases (str_eq k key)) [
        | inl same ↦ absurd (n (ap some ((str_eq_iff k key).0 same)))
        | inr other ↦ other
      ],
    )

verdict_of-none :
    (id : ℕ) (state : JobState) (hot : Bool)
    → (verdict_of id state hot ≡ none)
      ↔ ((state ≡ expired) ⊎ ((is_terminal state ≡ true) × (state ≢ unresolved) × (hot ≡ false)))
unfolding verdict_of
verdict_of-none id unresolved hot = (λ h. cc, ruled_out)
  where
    ruled_out :
        (unresolved ≡ expired) ⊎ ((true ≡ true) × (unresolved ≢ unresolved) × (hot ≡ false))
        → some (outcome_unknown id) ≡ none
    ruled_out (inl e) = cc
    ruled_out (inr (t, u, c)) = absurd (u refl)
verdict_of-none id expired hot = (λ h. inl refl, λ y. refl)
verdict_of-none id state hot = (λ h. inr (ground arith), λ y. ground arith)

on_both : {A B C D : Type 0} → (A → C) → (B → D) → A ⊎ B → C ⊎ D
on_both f g (inl a) = inl (f a)
on_both f g (inr b) = inr (g b)

Yields-by :
    (key : String) (cooldown : Option Number) (now : ℕ) (job : Job)
    → ((has_key key job ≡ false)
        ⊎ (verdict_of job.id job.state (in_window cooldown now job) ≡ none))
      ↔ Yields key cooldown now job
Yields-by key cooldown now job =
    let cool = in_window-IsPast cooldown now job in
    let verdict = verdict_of-none job.id job.state (in_window cooldown now job) in
    let other = has_key-other key job in
    (
      on_both other.0 (λ v. on_both (λ e. e) (λ (t, u, c). (t, u, cool.0 c)) (verdict.0 v)),
      on_both other.1 (λ y. verdict.1 (on_both (λ e. e) (λ (t, u, c). (t, u, cool.1 c)) y)),
    )

first_blocker-none :
    (keyed : Bool) (verdict rest : Option Blocker)
    → (first_blocker keyed verdict rest ≡ none)
      ↔ (((keyed ≡ false) ⊎ (verdict ≡ none)) × (rest ≡ none))
first_blocker-none false verdict rest = (λ h. (inl refl, h), λ h. h.1)
first_blocker-none true none rest = (λ h. (inr refl, h), λ h. h.1)
first_blocker-none true (some blocker) rest = (λ h. cc, λ h. ground arith)

-- An intent with a key is let through exactly when every stored job yields to it: it has another
-- key or none, or it expired unsent, or it ended with a known outcome, no less long ago than the
-- cooldown that the intent asks for, if it asks for one.
pub blocking_job-none :
    (key : String) (cooldown : Option Number) (now : ℕ) (jobs : List Job)
    → (blocking_job key cooldown now jobs ≡ none) ↔ All (Yields key cooldown now) jobs
unfolding blocking_job
blocking_job-none key cooldown now [] = (λ h. tt, λ h. refl)
blocking_job-none key cooldown now (job ∷ jobs) =
    let rest = blocking_job-none key cooldown now jobs in
    let step =
      first_blocker-none (has_key key job)
        (verdict_of job.id job.state (in_window cooldown now job))
        (blocking_job key cooldown now jobs) in
    let one = Yields-by key cooldown now job in
    (λ h. (one.0 (step.0 h).0, rest.0 (step.0 h).1), λ h. step.1 (one.1 h.0, rest.1 h.1))

-- What `enqueue` accepts is a fresh queued job that can still be sent: its expiry lies after the
-- time at which it may first run, a deferred one has an expiry, a cooldown is a positive finite
-- number on a key, and every stored job yields to its key.
pub record IsAcceptable (s : Schedule) (now : ℕ) (jobs : List Job) : Type 0 where
  pub can_start : (expiry : ℕ) → s.expires_at ≡ some expiry → get_or_else s.not_before now < expiry
  pub has_expiry : s.not_before ≢ none → s.expires_at ≢ none
  pub has_key_for : s.cooldown_ms ≢ none → s.key ≢ none
  pub can_cool :
      (c : Number)
      → s.cooldown_ms ≡ some c
      → (is_finite c ≡ true) × (gtb_number c zero_number ≡ true)
  pub unblocked : (key : String) → s.key ≡ some key → All (Yields key s.cooldown_ms now) jobs

accepted_cases :
    (id : ℕ) (intent : Intent) (s : Schedule) (now : ℕ) (jobs : List Job) (j : Job)
    → enqueue id intent s now jobs ≡ accepts j
    → ((is_some s.cooldown_ms && not (is_some s.key)) ≡ false)
      × (bounds_nothing s.cooldown_ms ≡ false)
      × (blocked s.key s.cooldown_ms now jobs ≡ none)
      × ((is_some s.not_before && not (is_some s.expires_at)) ≡ false)
      × (expires_first s now ≡ false)
      × (j ≡ new_job id intent s now)
unfolding enqueue
accepted_cases id intent s now jobs j h = ground arith

-- An accepted intent becomes the new queued job, and its schedule was acceptable: it can start
-- before it expires, a deferred one has an expiry, a cooldown has a key and a length, and no
-- stored job blocks the key.
pub enqueue-IsAcceptable :
    (id : ℕ) (intent : Intent) (s : Schedule) (now : ℕ) (jobs : List Job) (j : Job)
    → enqueue id intent s now jobs ≡ accepts j
    → (j ≡ new_job id intent s now) × IsAcceptable s now jobs
enqueue-IsAcceptable id intent s now jobs j h =
    let c = accepted_cases id intent s now jobs j h in
    (
      c.5,
      record {
        can_start = λ expiry e. ground (arith, c.4);
        has_expiry = λ deferred e. ground (arith, c.3);
        has_key_for = λ cooled e. ground (arith, c.0);
        can_cool = λ cooldown e. ground (arith, c.1);
        unblocked = λ key e.
            (blocking_job-none key s.cooldown_ms now jobs).0
              (subst (λ k. blocked k s.cooldown_ms now jobs ≡ none) e c.2);
      },
    )
