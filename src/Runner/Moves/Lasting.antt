-- ===== src/Runner/Moves/Lasting.antt =====
-- What lasts in the store of src/runner: terminal states, unresolved jobs, and the bound on attempts.
use waterx_agent.Prelude.{
  ℕ, ◌<◌, ◌≡◌, refl, inl, inr, Bool, true, List, Option, none, some, arith, ◌==◌, ==_iff, filter,
  subst, sym, ap, ◌∙◌, Bool-cases,
}
use waterx_agent.Runner.Types.{Job, JobState, queued, unresolved, is_terminal}
use waterx_agent.Runner.Store.{
  get, update, is_kept, Rising, get-update, get-filter, get-filter-some, get-append, get-append_ne,
  get-id,
}
use waterx_agent.Runner.State.{Runner}
use waterx_agent.Runner.Moves.{
  may_end, JobStep, adjusts, starts, gives_back, confirms, ends, Move, idles, changes, sends, takes,
  drops, Moves, here, more,
}
use waterx_agent.Runner.Moves.AtMostOnce.{IsSafe, Moves-IsSafe}
use waterx_agent.Runner.Moves.History.{
  IsNew, Happening, live, live-IsSafe, live-Moves, IsRecorded-at,
}

may_end_live : (s t : JobState) → may_end s t ≡ true → is_terminal s ≡ true → ⊥
may_end_live s t may end = ground arith

-- A job in a terminal state takes part in no change of state.
terminal_step :
    (max : ℕ) (j k : Job) → JobStep max j k → is_terminal j.state ≡ true → k.state ≡ j.state
terminal_step max j k (adjusts s d a) t = s
terminal_step max j k (starts q left s d a) t = cc
terminal_step max j k (gives_back s d q a) t = cc
terminal_step max j k (confirms s d q a) t = cc
terminal_step max j k (ends may a) t = absurd (may_end_live j.state k.state may t)

-- What is left of a job: it keeps its state, or it is gone.
abbrev pub Keeps : JobState → Option Job → Type 0
Keeps s none = Unit
Keeps s (some k) = k.state ≡ s

module _ (i : ℕ) (st : JobState) (terminal : is_terminal st ≡ true) where
  update-Keeps :
      (k : ℕ) (f : Job → Job) (j : Job) (js : List Job)
      → get k js ≡ some j
      → ((x : Job) → (f x).id ≡ x.id)
      → (is_terminal j.state ≡ true → (f j).state ≡ j.state)
      → Keeps st (get i js)
      → Keeps st (get i (update k f js))
  update-Keeps k f j js found same step keeps = elim (Bool-cases (k == i)) [
    | inl hit ↦
        let e : k ≡ i = (==_iff k i).0 hit in
        rw (get-update k i f js j same found, hit) (step (rw (held e) terminal) ∙ held e)
    | inr miss ↦ rw (get-update k i f js j same found, miss) keeps
  ]
    where
      held : k ≡ i → j.state ≡ st
      held e = subst (Keeps st) (ap (λ n. get n js) (sym e) ∙ found) keeps

  filter-Keeps :
      (p : Job → Bool) (js : List Job) (left : Option Job)
      → Rising 0 js
      → get i (filter p js) ≡ left
      → Keeps st (get i js)
      → Keeps st left
  filter-Keeps p js none rising e keeps = tt
  filter-Keeps p js (some k) rising e keeps =
      subst (Keeps st) (get-filter-some p i 0 js k rising e) keeps

  -- One move keeps a terminal state, and an id that was used up stays used up.
  Move-Keeps :
      {r s : Runner}
      → Move r s
      → IsSafe r
      → i < r.next_id
      → Keeps st (get i r.jobs)
      → (i < s.next_id) × Keeps st (get i s.jobs)
  Move-Keeps {r} {s} (idles js ss ls n) v b keeps = (omega arith, rw js keeps)
  Move-Keeps {r} {s} (changes k f j found same step js frame) v b keeps = (
    rw frame.next_same b,
    rw js (
        update-Keeps k f j r.jobs found same (terminal_step r.limits.max_attempts j (f j) step)
          keeps),
  )
  Move-Keeps {r} {s} (sends k f j d found same st' d' fs fd fa js ss ns ls) v b keeps =
      (rw ns b, rw js (update-Keeps k f j r.jobs found same (λ t. fs ∙ sym st') keeps))
  Move-Keeps {r} {s} (takes j id q n js ns ss ls) v b keeps =
      (omega arith, rw (js, get-append_ne i r.jobs j (omega arith)) keeps)
  Move-Keeps {r} {s} (drops now js frame) v b keeps = (
    rw frame.next_same b,
    rw js (filter-Keeps (is_kept r.limits.retention_ms now) r.jobs _ v.rising refl keeps),
  )

  Moves-Keeps :
      {r s : Runner}
      → Moves r s
      → IsSafe r
      → i < r.next_id
      → Keeps st (get i r.jobs)
      → (i < s.next_id) × Keeps st (get i s.jobs)
  Moves-Keeps here v b keeps = (b, keeps)
  Moves-Keeps (more m step) v b keeps =
      let before = Moves-Keeps m v b keeps in Move-Keeps step (Moves-IsSafe m v) before.0 before.1

-- A stored job that has ended keeps its state for as long as it is stored, whatever new intents,
-- passes and crashes follow; and nothing else is ever stored under its id.
pub ended_is_final :
    (r : Runner) (hs hs' : List Happening) (i : ℕ) (j : Job)
    → IsNew r
    → get i (live r hs).jobs ≡ some j
    → is_terminal j.state ≡ true
    → Keeps j.state (get i (live (live r hs) hs').jobs)
ended_is_final r hs hs' i j n found terminal =
    let v = live-IsSafe r hs n in
    (Moves-Keeps i j.state terminal (live-Moves (live r hs) hs') v
      (subst (λ k. k < (live r hs).next_id) (get-id i (live r hs).jobs j found)
        (IsRecorded-at (live r hs) i j v found).below)
      (rw found refl)).1

-- Where an unresolved job stands.
abbrev pub HasUnresolved : ℕ → List Job → Type 0
HasUnresolved i js = (k : Job) × (get i js ≡ some k) × (k.state ≡ unresolved)

abbrev state_or_queued : Option Job → JobState
state_or_queued none = queued
state_or_queued (some j) = j.state

update-HasUnresolved :
    (i k : ℕ) (f : Job → Job) (j : Job) (js : List Job)
    → get k js ≡ some j
    → ((x : Job) → (f x).id ≡ x.id)
    → (is_terminal j.state ≡ true → (f j).state ≡ j.state)
    → HasUnresolved i js
    → HasUnresolved i (update k f js)
update-HasUnresolved i k f j js found same step (x, at, u) = elim (Bool-cases (k == i)) [
  | inl hit ↦
      let e : k ≡ i = (==_iff k i).0 hit in
      let one = sym found ∙ ap (λ n. get n js) e ∙ at in
      let ended : j.state ≡ unresolved = ap state_or_queued one ∙ u in
      (f j, rw (get-update k i f js j same found, hit), step (rw ended) ∙ ended)
  | inr miss ↦ (x, rw (get-update k i f js j same found, miss) at, u)
]

unresolved-is_kept :
    (retention now : ℕ) (j : Job) → j.state ≡ unresolved → is_kept retention now j ≡ true
unfolding is_kept
unresolved-is_kept retention now j u = ground arith

Move-HasUnresolved :
    {r s : Runner} (i : ℕ) → Move r s → IsSafe r → HasUnresolved i r.jobs → HasUnresolved i s.jobs
Move-HasUnresolved i (idles js ss ls n) v u = rw js u
Move-HasUnresolved {r} i (changes k f j found same step js frame) v u = rw js (
    update-HasUnresolved i k f j r.jobs found same
      (terminal_step r.limits.max_attempts j (f j) step) u)
Move-HasUnresolved {r} i (sends k f j d found same st d' fs fd fa js ss ns ls) v u =
    rw js (update-HasUnresolved i k f j r.jobs found same (λ t. fs ∙ sym st) u)
Move-HasUnresolved {r} i (takes j id q n js ns ss ls) v (x, at, u) =
    (x, rw js (get-append i r.jobs j x at), u)
Move-HasUnresolved {r} i (drops now js frame) v (x, at, u) = (
  x,
  rw js (
      get-filter (is_kept r.limits.retention_ms now) i 0 r.jobs x v.rising at
        (unresolved-is_kept r.limits.retention_ms now x u)),
  u,
)

pub Moves-HasUnresolved :
    {r s : Runner} (i : ℕ) → Moves r s → IsSafe r → HasUnresolved i r.jobs → HasUnresolved i s.jobs
Moves-HasUnresolved i here v u = u
Moves-HasUnresolved i (more m step) v u =
    Move-HasUnresolved i step (Moves-IsSafe m v) (Moves-HasUnresolved i m v u)

-- An unresolved job is never dropped and never changes its state, whatever follows: it waits for a
-- person.
pub unresolved_waits :
    (r : Runner) (hs hs' : List Happening) (i : ℕ)
    → IsNew r
    → HasUnresolved i (live r hs).jobs
    → HasUnresolved i (live (live r hs) hs').jobs
unresolved_waits r hs hs' i n u =
    Moves-HasUnresolved i (live-Moves (live r hs) hs') (live-IsSafe r hs n) u
