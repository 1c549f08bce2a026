-- ===== src/Policy/Calls/Counts/Steps.antt =====
-- src/policy.ts: every call changes the count as `CountMove` says.
use waterx_agent.Prelude.{
  ℕ, ◌≡◌, refl, String, Bool, ◌∷◌, Option, none, some, Number, find, filter, not, ◌&&◌, if_both,
  Option-cases, inl, inr, neg_number, text_join, [],
}
use waterx_agent.Policy.Intent.{WriteIntent}
use waterx_agent.Policy.Gate.{
  Gate, Permit, Building, AuthorizeOptions, PolicyRefusal, Outcome, done, refused, authorize, count,
  issue, commit, commits, refusal_of,
}
use waterx_agent.Policy.Permits.{
  is_permit, delete_permit, waits_for, stop_waiting, awaited, begin_build, release, bind_free, bind,
  rethrown, built_with, end_build, objection, take_permit, consume,
}
use waterx_agent.Policy.Calls.{Call, authorizes, begins, ends, consumes, step, asks_for}
use waterx_agent.Policy.Calls.Counts.{
  writes_of, Counted, nothing, adds, takes, same, fewer, one_more, CountMove,
}

idle : (c : Call) (g : Gate) → CountMove c g g
idle c g = record {
  same_mode = refl;
  same_scope = refl;
  same_meter = refl;
  counted = nothing refl refl;
  waiting = same refl;
}

commit-CountMove :
    (c : Call) (g : Gate) (i : WriteIntent) (options : AuthorizeOptions) (now : Number)
    (amount : Option Number)
    → asks_for c ≡ some (i, options, now)
    → refusal_of g i options now ≡ none
    → commits i ≡ amount
    → CountMove c g (commit g i (writes_of c) amount).0
unfolding issue count
commit-CountMove c g i options now none a e m = record {
  same_mode = refl;
  same_scope = refl;
  same_meter = refl;
  counted = nothing refl refl;
  waiting = same refl;
}
commit-CountMove c g i options now (some amount) a e m =
    if_both (λ (r : Gate × Outcome Permit). CountMove c g r.0) (g.has_meter && not (writes_of c))
      (record {
        same_mode = refl;
        same_scope = refl;
        same_meter = refl;
        counted = adds i options now amount a e m refl refl;
        waiting = same refl;
      })
      (record {
        same_mode = refl;
        same_scope = refl;
        same_meter = refl;
        counted = adds i options now amount a e m refl refl;
        waiting = same refl;
      })

-- A commitment leaves the builds, and one that gives a permit starts a build.
commit-builds :
    (g : Gate) (i : WriteIntent) (writes : Bool) (amount : Option Number)
    → (commit g i writes amount).0.builds ≡ g.builds
unfolding issue count
commit-builds g i writes none = refl
commit-builds g i writes (some amount) =
    if_both (λ (r : Gate × Outcome Permit). r.0.builds ≡ g.builds) (g.has_meter && not writes) refl
      refl

awaited-CountMove :
    (c : Call) (g : Gate) (i : WriteIntent) (options : AuthorizeOptions) (now : Number)
    (r : Gate × Outcome Permit)
    → refusal_of g i options now ≡ none
    → r.0.builds ≡ g.builds
    → CountMove c g r.0
    → CountMove c g (awaited i r).0
unfolding awaited
awaited-CountMove c g i options now (t, refused r) e b m = m
awaited-CountMove c g i options now (t, done p) e b m = record {
  same_mode = m.same_mode;
  same_scope = m.same_scope;
  same_meter = m.same_meter;
  counted = recounted m.counted;
  waiting = one_more p.id i options now e (rw b refl);
}
  where
    recounted :
        Counted c g t
        → Counted c g (record t { builds = record { permit = p.id; intent = i } ∷ t.builds })
    recounted (nothing x y) = nothing x y
    recounted (adds j o n amount x y z u v) = adds j o n amount x y z u v
    recounted (takes k d amount x y u v) = takes k d amount x y u v

release-CountMove :
    (c : Call) (g : Gate) (k : ℕ) (b : Building)
    → find (waits_for k) g.builds ≡ some b
    → CountMove c g (release (stop_waiting k g) b.intent k (writes_of c)).0
unfolding release count
release-CountMove c g k b f = elim (Option-cases (commits b.intent)) [
  | inl e ↦
      rw (e, release)
        (record {
          same_mode = refl;
          same_scope = refl;
          same_meter = refl;
          counted = nothing refl refl;
          waiting = fewer k refl;
        })
  | inr (amount, e) ↦
      rw (e, release)
        (if_both (λ (r : Gate × Outcome (Unit {0})). CountMove c g r.0)
          (g.has_meter && not (writes_of c)) (taken amount e) (taken amount e))
]
  where
    taken :
        (amount : Number)
        → commits b.intent ≡ some amount
        → CountMove c g (
            count
              (record g {
                builds = filter (λ d. not (waits_for k d)) g.builds;
                permits = delete_permit k g.permits;
              })
              b.intent
              (text_join (b.intent.action ∷ ":released" ∷ []))
              (neg_number amount)
              (writes_of c))
    taken amount e = record {
      same_mode = refl;
      same_scope = refl;
      same_meter = refl;
      counted = takes k b amount f e refl refl;
      waiting = fewer k refl;
    }

rethrown-CountMove :
    (c : Call) (g : Gate) (r : Gate × Outcome (Unit {0}))
    → CountMove c g r.0
    → CountMove c g (rethrown r).0
rethrown-CountMove c g (t, done u) m = m
rethrown-CountMove c g (t, refused r) m = m

-- A build that ended, and whose permit was bound or not.
bind_free-CountMove :
    (c : Call) (g : Gate) (k : ℕ) (digest : String) (o : Option String)
    → CountMove c g (bind_free (stop_waiting k g) k digest o).0
bind_free-CountMove c g k digest (some d) = record {
  same_mode = refl;
  same_scope = refl;
  same_meter = refl;
  counted = nothing refl refl;
  waiting = fewer k refl;
}
bind_free-CountMove c g k digest none = record {
  same_mode = refl;
  same_scope = refl;
  same_meter = refl;
  counted = nothing refl refl;
  waiting = fewer k refl;
}

bind-CountMove :
    (c : Call) (g : Gate) (k : ℕ) (digest : String)
    → CountMove c g (bind (stop_waiting k g) k digest).0
unfolding bind
bind-CountMove c g k digest = elim (Option-cases (find (is_permit k) g.permits)) [
  | inl e ↦ rw (e, bind) (bind_free-CountMove c g k digest (some digest))
  | inr (p, e) ↦ rw (e, bind) (bind_free-CountMove c g k digest p.bound_to)
]

refused-CountMove :
    (c : Call) (g : Gate) (i : WriteIntent) (r : PolicyRefusal)
    → CountMove c g (awaited i (g, refused r)).0
unfolding awaited
refused-CountMove c g i r = idle c g

request-CountMove :
    (c : Call) (g : Gate) (i : WriteIntent) (options : AuthorizeOptions) (now : Number)
    → asks_for c ≡ some (i, options, now)
    → CountMove c g (authorize g i options now (writes_of c)).0
      × CountMove c g (awaited i (authorize g i options now (writes_of c))).0
unfolding authorize
request-CountMove c g i options now a = elim (Option-cases (refusal_of g i options now)) [
  | inl e ↦
      let m = commit-CountMove c g i options now (commits i) a e refl in
      rw (e, authorize)
        (
          m,
          awaited-CountMove c g i options now (commit g i (writes_of c) (commits i)) e
              (commit-builds g i (writes_of c) (commits i)) m,
        )
  | inr (r, e) ↦ rw (e, authorize) (idle c g, refused-CountMove c g i r)
]

module _ (digest_of : String → String) where
  built_with-CountMove :
      (g : Gate) (k : ℕ) (b : Building) (built : Option String) (writes : Bool)
      → find (waits_for k) g.builds ≡ some b
      → CountMove (ends k built writes) g (built_with digest_of g k b built writes).0
  unfolding built_with
  built_with-CountMove g k b none writes f =
      let c : Call = ends k none writes in
      rethrown-CountMove c g (release (stop_waiting k g) b.intent k writes)
        (release-CountMove c g k b f)
  built_with-CountMove g k b (some bytes) writes f =
      bind-CountMove (ends k (some bytes) writes) g k (digest_of bytes)

  take_permit-CountMove :
      (c : Call) (g : Gate) (k : ℕ) (o : Option PolicyRefusal)
      → CountMove c g (take_permit digest_of g k o).0
  take_permit-CountMove c g k none = record {
    same_mode = refl;
    same_scope = refl;
    same_meter = refl;
    counted = nothing refl refl;
    waiting = same refl;
  }
  take_permit-CountMove c g k (some r) = idle c g

  pub step-CountMove : (g : Gate) (c : Call) → CountMove c g (step digest_of g c)
  unfolding step begin_build end_build consume
  step-CountMove g (authorizes i options now writes) =
      (request-CountMove (authorizes i options now writes) g i options now refl).0
  step-CountMove g (begins i options now writes) =
      (request-CountMove (begins i options now writes) g i options now refl).1
  step-CountMove g (ends k built writes) = elim (Option-cases (find (waits_for k) g.builds)) [
    | inl e ↦ rw (e, step, end_build) (idle (ends k built writes) g)
    | inr (b, e) ↦ rw (e, step, end_build) (built_with-CountMove g k b built writes e)
  ]
  step-CountMove g (consumes k i bytes) = elim (Option-cases (find (is_permit k) g.permits)) [
    | inl e ↦ rw (e, step, consume) (idle (consumes k i bytes) g)
    | inr (p, e) ↦
        rw (e, step, consume)
          (take_permit-CountMove (consumes k i bytes) g k (objection digest_of p i bytes))
  ]
