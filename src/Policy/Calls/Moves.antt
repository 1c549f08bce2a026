-- ===== src/Policy/Calls/Moves.antt =====
-- src/policy.ts: what one call does to the permits.
use waterx_agent.Prelude.{
  ℕ, suc, ◌≡◌, refl, String, Bool, ◌∷◌, Option, none, some, Number, find, not, ◌&&◌, if_both,
  Option-cases, inl, inr,
}
use waterx_agent.Policy.Intent.{WriteIntent}
use waterx_agent.Policy.Gate.{
  Gate, Permit, Building, AuthorizeOptions, PolicyRefusal, Outcome, done, refused, authorize, count,
  issue, new_permit, commit, commits, refusal_of,
}
use waterx_agent.Policy.Permits.{
  is_permit, delete_permit, bind_all, waits_for, stop_waiting, awaited, begin_build, release,
  bind_free, bind, rethrown, built_with, end_build, objection, take_permit, consume,
}
use waterx_agent.Policy.Calls.{Call, authorizes, begins, ends, consumes, step, asks_for, brings}

-- The permits after the call c, from those before it.
pub data PermitMove (digest_of : String → String) (c : Call) (g h : Gate) : Type 0 where
  keeps : h.permits ≡ g.permits → h.next_permit ≡ g.next_permit → PermitMove digest_of c g h
  issues :
      (i : WriteIntent) (options : AuthorizeOptions) (now : Number)
      → asks_for c ≡ some (i, options, now)
      → refusal_of g i options now ≡ none
      → h.permits ≡ new_permit g.next_permit i ∷ g.permits
      → h.next_permit ≡ suc g.next_permit
      → PermitMove digest_of c g h
  deletes :
      (k : ℕ)
      → h.permits ≡ delete_permit k g.permits
      → h.next_permit ≡ g.next_permit
      → PermitMove digest_of c g h
  binds :
      (k : ℕ) (bytes : String)
      → brings c ≡ some (k, bytes)
      → h.permits ≡ bind_all (digest_of bytes) k g.permits
      → h.next_permit ≡ g.next_permit
      → PermitMove digest_of c g h

module _ (digest_of : String → String) where
  commit-PermitMove :
      (c : Call) (g : Gate) (i : WriteIntent) (options : AuthorizeOptions) (now : Number)
      (writes : Bool) (amount : Option Number)
      → asks_for c ≡ some (i, options, now)
      → refusal_of g i options now ≡ none
      → PermitMove digest_of c g (commit g i writes amount).0
  unfolding issue count
  commit-PermitMove c g i options now writes none a e = issues i options now a e refl refl
  commit-PermitMove c g i options now writes (some amount) a e =
      if_both (λ (r : Gate × Outcome Permit). PermitMove digest_of c g r.0)
        (g.has_meter && not writes) (keeps refl refl) (issues i options now a e refl refl)

  authorize-PermitMove :
      (c : Call) (g : Gate) (i : WriteIntent) (options : AuthorizeOptions) (now : Number)
      (writes : Bool)
      → asks_for c ≡ some (i, options, now)
      → PermitMove digest_of c g (authorize g i options now writes).0
  unfolding authorize
  authorize-PermitMove c g i options now writes a =
      elim (Option-cases (refusal_of g i options now)) [
        | inl e ↦ rw (e, authorize) (commit-PermitMove c g i options now writes (commits i) a e)
        | inr (r, e) ↦ rw (e, authorize) (keeps refl refl)
      ]

  -- Waiting for a build changes no permit.
  awaited-PermitMove :
      (c : Call) (g : Gate) (i : WriteIntent) (r : Gate × Outcome Permit)
      → PermitMove digest_of c g r.0
      → PermitMove digest_of c g (awaited i r).0
  unfolding awaited
  awaited-PermitMove c g i (t, refused r) m = m
  awaited-PermitMove c g i (t, done p) (keeps a b) = keeps a b
  awaited-PermitMove c g i (t, done p) (issues j options now a e x y) = issues j options now a e x y
  awaited-PermitMove c g i (t, done p) (deletes k a b) = deletes k a b
  awaited-PermitMove c g i (t, done p) (binds k bytes a x y) = binds k bytes a x y

  release-PermitMove :
      (c : Call) (g : Gate) (i : WriteIntent) (k : ℕ) (writes : Bool)
      → PermitMove digest_of c g (release (stop_waiting k g) i k writes).0
  unfolding release count
  release-PermitMove c g i k writes = elim (Option-cases (commits i)) [
    | inl e ↦ rw (e, release) (deletes k refl refl)
    | inr (amount, e) ↦
        rw (e, release)
          (if_both (λ (r : Gate × Outcome (Unit {0})). PermitMove digest_of c g r.0)
            (g.has_meter && not writes) (deletes k refl refl) (deletes k refl refl))
  ]

  rethrown-PermitMove :
      (c : Call) (g : Gate) (r : Gate × Outcome (Unit {0}))
      → PermitMove digest_of c g r.0
      → PermitMove digest_of c g (rethrown r).0
  rethrown-PermitMove c g (t, done u) m = m
  rethrown-PermitMove c g (t, refused r) m = m

  bind-PermitMove :
      (c : Call) (g : Gate) (k : ℕ) (bytes : String)
      → brings c ≡ some (k, bytes)
      → PermitMove digest_of c g (bind (stop_waiting k g) k (digest_of bytes)).0
  unfolding bind
  bind-PermitMove c g k bytes b = elim (Option-cases (find (is_permit k) g.permits)) [
    | inl e ↦ rw (e, bind) (keeps refl refl)
    | inr (p, e) ↦ rw (e, bind) (free p.bound_to)
  ]
    where
      free :
          (o : Option String)
          → PermitMove digest_of c g (bind_free (stop_waiting k g) k (digest_of bytes) o).0
      free (some d) = keeps refl refl
      free none = binds k bytes b refl refl

  built_with-PermitMove :
      (g : Gate) (k : ℕ) (b : Building) (built : Option String) (writes : Bool)
      → PermitMove digest_of (ends k built writes) g (built_with digest_of g k b built writes).0
  unfolding built_with
  built_with-PermitMove g k b none writes =
      let c : Call = ends k none writes in
      rethrown-PermitMove c g (release (stop_waiting k g) b.intent k writes)
        (release-PermitMove c g b.intent k writes)
  built_with-PermitMove g k b (some bytes) writes =
      bind-PermitMove (ends k (some bytes) writes) g k bytes refl

  take_permit-PermitMove :
      (c : Call) (g : Gate) (k : ℕ) (o : Option PolicyRefusal)
      → PermitMove digest_of c g (take_permit digest_of g k o).0
  take_permit-PermitMove c g k none = deletes k refl refl
  take_permit-PermitMove c g k (some r) = keeps refl refl

  pub step-PermitMove : (g : Gate) (c : Call) → PermitMove digest_of c g (step digest_of g c)
  unfolding step begin_build end_build consume
  step-PermitMove g (authorizes i options now writes) =
      authorize-PermitMove (authorizes i options now writes) g i options now writes refl
  step-PermitMove g (begins i options now writes) =
      let c : Call = begins i options now writes in
      awaited-PermitMove c g i (authorize g i options now writes)
        (authorize-PermitMove c g i options now writes refl)
  step-PermitMove g (ends k built writes) = elim (Option-cases (find (waits_for k) g.builds)) [
    | inl e ↦ rw (e, step, end_build) (keeps refl refl)
    | inr (b, e) ↦ rw (e, step, end_build) (built_with-PermitMove g k b built writes)
  ]
  step-PermitMove g (consumes k i bytes) = elim (Option-cases (find (is_permit k) g.permits)) [
    | inl e ↦ rw (e, step, consume) (keeps refl refl)
    | inr (p, e) ↦
        rw (e, step, consume)
          (take_permit-PermitMove (consumes k i bytes) g k (objection digest_of p i bytes))
  ]
