-- ===== src/Policy/Calls/Consumed.antt =====
-- src/policy.ts, `consume`: what it checks, what it proves of the calls before it, and that a permit
-- is consumed once.
use waterx_agent.Prelude.{
  ℕ, ◌≡◌, refl, inl, inr, String, List, [], Option, none, some, find, arith, All-find, ==_iff,
  Option-cases, find_sound, subst, str_eq_iff,
}
use waterx_agent.Policy.Intent.{WriteIntent, Fingerprint, fingerprint_intent, Fingerprint-discrete}
use waterx_agent.Policy.Gate.{Gate, Permit, PolicyRefusal, no_permit, done, refused}
use waterx_agent.Policy.Permits.{
  is_permit, delete_permit, has_bytes, objection, objection_by, take_permit, consume,
}
use waterx_agent.Policy.Calls.{Call, run}
use waterx_agent.Policy.Calls.Vouched.{IsAsked, IsBuilt, IsVouched, run-IsVouched}

-- What `consume` checked of the permit that it took.
pub record IsTaken (digest_of : String → String) (g : Gate) (id : ℕ) (i : WriteIntent)
    (bytes : String) : Type 0 where
  pub permit : Permit
  pub found : find (is_permit id) g.permits ≡ some permit
  pub same_intent : permit.fingerprint ≡ fingerprint_intent i
  pub same_bytes : permit.bound_to ≡ some (digest_of bytes)
  pub taken_out :
      (consume digest_of g id i bytes).0 ≡ record g { permits = delete_permit id g.permits }

module _ (digest_of : String → String) where
  has_bytes-none :
      (bytes : String) (bound_to : Option String)
      → has_bytes digest_of bytes bound_to ≡ none
      → bound_to ≡ some (digest_of bytes)
  has_bytes-none bytes none h = cc
  has_bytes-none bytes (some d) h = ground (arith, str_eq_iff d (digest_of bytes))

  objection_by-none :
      (f k : Fingerprint) (d : Dec (f ≡ k)) (bound_to : Option String) (bytes : String)
      → objection_by digest_of d bound_to bytes ≡ none
      → (f ≡ k) × (bound_to ≡ some (digest_of bytes))
  objection_by-none f k (no differ) bound_to bytes h = cc
  objection_by-none f k (yes same) bound_to bytes h = (same, has_bytes-none bytes bound_to h)

  take_permit-done :
      (g : Gate) (id : ℕ) (o : Option PolicyRefusal)
      → (take_permit digest_of g id o).1 ≡ done tt
      → o ≡ none
  take_permit-done g id none h = refl
  take_permit-done g id (some r) h = cc

  taken-gate :
      (g : Gate) (id : ℕ) (i : WriteIntent) (bytes : String) (p : Permit)
      → find (is_permit id) g.permits ≡ some p
      → objection digest_of p i bytes ≡ none
      → (consume digest_of g id i bytes).0 ≡ record g { permits = delete_permit id g.permits }
  unfolding consume
  taken-gate g id i bytes p e o = rw (e, consume) (rw o refl)

  taken :
      (g : Gate) (id : ℕ) (i : WriteIntent) (bytes : String) (p : Permit)
      → find (is_permit id) g.permits ≡ some p
      → objection digest_of p i bytes ≡ none
      → IsTaken digest_of g id i bytes
  unfolding objection
  taken g id i bytes p e o =
      let (same, bound) =
        objection_by-none p.fingerprint (fingerprint_intent i)
          (Fingerprint-discrete p.fingerprint (fingerprint_intent i)) p.bound_to bytes o in
      record {
        permit = p;
        found = e;
        same_intent = same;
        same_bytes = bound;
        taken_out = taken-gate g id i bytes p e o;
      }

  pub consume-IsTaken :
      (g : Gate) (id : ℕ) (i : WriteIntent) (bytes : String)
      → (consume digest_of g id i bytes).1 ≡ done tt
      → IsTaken digest_of g id i bytes
  unfolding consume
  consume-IsTaken g id i bytes h = elim (Option-cases (find (is_permit id) g.permits)) [
    | inl e ↦ absurd (unknown e)
    | inr (p, e) ↦
        taken g id i bytes p e (take_permit-done g id (objection digest_of p i bytes) (known p e))
  ]
    where
      unknown : find (is_permit id) g.permits ≡ none → ⊥
      unknown e = cc (h, lookup e)
        where
          lookup :
              find (is_permit id) g.permits ≡ none
              → (consume digest_of g id i bytes).1 ≡ refused no_permit
          lookup e = rw (e, consume) refl

      known :
          (p : Permit)
          → find (is_permit id) g.permits ≡ some p
          → (take_permit digest_of g id (objection digest_of p i bytes)).1 ≡ done tt
      known p e = cc (h, lookup)
        where
          lookup :
              (consume digest_of g id i bytes).1
              ≡ (take_permit digest_of g id (objection digest_of p i bytes)).1
          lookup = rw (e, consume) refl

  -- On a gate that began without permits, a permit is consumed only for an intent whose
  -- fingerprint an earlier call asked that permit for, refused by nothing at that time, and for
  -- bytes whose digest is that of bytes that a build of that permit brought.
  pub consume_is_vouched :
      (g : Gate) (past : List Call) (id : ℕ) (i : WriteIntent) (bytes : String)
      → g.permits ≡ []
      → (consume digest_of (run digest_of g past) id i bytes).1 ≡ done tt
      → IsAsked digest_of g past id (fingerprint_intent i)
        × IsBuilt digest_of g past id (digest_of bytes)
  consume_is_vouched g past id i bytes new h =
      let t = consume-IsTaken (run digest_of g past) id i bytes h in
      let v : IsVouched digest_of g past t.permit =
        All-find _ (is_permit id) _ t.permit (run-IsVouched digest_of g past new) t.found in
      let same : t.permit.id ≡ id =
        (==_iff t.permit.id id).0 (find_sound (is_permit id) _ t.permit t.found) in
      (
        subst (λ k. IsAsked digest_of g past k (fingerprint_intent i)) same
            (subst (λ f. IsAsked digest_of g past t.permit.id f) t.same_intent v.asked_for),
        subst (λ k. IsBuilt digest_of g past k (digest_of bytes)) same
            (v.built_as (digest_of bytes) t.same_bytes),
      )
