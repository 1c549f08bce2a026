-- ===== src/Policy/Calls/Vouched.antt =====
-- src/policy.ts: what the permits of a gate say about the calls before.
use waterx_agent.Prelude.{
  ℕ, ◌≡◌, inl, inr, String, List, [], ◌∷◌, none, some, Number, All, All-filter, ==_iff, ◌==◌, not,
  Bool-cases,
}
use waterx_agent.Policy.Intent.{WriteIntent, Fingerprint, fingerprint_intent}
use waterx_agent.Policy.Gate.{Gate, Permit, AuthorizeOptions, refusal_of}
use waterx_agent.Policy.Permits.{is_permit, bind_all, bound_with}
use waterx_agent.Policy.Calls.{Call, run, asks_for, brings}
use waterx_agent.Policy.Calls.Moves.{PermitMove, keeps, issues, deletes, binds, step-PermitMove}

module _ (digest_of : String → String) (g : Gate) where
  -- Some call asked for the permit `id` for an intent of this fingerprint, and nothing refused it.
  pub data IsAsked : List Call → ℕ → Fingerprint → Type 0 where
    asked :
        {c : Call} {past : List Call} (i : WriteIntent) (options : AuthorizeOptions) (now : Number)
        → asks_for c ≡ some (i, options, now)
        → refusal_of (run digest_of g past) i options now ≡ none
        → IsAsked (c ∷ past) (run digest_of g past).next_permit (fingerprint_intent i)
    asked_before :
        {c : Call} {past : List Call} {id : ℕ} {f : Fingerprint}
        → IsAsked past id f
        → IsAsked (c ∷ past) id f

  -- Some call brought bytes of this digest from the build of the permit `id`.
  pub data IsBuilt : List Call → ℕ → String → Type 0 where
    built :
        {c : Call} {past : List Call} (id : ℕ) (bytes : String)
        → brings c ≡ some (id, bytes)
        → IsBuilt (c ∷ past) id (digest_of bytes)
    built_before :
        {c : Call} {past : List Call} {id : ℕ} {d : String}
        → IsBuilt past id d
        → IsBuilt (c ∷ past) id d

  pub record IsVouched (past : List Call) (p : Permit) : Type 0 where
    pub asked_for : IsAsked past p.id p.fingerprint
    pub built_as : (d : String) → p.bound_to ≡ some d → IsBuilt past p.id d

  later-IsVouched :
      (c : Call) (past : List Call) (ps : List Permit)
      → All (IsVouched past) ps
      → All (IsVouched (c ∷ past)) ps
  later-IsVouched c past [] v = tt
  later-IsVouched c past (p ∷ ps) v = (
    record {
      asked_for = asked_before v.0.asked_for;
      built_as = λ d b. built_before (v.0.built_as d b);
    },
    later-IsVouched c past ps v.1,
  )

  IsBuilt-at :
      (c : Call) (past : List Call) (k : ℕ) (bytes : String) (id : ℕ) (d : String)
      → brings c ≡ some (k, bytes)
      → id ≡ k
      → d ≡ digest_of bytes
      → IsBuilt (c ∷ past) id d
  IsBuilt-at c past k bytes id d b same digest = rw (same, digest) (built k bytes b)

  bound_with-IsVouched :
      (c : Call) (past : List Call) (k : ℕ) (bytes : String) (p : Permit)
      → brings c ≡ some (k, bytes)
      → IsVouched (c ∷ past) p
      → IsVouched (c ∷ past) (bound_with (digest_of bytes) k p)
  bound_with-IsVouched c past k bytes p b v = elim (Bool-cases (p.id == k)) [
    | inl e ↦ rw e (record {
      asked_for = v.asked_for;
      built_as = λ d q. IsBuilt-at c past k bytes p.id d b ((==_iff p.id k).0 e) (cc);
    })
    | inr e ↦ rw e v
  ]

  bind_all-IsVouched :
      (c : Call) (past : List Call) (k : ℕ) (bytes : String) (ps : List Permit)
      → brings c ≡ some (k, bytes)
      → All (IsVouched (c ∷ past)) ps
      → All (IsVouched (c ∷ past)) (bind_all (digest_of bytes) k ps)
  bind_all-IsVouched c past k bytes [] b v = tt
  bind_all-IsVouched c past k bytes (p ∷ ps) b v =
      (bound_with-IsVouched c past k bytes p b v.0, bind_all-IsVouched c past k bytes ps b v.1)

  move-IsVouched :
      (c : Call) (past : List Call) (h : Gate)
      → PermitMove digest_of c (run digest_of g past) h
      → All (IsVouched past) (run digest_of g past).permits
      → All (IsVouched (c ∷ past)) h.permits
  move-IsVouched c past h (keeps same n) v = rw same (later-IsVouched c past _ v)
  move-IsVouched c past h (issues i options now a e same n) v = rw same (
    record { asked_for = asked i options now a e; built_as = λ d b. cc },
    later-IsVouched c past _ v,
  )
  move-IsVouched c past h (deletes k same n) v =
      rw same (All-filter _ (λ p. not (is_permit k p)) _ (later-IsVouched c past _ v))
  move-IsVouched c past h (binds k bytes b same n) v =
      rw same (bind_all-IsVouched c past k bytes _ b (later-IsVouched c past _ v))

  pub run-IsVouched :
      (past : List Call) → g.permits ≡ [] → All (IsVouched past) (run digest_of g past).permits
  unfolding run
  run-IsVouched [] new = rw new tt
  run-IsVouched (c ∷ past) new =
      move-IsVouched c past _ (step-PermitMove digest_of (run digest_of g past) c)
        (run-IsVouched past new)
