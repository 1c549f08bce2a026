-- ===== src/Policy/Permits.antt =====
-- src/policy.ts, `PolicyGate`: `authorizeAndBuild`, `#release`, `#bind` and `consume`. The digest of
-- the transaction bytes (SHA-256, of `node:crypto`) is a parameter.
use waterx_agent.Prelude.{
  ℕ, ◌≡◌, String, Bool, not, ◌&&◌, List, [], ◌∷◌, Option, none, some, Number, neg_number,
  if◌then◌else◌, ◌==◌, str_eq, find, filter, text_join,
}
use waterx_agent.Policy.Intent.{WriteIntent, Fingerprint, Fingerprint-discrete, fingerprint_intent}
use waterx_agent.Policy.Gate.{
  Gate, Permit, Building, AuthorizeOptions, ledger_failed, build_failed, no_permit, already_bound,
  other_intent, never_bound, other_bytes, PolicyRefusal, Outcome, done, refused, commits, count,
  authorize,
}

abbrev pub is_permit : ℕ → Permit → Bool
is_permit id p = p.id == id

-- `this.permits.delete(permit)`
abbrev pub delete_permit : ℕ → List Permit → List Permit
delete_permit id ps = filter (λ p. not (is_permit id p)) ps

abbrev pub waits_for : ℕ → Building → Bool
waits_for id b = b.permit == id

abbrev pub stop_waiting : ℕ → Gate → Gate
stop_waiting id g = record g { builds = filter (λ b. not (waits_for id b)) g.builds }

-- What `authorize` came to; once it gave a permit, the call waits for its build.
unfoldable pub awaited : WriteIntent → Gate × Outcome Permit → Gate × Outcome Permit
awaited i (s, refused r) = (s, refused r)
awaited i (s, done p) =
    (record s { builds = record { permit = p.id; intent = i } ∷ s.builds }, done p)

-- The first step of `authorizeAndBuild`: authorize, and wait for the build.
unfoldable pub begin_build :
    Gate → WriteIntent → AuthorizeOptions → (now : Number) → (writes : Bool) → Gate × Outcome Permit
unfolding awaited
begin_build g i options now writes = awaited i (authorize g i options now writes)

-- `#release`
unfoldable pub release : Gate → WriteIntent → ℕ → (writes : Bool) → Gate × Outcome (Unit {0})
release g i id writes =
    let s = record g { permits = delete_permit id g.permits } in
    elim (commits i) [
      | none ↦ (s, done tt)
      | some amount ↦
          let t = count s i (text_join (i.action ∷ ":released" ∷ [])) (neg_number amount) writes in
          if g.has_meter && not writes then (t, refused ledger_failed) else (t, done tt)
    ]

abbrev pub bound_with : String → ℕ → Permit → Permit
bound_with digest id p = if is_permit id p then record p { bound_to = some digest } else p

abbrev pub bind_all : String → ℕ → List Permit → List Permit
bind_all digest id [] = []
bind_all digest id (p ∷ ps) = bound_with digest id p ∷ bind_all digest id ps

-- The write of a permit's binding, refused where it has one.
abbrev pub bind_free : Gate → ℕ → String → Option String → Gate × Outcome (Unit {0})
bind_free g id digest (some d) = (g, refused already_bound)
bind_free g id digest none = (record g { permits = bind_all digest id g.permits }, done tt)

-- `#bind`, for the digest of the bytes.
unfoldable pub bind : Gate → ℕ → String → Gate × Outcome (Unit {0})
bind g id digest = elim (find (is_permit id) g.permits) [
  | none ↦ (g, refused no_permit)
  | some p ↦ bind_free g id digest p.bound_to
]

-- The error that a failed build ends with: the meter's, if its write failed.
abbrev pub rethrown : Gate × Outcome (Unit {0}) → Gate × Outcome (Unit {0})
rethrown (s, done u) = (s, refused build_failed)
rethrown (s, refused r) = (s, refused r)

module _ (digest_of : String → String) where
  -- The build came back with bytes, or it threw.
  unfoldable pub built_with :
      Gate → ℕ → Building → Option String → (writes : Bool) → Gate × Outcome (Unit {0})
  built_with g id b none writes = rethrown (release (stop_waiting id g) b.intent id writes)
  built_with g id b (some bytes) writes = bind (stop_waiting id g) id (digest_of bytes)

  -- The second step of `authorizeAndBuild`.
  unfoldable pub end_build : Gate → ℕ → Option String → (writes : Bool) → Gate × Outcome (Unit {0})
  unfolding built_with
  end_build g id built writes = elim (find (waits_for id) g.builds) [
    | none ↦ (g, refused no_permit)
    | some b ↦ built_with g id b built writes
  ]

  -- The bytes that a permit is bound to, if it is.
  abbrev pub has_bytes : String → Option String → Option PolicyRefusal
  has_bytes bytes none = some never_bound
  has_bytes bytes (some d) = if str_eq d (digest_of bytes) then none else some other_bytes

  abbrev pub objection_by :
      {f k : Fingerprint} → Dec (f ≡ k) → Option String → String → Option PolicyRefusal
  objection_by (no differ) bound_to bytes = some other_intent
  objection_by (yes same) bound_to bytes = has_bytes bytes bound_to

  -- What `consume` holds against a permit.
  unfoldable pub objection : Permit → WriteIntent → String → Option PolicyRefusal
  objection p i bytes =
      objection_by (Fingerprint-discrete p.fingerprint (fingerprint_intent i)) p.bound_to bytes

  abbrev pub take_permit : Gate → ℕ → Option PolicyRefusal → Gate × Outcome (Unit {0})
  take_permit g id (some refusal) = (g, refused refusal)
  take_permit g id none = (record g { permits = delete_permit id g.permits }, done tt)

  -- `consume`
  unfoldable pub consume : Gate → ℕ → WriteIntent → String → Gate × Outcome (Unit {0})
  unfolding objection
  consume g id i bytes = elim (find (is_permit id) g.permits) [
    | none ↦ (g, refused no_permit)
    | some p ↦ take_permit g id (objection p i bytes)
  ]
