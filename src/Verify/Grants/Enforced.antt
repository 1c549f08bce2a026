-- ===== src/Verify/Grants/Enforced.antt =====
-- A grant that passes lands, once and whole, in each slot that the contract reads.
use waterx_agent.Prelude.{
  ℕ, Bool, true, false, List, [], ◌∷◌, Option, none, some, if◌then◌else◌, ℤ, pos, ◌≡◌, ◌≢◌, refl,
  ap, subst, arith, Bool-cases, inl, inr, All,
}
use waterx_agent.Policy.Intent.{DelegatePermissions}
use waterx_agent.Verify.Transaction.{Decoded, call_at}
use waterx_agent.Verify.Deployment.{Deployment, Protocol, perp, predict, staking}
use waterx_agent.Verify.Encoding.{eq_ℤ}
use waterx_agent.Verify.Authorized.{big_int_of_number}
use waterx_agent.Verify.Host.{Host}
use waterx_agent.Verify.Arguments.{ceiling_of}
use waterx_agent.Verify.Grants.{
  Grant, eq_protocol, grant_of, grant_for, is_granted, check_wanted_grant, check_protocol_granted,
  check_granted, add_grant, check_grants_from, check_grants,
}
use waterx_agent.Verify.Equal.{eq_ℤ_sound}
use waterx_agent.Verify.Refusal.{Check, check_each_sound, passed_if, slot_written_twice, Refusal}

-- The writes of enforced slots among the companions.
abbrev and_grant : Option Grant → List Grant → List Grant
and_grant none gs = gs
and_grant (some g) gs = g ∷ gs

module _ (h : Host) (d : Deployment) (t : Decoded) where
  unfoldable pub enforced_writes : List ℕ → List Grant
  enforced_writes [] = []
  enforced_writes (i ∷ is) = and_grant (grant_of h d t (call_at t i)) (enforced_writes is)

abbrev pub masks_for : Protocol → List Grant → List ℤ
masks_for p [] = []
masks_for p (g ∷ gs) =
    if eq_protocol g.protocol p then g.granted ∷ masks_for p gs else masks_for p gs

-- No write for a protocol that is granted already, and at most one for another.
abbrev AtMostOne : Option ℤ → List ℤ → Type 0
AtMostOne none [] = Unit
AtMostOne none (n ∷ []) = Unit
AtMostOne none (n ∷ m ∷ ns) = ⊥
AtMostOne (some n) [] = Unit
AtMostOne (some n) (m ∷ ns) = ⊥

-- What the map holds for a protocol after the loop: what it held, or the write.
abbrev held_after : Option ℤ → List ℤ → Option ℤ
held_after (some n) ns = some n
held_after none [] = none
held_after none (n ∷ ns) = some n

-- The state of the loop for one protocol: what the map holds, what is still written, and that the
-- mask that is wanted is there at the end.
abbrev IsSound : Option ℤ → Option ℤ → List ℤ → Type 0
IsSound wanted held ns = AtMostOne held ns × (check_wanted_grant wanted (held_after held ns) ≡ none)

one_more :
    (wanted held : Option ℤ) (same : Bool) (n : ℤ) (ns : List ℤ)
    → (same ≡ true → held ≡ none)
    → IsSound wanted (if same then some n else held) ns
    → IsSound wanted held (if same then n ∷ ns else ns)
one_more wanted none true n [] e g = g
one_more wanted none true n (m ∷ ns) e g = absurd (g.0)
one_more wanted (some x) true n ns e g = absurd (let p = e refl in cc)
one_more wanted none false n ns e g = g
one_more wanted (some x) false n ns e g = g

no_more : (wanted held : Option ℤ) → check_wanted_grant wanted held ≡ none → IsSound wanted held []
no_more wanted none k = (tt, k)
no_more wanted (some x) k = (tt, k)

eq_protocol_sound : (p q : Protocol) → eq_protocol p q ≡ true → p ≡ q
eq_protocol_sound p q h = ground arith

-- The one mask that is wanted is written, where it is not zero.
abbrev pub IsWhole : Option ℤ → List ℤ → Type 0
IsWhole none written = ⊥
IsWhole (some wanted) written = wanted ≢ pos 0 → written ≡ wanted ∷ []

whole_written : (w : ℤ) (ns : List ℤ) → IsSound (some w) none ns → w ≢ pos 0 → ns ≡ w ∷ []
whole_written w [] g n = absurd (n (eq_ℤ_sound w (pos 0) (zero_if _ _ g.1)))
  where
    zero_if : (b : Bool) (r : Refusal) → (if b then none else some r) ≡ none → b ≡ true
    zero_if b r e = passed_if b r e
whole_written w (x ∷ []) g n = elim (Bool-cases (eq_ℤ w (pos 0))) [
  | inl zero_mask ↦ absurd (n (eq_ℤ_sound w (pos 0) zero_mask))
  | inr other ↦ let k = passed_if _ _ (rw other at g.1) in ap (λ (m : ℤ). m ∷ []) (eq_ℤ_sound x w k)
]
whole_written w (x ∷ y ∷ ns) g n = absurd (g.0)

sound-IsWhole : (wanted : Option ℤ) (ns : List ℤ) → IsSound wanted none ns → IsWhole wanted ns
sound-IsWhole none ns g = absurd (let k = g.1 in cc)
sound-IsWhole (some w) ns g = whole_written w ns g

module _ (h : Host) (d : Deployment) (t : Decoded) (ceilings : DelegatePermissions) where
  abbrev wanted_mask : Protocol → Option ℤ
  wanted_mask p = big_int_of_number h.one (ceiling_of ceilings p)

  three :
      (enforced : List Grant)
      → check_granted h ceilings enforced ≡ none
      → All
          (λ p. check_protocol_granted h ceilings enforced p ≡ none)
          (perp ∷ predict ∷ staking ∷ [])
  unfolding check_granted
  three enforced k =
      check_each_sound (check_protocol_granted h ceilings enforced) (perp ∷ predict ∷ staking ∷ [])
        k

  granted_each :
      (p : Protocol) (enforced : List Grant)
      → check_granted h ceilings enforced ≡ none
      → check_wanted_grant (wanted_mask p) (grant_for p enforced) ≡ none
  unfolding check_protocol_granted
  granted_each perp enforced k = (three enforced k).0
  granted_each predict enforced k = (three enforced k).1.0
  granted_each staking enforced k = (three enforced k).1.1.0

  add-IsSound :
      (p : Protocol) (enforced : List Grant) (o : Option Grant) (ws : List Grant)
      (rest : List Grant → Check)
      → ((gs : List Grant)
          → rest gs ≡ none
          → IsSound (wanted_mask p) (grant_for p gs) (masks_for p ws))
      → add_grant rest enforced o ≡ none
      → IsSound (wanted_mask p) (grant_for p enforced) (masks_for p (and_grant o ws))
  unfolding grant_for
  add-IsSound p enforced none ws rest ih k = ih enforced k
  add-IsSound p enforced (some g) ws rest ih k =
      let (fresh, go) =
        fresh_then (is_granted (grant_for g.protocol enforced)) (rest (g ∷ enforced)) k in
      one_more (wanted_mask p) (grant_for p enforced) (eq_protocol g.protocol p) g.granted
        (masks_for p ws)
        (λ same. none_unless (grant_for p enforced) (
          subst (λ (q : Protocol). is_granted (grant_for q enforced) ≡ false)
            (eq_protocol_sound g.protocol p same) fresh))
        (ih (g ∷ enforced) go)
    where
      fresh_then :
          (b : Bool) (c : Check)
          → (if b then some slot_written_twice else c) ≡ none
          → (b ≡ false) × (c ≡ none)
      fresh_then b c e = ground arith

      none_unless : (o : Option ℤ) → is_granted o ≡ false → o ≡ none
      none_unless none e = refl
      none_unless (some n) e = absurd (cc)

  loop-IsSound :
      (p : Protocol) (is : List ℕ) (enforced : List Grant)
      → check_grants_from h d t ceilings is enforced ≡ none
      → IsSound (wanted_mask p) (grant_for p enforced) (masks_for p (enforced_writes h d t is))
  unfolding check_grants_from enforced_writes
  loop-IsSound p [] enforced k =
      no_more (wanted_mask p) (grant_for p enforced) (granted_each p enforced k)
  loop-IsSound p (i ∷ is) enforced k =
      add-IsSound p enforced (grant_of h d t (call_at t i)) (enforced_writes h d t is)
        (check_grants_from h d t ceilings is) (λ gs. loop-IsSound p is gs) k

  pub grants-IsWhole :
      (is : List ℕ)
      → check_grants h d t (some ceilings) is ≡ none
      → (p : Protocol)
      → IsWhole
          (big_int_of_number h.one (ceiling_of ceilings p))
          (masks_for p (enforced_writes h d t is))
  unfolding check_grants grant_for
  grants-IsWhole is k p = sound-IsWhole (wanted_mask p) _ (loop-IsSound p is [] k)
