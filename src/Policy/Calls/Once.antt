-- ===== src/Policy/Calls/Once.antt =====
-- src/policy.ts: a permit that was consumed is consumed no second time, whatever calls come between.
use waterx_agent.Prelude.{
  ℕ, suc, ◌<◌, ◌≡◌, refl, sym, String, Bool, List, [], ◌∷◌, ◌++◌, none, find, arith, All, All-find,
  All-filter, ==_iff, not, find_sound, subst, filter,
}
use waterx_agent.Policy.Intent.{WriteIntent}
use waterx_agent.Policy.Gate.{Gate, Permit, no_permit, done, refused, new_permit}
use waterx_agent.Policy.Permits.{is_permit, delete_permit, bind_all, consume}
use waterx_agent.Policy.Calls.{Call, consumes, step, run}
use waterx_agent.Policy.Calls.Moves.{PermitMove, keeps, issues, deletes, binds, step-PermitMove}
use waterx_agent.Policy.Calls.Consumed.{consume-IsTaken}

-- Every permit is older than the next.
abbrev IsNumbered : Gate → Type 0
IsNumbered g = All (λ p. p.id < g.next_permit) g.permits

-- The permit is gone, and no permit to come will have its identity.
record IsSpent (id : ℕ) (g : Gate) : Type 0 where
  gone : find (is_permit id) g.permits ≡ none
  old : id < g.next_permit

find-filter :
    (p q : Permit → Bool) (ps : List Permit) → find p ps ≡ none → find p (filter q ps) ≡ none
find-filter p q [] h = refl
find-filter p q (x ∷ ps) h = ground (arith, find-filter p q ps)

pub find-delete_permit :
    (id : ℕ) (ps : List Permit) → find (is_permit id) (delete_permit id ps) ≡ none
find-delete_permit id [] = refl
find-delete_permit id (p ∷ ps) = ground (arith, find-delete_permit id ps)

find-bind_all :
    (digest : String) (id k : ℕ) (ps : List Permit)
    → find (is_permit id) ps ≡ none
    → find (is_permit id) (bind_all digest k ps) ≡ none
find-bind_all digest id k [] h = refl
find-bind_all digest id k (p ∷ ps) h = ground (arith, find-bind_all digest id k ps)

bind_all-IsNumbered :
    (digest : String) (k next : ℕ) (ps : List Permit)
    → All (λ p. p.id < next) ps
    → All (λ p. p.id < next) (bind_all digest k ps)
bind_all-IsNumbered digest k next [] v = tt
bind_all-IsNumbered digest k next (p ∷ ps) v =
    (ground (arith, v.0), bind_all-IsNumbered digest k next ps v.1)

suc-IsNumbered :
    (next : ℕ) (ps : List Permit) → All (λ p. p.id < next) ps → All (λ p. p.id < suc next) ps
suc-IsNumbered next [] v = tt
suc-IsNumbered next (p ∷ ps) v = (omega (arith, v.0), suc-IsNumbered next ps v.1)

IsNumbered-at :
    (h : Gate) (next : ℕ) (ps : List Permit)
    → h.next_permit ≡ next
    → h.permits ≡ ps
    → All (λ p. p.id < next) ps
    → IsNumbered h
IsNumbered-at h next ps n same v = rw same (subst (λ m. All (λ p. p.id < m) ps) (sym n) v)

module _ (digest_of : String → String) where
  move-IsNumbered :
      (c : Call) (g h : Gate) → PermitMove digest_of c g h → IsNumbered g → IsNumbered h
  move-IsNumbered c g h (keeps same n) v = IsNumbered-at h g.next_permit g.permits n same v
  move-IsNumbered c g h (issues i options now a e same n) v =
      IsNumbered-at h (suc g.next_permit) (new_permit g.next_permit i ∷ g.permits) n same
        (omega arith, suc-IsNumbered g.next_permit g.permits v)
  move-IsNumbered c g h (deletes k same n) v =
      IsNumbered-at h g.next_permit (delete_permit k g.permits) n same
        (All-filter _ (λ p. not (is_permit k p)) _ v)
  move-IsNumbered c g h (binds k bytes b same n) v =
      IsNumbered-at h g.next_permit (bind_all (digest_of bytes) k g.permits) n same
        (bind_all-IsNumbered (digest_of bytes) k g.next_permit g.permits v)

  run-IsNumbered :
      (g : Gate) (past : List Call) → g.permits ≡ [] → IsNumbered (run digest_of g past)
  unfolding run
  run-IsNumbered g [] new = rw new tt
  run-IsNumbered g (c ∷ past) new =
      move-IsNumbered c (run digest_of g past) _
        (step-PermitMove digest_of (run digest_of g past) c) (run-IsNumbered g past new)

  move-IsSpent :
      (id : ℕ) (c : Call) (g h : Gate) → PermitMove digest_of c g h → IsSpent id g → IsSpent id h
  move-IsSpent id c g h (keeps same n) v = record { gone = rw same v.gone; old = rw n v.old }
  move-IsSpent id c g h (issues i options now a e same n) v = record {
    gone = rw same (ground (arith, v.gone, v.old));
    old = rw n (omega (arith, v.old));
  }
  move-IsSpent id c g h (deletes k same n) v = record {
    gone = rw same (find-filter (is_permit id) (λ p. not (is_permit k p)) g.permits v.gone);
    old = rw n v.old;
  }
  move-IsSpent id c g h (binds k bytes b same n) v = record {
    gone = rw same (find-bind_all (digest_of bytes) id k g.permits v.gone);
    old = rw n v.old;
  }

  run-IsSpent :
      (id : ℕ) (g : Gate) (past later : List Call)
      → IsSpent id (run digest_of g past)
      → IsSpent id (run digest_of g (later ++ past))
  unfolding run
  run-IsSpent id g past [] v = v
  run-IsSpent id g past (c ∷ later) v =
      move-IsSpent id c (run digest_of g (later ++ past)) _
        (step-PermitMove digest_of (run digest_of g (later ++ past)) c)
        (run-IsSpent id g past later v)

  consume-IsSpent :
      (g : Gate) (id : ℕ) (i : WriteIntent) (bytes : String)
      → IsNumbered g
      → (consume digest_of g id i bytes).1 ≡ done tt
      → IsSpent id (consume digest_of g id i bytes).0
  consume-IsSpent g id i bytes v h =
      let t = consume-IsTaken digest_of g id i bytes h in
      let same : t.permit.id ≡ id =
        (==_iff t.permit.id id).0 (find_sound (is_permit id) _ t.permit t.found) in
      rw t.taken_out (record {
        gone = find-delete_permit id g.permits;
        old =
            subst (λ k. k < g.next_permit) same
              (All-find (λ p. p.id < g.next_permit) (is_permit id) _ t.permit v t.found);
      })

  spent-refused :
      (g : Gate) (id : ℕ) (i : WriteIntent) (bytes : String)
      → IsSpent id g
      → (consume digest_of g id i bytes).1 ≡ refused no_permit
  unfolding consume
  spent-refused g id i bytes v = rw (v.gone, consume) refl

  -- On a gate that began without permits, a permit that was consumed is refused from then on, for
  -- every intent and all bytes, whatever calls come in between.
  pub consumed_once :
      (g : Gate) (past later : List Call) (id : ℕ) (i j : WriteIntent) (bytes other : String)
      → g.permits ≡ []
      → (consume digest_of (run digest_of g past) id i bytes).1 ≡ done tt
      → (consume digest_of (run digest_of g (later ++ (consumes id i bytes ∷ past))) id j other).1
        ≡ refused no_permit
  unfolding run step
  consumed_once g past later id i j bytes other new h =
      let g1 = run digest_of g past in
      let spent = consume-IsSpent g1 id i bytes (run-IsNumbered g past new) h in
      let g2 = run digest_of g (later ++ (consumes id i bytes ∷ past)) in
      spent-refused g2 id j other (run-IsSpent id g (consumes id i bytes ∷ past) later spent)
