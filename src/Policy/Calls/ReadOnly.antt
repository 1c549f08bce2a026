-- ===== src/Policy/Calls/ReadOnly.antt =====
-- src/policy.ts: a read-only gate lets nothing be signed.
use waterx_agent.Prelude.{
  ℕ, ◌≡◌, refl, sym, subst, ◌∙◌, Bool, String, List, [], ◌∷◌, Option, none, Number, find, if-none,
}
use waterx_agent.Policy.Intent.{WriteIntent}
use waterx_agent.Policy.Scope.{PolicyScope, has_unmeasurable}
use waterx_agent.Policy.Gate.{
  Gate, PolicyMode, read_only, interactive, delegated_auto, done, refused, no_permit, new_gate,
  AuthorizeOptions, unmeasurable, mode_refusal, refusal_of,
}
use waterx_agent.Policy.Gate.Accepts.{new_gate-done}
use waterx_agent.Policy.Permits.{consume, delete_permit, bind_all, is_permit}
use waterx_agent.Policy.Calls.{Call, run}
use waterx_agent.Policy.Calls.Moves.{PermitMove, keeps, issues, deletes, binds, step-PermitMove}
use waterx_agent.Policy.Calls.Counts.Steps.{step-CountMove}

record IsShut (g : Gate) : Type 0 where
  reads : g.mode ≡ read_only
  empty : g.permits ≡ []

read_only-refuses :
    (mode : PolicyMode) (g : Gate) (i : WriteIntent) (options : AuthorizeOptions) (now : Number)
    → mode ≡ read_only
    → mode_refusal mode g.scope g.cumulative_collateral i options now ≡ none
    → ⊥
read_only-refuses read_only g i options now m h = cc
read_only-refuses interactive g i options now m h = cc
read_only-refuses delegated_auto g i options now m h = cc

move-empty :
    (digest_of : String → String) (c : Call) (g h : Gate)
    → IsShut g
    → PermitMove digest_of c g h
    → h.permits ≡ []
unfolding refusal_of
move-empty digest_of c g h v (keeps same n) = same ∙ v.empty
move-empty digest_of c g h v (issues i options now a e same n) = absurd (
    read_only-refuses g.mode g i options now v.reads
      ((if-none (has_unmeasurable i) unmeasurable _ e).1))
move-empty digest_of c g h v (deletes k same n) =
    same ∙ subst (λ ps. delete_permit k ps ≡ []) (sym v.empty) refl
move-empty digest_of c g h v (binds k bytes b same n) =
    same ∙ subst (λ ps. bind_all (digest_of bytes) k ps ≡ []) (sym v.empty) refl

run-IsShut :
    (digest_of : String → String) (g : Gate) (past : List Call)
    → IsShut g
    → IsShut (run digest_of g past)
unfolding run
run-IsShut digest_of g [] v = v
run-IsShut digest_of g (c ∷ past) v =
    let w = run-IsShut digest_of g past v in
    record {
      reads = (step-CountMove digest_of (run digest_of g past) c).same_mode ∙ w.reads;
      empty =
          move-empty digest_of c (run digest_of g past) _ w
            (step-PermitMove digest_of (run digest_of g past) c);
    }

empty-refuses :
    (digest_of : String → String) (g : Gate) (id : ℕ) (i : WriteIntent) (bytes : String)
    → find (is_permit id) g.permits ≡ none
    → (consume digest_of g id i bytes).1 ≡ refused no_permit
unfolding consume
empty-refuses digest_of g id i bytes e = rw (e, consume) refl

-- However a read-only gate was called before, it lets no intent and no bytes be signed.
pub read_only_signs_nothing :
    (digest_of : String → String) (scope : Option PolicyScope) (signing : Bool)
    (spent : Option Number) (g : Gate) (past : List Call) (id : ℕ) (i : WriteIntent)
    (bytes : String)
    → new_gate read_only scope signing spent ≡ done g
    → (consume digest_of (run digest_of g past) id i bytes).1 ≡ refused no_permit
read_only_signs_nothing digest_of scope signing spent g past id i bytes built =
    let e = (new_gate-done read_only scope signing spent g built).1 in
    let v =
      run-IsShut digest_of g past (subst IsShut (sym e) (record { reads = refl; empty = refl })) in
    empty-refuses digest_of (run digest_of g past) id i bytes
      (subst (λ ps. find (is_permit id) ps ≡ none) (sym v.empty) refl)
