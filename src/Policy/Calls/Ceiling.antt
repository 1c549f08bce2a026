-- ===== src/Policy/Calls/Ceiling.antt =====
-- src/policy.ts: under delegated-auto the cumulative ceiling holds after any sequence of calls.
use waterx_agent.Prelude.{
  IsJsNumber, ◌≡◌, refl, sym, Bool, String, List, [], ◌∷◌, none, some, Number, not, ◌+ᴺ◌, All,
  All-find, All-filter, subst, IsAtMost, add-IsAtMost, sub-IsAtMost,
}
use waterx_agent.Policy.Intent.{WriteIntent}
use waterx_agent.Policy.Scope.{PolicyScope}
use waterx_agent.Policy.Gate.{
  Gate, done, fresh_gate, new_gate, delegated_auto, AuthorizeOptions, commits, refusal_of,
}
use waterx_agent.Policy.Gate.Accepts.{
  IsAmountIn, new_gate-done, refusal_of-IsAmountIn, refusal_of-IsBelowCeilings,
}
use waterx_agent.Policy.Permits.{waits_for}
use waterx_agent.Policy.Calls.{Call, step, run}
use waterx_agent.Policy.Calls.Counts.{Counted, nothing, adds, takes, Waiting, same, fewer, one_more}
use waterx_agent.Policy.Calls.Counts.Steps.{step-CountMove}

-- What is committed is below the ceiling, and every build that may fail gives back no less than zero.
pub record IsWithin (s : PolicyScope) (g : Gate) : Type 0 where
  pub delegated : g.mode ≡ delegated_auto
  pub scoped : g.scope ≡ some s
  pub ceiling : IsJsNumber s.max_cumulative_collateral
  pub below : IsAtMost g.cumulative_collateral s.max_cumulative_collateral
  pub builds_measured : All (λ b. IsAmountIn (commits b.intent)) g.builds

refusal_of-below :
    (s : PolicyScope) (g : Gate) (i : WriteIntent) (options : AuthorizeOptions)
    (now amount : Number)
    → IsWithin s g
    → refusal_of g i options now ≡ none
    → commits i ≡ some amount
    → IsAtMost (g.cumulative_collateral +ᴺ amount) s.max_cumulative_collateral
refusal_of-below s g i options now amount w h m =
    add-IsAtMost g.cumulative_collateral amount s.max_cumulative_collateral w.below
      (subst IsAmountIn m (refusal_of-IsAmountIn g i options now h))
      (refusal_of-IsBelowCeilings g s i options now amount w.delegated w.scoped h
        m).below_cumulative

step-IsWithin :
    (digest_of : String → String) (s : PolicyScope) (g : Gate) (c : Call)
    → IsWithin s g
    → IsWithin s (step digest_of g c)
step-IsWithin digest_of s g c w =
    let m = step-CountMove digest_of g c in
    let h = step digest_of g c in
    record {
      delegated = rw m.same_mode w.delegated;
      scoped = rw m.same_scope w.scoped;
      ceiling = w.ceiling;
      below = counted_below h m.counted;
      builds_measured = waiting_measured h m.waiting;
    }
  where
    counted_below :
        (h : Gate) → Counted c g h → IsAtMost h.cumulative_collateral s.max_cumulative_collateral
    counted_below h (nothing x y) = rw x w.below
    counted_below h (adds i options now amount a e m x y) =
        rw x (refusal_of-below s g i options now amount w e m)
    counted_below h (takes k b amount f e x y) = rw x (
        sub-IsAtMost g.cumulative_collateral amount s.max_cumulative_collateral w.ceiling w.below (
          subst IsAmountIn e
            (All-find (λ d. IsAmountIn (commits d.intent)) (waits_for k) _ b w.builds_measured f)))

    waiting_measured : (h : Gate) → Waiting g h → All (λ b. IsAmountIn (commits b.intent)) h.builds
    waiting_measured h (same e) = rw e w.builds_measured
    waiting_measured h (fewer k e) =
        rw e (All-filter _ (λ b. not (waits_for k b)) _ w.builds_measured)
    waiting_measured h (one_more k i options now r e) =
        rw e (refusal_of-IsAmountIn g i options now r, w.builds_measured)

run-IsWithin :
    (digest_of : String → String) (s : PolicyScope) (g : Gate) (past : List Call)
    → IsWithin s g
    → IsWithin s (run digest_of g past)
unfolding run
run-IsWithin digest_of s g [] w = w
run-IsWithin digest_of s g (c ∷ past) w =
    step-IsWithin digest_of s (run digest_of g past) c (run-IsWithin digest_of s g past w)

-- A delegated-auto gate is built with a count that is not above the ceiling of its scope, a number
-- that there is in the language. After any sequence of authorizations, builds that fail or
-- succeed, and consumptions, with a meter that may fail at any time, what is committed, which is
-- summed in doubles, is not above the ceiling.
pub ceiling_holds :
    (digest_of : String → String) (s : PolicyScope) (signing : Bool) (n : Number) (g : Gate)
    (past : List Call)
    → new_gate delegated_auto (some s) signing (some n) ≡ done g
    → IsJsNumber s.max_cumulative_collateral
    → IsAtMost n s.max_cumulative_collateral
    → IsAtMost (run digest_of g past).cumulative_collateral s.max_cumulative_collateral
ceiling_holds digest_of s signing n g past built ceiling b =
    let e = (new_gate-done delegated_auto (some s) signing (some n) g built).1 in
    (run-IsWithin digest_of s g past (subst (IsWithin s) (sym e) fresh)).below
  where
    fresh : IsWithin s (fresh_gate delegated_auto (some s) (some n))
    fresh = record {
      delegated = refl;
      scoped = refl;
      ceiling = ceiling;
      below = b;
      builds_measured = tt;
    }
