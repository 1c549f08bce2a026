-- ===== src/Policy/Gate/Accepts.antt =====
-- src/policy.ts, `authorize`: what an intent satisfies that nothing refuses.
use waterx_agent.Prelude.{
  ◌≡◌, refl, Bool, false, List, [], ◌∷◌, inl, inr, subst, Option, none, some, Number, not, ◌||◌,
  ◌+ᴺ◌, arith, is_finite, IsAmount, zero_number, gtb_number, Bool-cases, if-none,
}
use waterx_agent.Policy.Intent.{WriteIntent, is_exit}
use waterx_agent.Policy.Scope.{
  PolicyScope, Violation, has_unmeasurable, is_unmeasurable, stateless_scope_violations,
  is_owner_only_action,
}
use waterx_agent.Policy.Gate.{
  Gate, PolicyMode, read_only, interactive, delegated_auto, AuthorizeOptions, PolicyRefusal,
  unmeasurable, owner_only, open_unusable, open_ceiling, cumulative_ceiling, first_refusal,
  scope_refusal, live_refusal, metered_refusal, mode_refusal, commits, refusal_of, done, fresh_gate,
  construction_refusal, unless_refused, new_gate,
}

abbrev pub IsAmountIn : Option Number → Type 0
IsAmountIn none = Unit
IsAmountIn (some n) = IsAmount n

measured-IsAmountIn : (o : Option Number) → is_unmeasurable o ≡ false → IsAmountIn o
measured-IsAmountIn o h = ground arith

commits-IsAmountIn : (i : WriteIntent) → has_unmeasurable i ≡ false → IsAmountIn (commits i)
unfolding has_unmeasurable
commits-IsAmountIn i h = elim (Bool-cases (is_exit i.action)) [
  | inl e ↦ rw e tt
  | inr e ↦ rw e (measured-IsAmountIn i.collateral (ground arith))
]

first_refusal-none :
    (vs : List Violation) (rest : Option PolicyRefusal)
    → first_refusal vs rest ≡ none
    → (vs ≡ []) × (rest ≡ none)
first_refusal-none [] rest h = (refl, h)
first_refusal-none (v ∷ vs) rest h = cc

-- What delegated-auto found of an intent that it accepts.
pub record IsDelegable (g : Gate) (s : PolicyScope) (i : WriteIntent) (options : AuthorizeOptions)
    (now : Number) : Type 0 where
  pub no_owner_action : is_owner_only_action i.action ≡ false
  pub no_violation : stateless_scope_violations i s now ≡ []
  pub no_ceiling : metered_refusal g.cumulative_collateral s i options.open_collateral ≡ none

pub refusal_of-measured :
    (g : Gate) (i : WriteIntent) (options : AuthorizeOptions) (now : Number)
    → refusal_of g i options now ≡ none
    → has_unmeasurable i ≡ false
unfolding refusal_of
refusal_of-measured g i options now h = (if-none (has_unmeasurable i) unmeasurable _ h).0

delegated-none :
    (mode : PolicyMode) (scope : Option PolicyScope) (g : Gate) (s : PolicyScope) (i : WriteIntent)
    (options : AuthorizeOptions) (now : Number)
    → mode ≡ delegated_auto
    → scope ≡ some s
    → mode_refusal mode scope g.cumulative_collateral i options now ≡ none
    → IsDelegable g s i options now
unfolding scope_refusal
delegated-none read_only scope g s i options now m e h = cc
delegated-none interactive scope g s i options now m e h = cc
delegated-none delegated_auto none g s i options now m e h = cc
delegated-none delegated_auto (some t) g s i options now m e h =
    let (owner, scoped) = if-none (is_owner_only_action i.action) owner_only _ h in
    let (stateless, live) = first_refusal-none (stateless_scope_violations i t now) _ scoped in
    let same : t ≡ s = cc in
    record {
      no_owner_action = owner;
      no_violation = subst (λ u. stateless_scope_violations i u now ≡ []) same stateless;
      no_ceiling =
          subst (λ u. metered_refusal g.cumulative_collateral u i options.open_collateral ≡ none)
            same live;
    }

-- Under delegated-auto an accepted intent is none that only the owner may sign, breaks no stateless
-- rule of the scope, and breaks no ceiling.
pub refusal_of-IsDelegable :
    (g : Gate) (s : PolicyScope) (i : WriteIntent) (options : AuthorizeOptions) (now : Number)
    → g.mode ≡ delegated_auto
    → g.scope ≡ some s
    → refusal_of g i options now ≡ none
    → IsDelegable g s i options now
unfolding refusal_of
refusal_of-IsDelegable g s i options now m e h =
    delegated-none g.mode g.scope g s i options now m e
      ((if-none (has_unmeasurable i) unmeasurable _ h).1)

-- What is open and what is committed are below their ceilings, the amount included.
pub record IsBelowCeilings (c : Number) (s : PolicyScope) (measured : Option Number)
    (amount : Number) : Type 0 where
  pub opened : Number
  pub supplied : measured ≡ some opened
  pub usable : IsAmount opened
  pub below_open : gtb_number (opened +ᴺ amount) s.max_open_collateral ≡ false
  pub below_cumulative : gtb_number (c +ᴺ amount) s.max_cumulative_collateral ≡ false

usable-IsAmount :
    (o : Number) → (not (is_finite o) || gtb_number zero_number o) ≡ false → IsAmount o
usable-IsAmount o h = ground arith

live_refusal-none :
    (c : Number) (s : PolicyScope) (measured : Option Number) (amount : Number)
    → live_refusal c s measured amount ≡ none
    → IsBelowCeilings c s measured amount
unfolding live_refusal
live_refusal-none c s none amount h = cc
live_refusal-none c s (some o) amount h =
    let (u, rest) = if-none (not (is_finite o) || gtb_number zero_number o) open_unusable _ h in
    let (p, rest2) = if-none (gtb_number (o +ᴺ amount) s.max_open_collateral) open_ceiling _ rest in
    let (q, rest3) =
      if-none (gtb_number (c +ᴺ amount) s.max_cumulative_collateral) cumulative_ceiling none
        rest2 in
    record {
      opened = o;
      supplied = refl;
      usable = usable-IsAmount o u;
      below_open = p;
      below_cumulative = q;
    }

-- An intent that commits an amount is one that the ceilings meter.
metered_refusal-none :
    (c : Number) (s : PolicyScope) (i : WriteIntent) (measured : Option Number) (amount : Number)
    → metered_refusal c s i measured ≡ none
    → commits i ≡ some amount
    → live_refusal c s measured amount ≡ none
metered_refusal-none c s i measured amount h m = ground arith

pub refusal_of-IsBelowCeilings :
    (g : Gate) (s : PolicyScope) (i : WriteIntent) (options : AuthorizeOptions)
    (now amount : Number)
    → g.mode ≡ delegated_auto
    → g.scope ≡ some s
    → refusal_of g i options now ≡ none
    → commits i ≡ some amount
    → IsBelowCeilings g.cumulative_collateral s options.open_collateral amount
refusal_of-IsBelowCeilings g s i options now amount m e h a =
    let d = refusal_of-IsDelegable g s i options now m e h in
    live_refusal-none g.cumulative_collateral s options.open_collateral amount (
      metered_refusal-none g.cumulative_collateral s i options.open_collateral amount d.no_ceiling
        a)

-- What an accepted intent commits is an amount.
pub refusal_of-IsAmountIn :
    (g : Gate) (i : WriteIntent) (options : AuthorizeOptions) (now : Number)
    → refusal_of g i options now ≡ none
    → IsAmountIn (commits i)
refusal_of-IsAmountIn g i options now h =
    commits-IsAmountIn i (refusal_of-measured g i options now h)

unless_refused-done :
    {A : Type 0} (o : Option PolicyRefusal) (a b : A)
    → unless_refused o a ≡ done b
    → (o ≡ none) × (b ≡ a)
unless_refused-done none a b h = (refl, cc)
unless_refused-done (some r) a b h = cc

-- The gate that the constructor gives is fresh, and under delegated-auto it has a complete scope and
-- signs with a delegate's key.
pub new_gate-done :
    (mode : PolicyMode) (scope : Option PolicyScope) (signing : Bool) (spent : Option Number)
    (g : Gate)
    → new_gate mode scope signing spent ≡ done g
    → (construction_refusal mode scope signing ≡ none) × (g ≡ fresh_gate mode scope spent)
unfolding new_gate
new_gate-done mode scope signing spent g h =
    unless_refused-done (construction_refusal mode scope signing) (fresh_gate mode scope spent) g h
