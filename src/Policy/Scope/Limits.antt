-- ===== src/Policy/Scope/Limits.antt =====
-- src/policy.ts, `statelessScopeViolations`: an intent breaks no rule exactly when it is in the scope.
use waterx_agent.Prelude.{
  String, Bool, true, false, not, ◌&&◌, List, [], ◌++◌, Option, none, some, Number, gtb_number,
  includes, if◌then◌else◌, ◌≡◌, refl, ◌↔◌, ◌⊎◌, arith,
}
use waterx_agent.Policy.Intent.{Side, WriteIntent, is_exit}
use waterx_agent.Policy.Scope.{
  PolicyScope, Violation, outside_markets, outside_sides, exceeds, when, is_unmetered, has_side,
  stateless_scope_violations, scope_ended, account_not_listed, market_not_listed, side_not_allowed,
  slippage_above, leverage_above, collateral_above,
}

-- A value that is there is not above the ceiling.
abbrev pub IsUnder : Option Number → Number → Type 0
IsUnder none ceiling = Unit
IsUnder (some n) ceiling = gtb_number n ceiling ≡ false

abbrev pub IsListed : Option String → Option (List String) → Type 0
IsListed (some ticker) (some markets) = includes markets ticker ≡ true
IsListed _ _ = Unit

abbrev pub IsAllowed : Option Side → Option (List Side) → Type 0
IsAllowed (some side) (some sides) = has_side sides side ≡ true
IsAllowed _ _ = Unit

-- The intent is in the scope at the instant `at`.
pub record IsInScope (i : WriteIntent) (s : PolicyScope) (at : Number) : Type 0 where
  pub on_time : gtb_number at s.not_after ≡ false
  pub of_account : includes s.accounts i.account_id ≡ true
  pub in_market : IsListed i.ticker s.markets
  pub on_side : IsAllowed i.side s.sides
  pub slippage_under : IsUnder i.slippage_percent s.max_slippage_percent
  pub sized :
      ((i.increases_exposure ≡ false) × (is_exit i.action ≡ true))
      ⊎ (IsUnder i.leverage s.max_leverage × IsUnder i.collateral s.max_collateral_per_order)

when-append :
    (b : Bool) (v : Violation) (vs : List Violation)
    → (when b v ++ vs ≡ []) ↔ ((b ≡ false) × (vs ≡ []))
when-append b v vs = ground arith

exceeds-IsUnder :
    (o : Option Number) (ceiling : Number) → (exceeds o ceiling ≡ false) ↔ IsUnder o ceiling
exceeds-IsUnder none ceiling = ((λ h. tt), (λ h. refl))
exceeds-IsUnder (some n) ceiling = ((λ h. h), (λ h. h))

not_iff : (b : Bool) → (not b ≡ false) ↔ (b ≡ true)
not_iff b = ground arith

outside_markets-IsListed :
    (t : Option String) (m : Option (List String)) → (outside_markets t m ≡ false) ↔ IsListed t m
outside_markets-IsListed t m = ground arith

outside_sides-IsAllowed :
    (t : Option Side) (m : Option (List Side)) → (outside_sides t m ≡ false) ↔ IsAllowed t m
outside_sides-IsAllowed t m = ground arith

-- What the last part of the list says: the ceilings on leverage and on the order's collateral.
sized_part : WriteIntent → PolicyScope → List Violation
sized_part i s =
    if is_unmetered i
    then []
    else when (exceeds i.leverage s.max_leverage) leverage_above
      ++ when (exceeds i.collateral s.max_collateral_per_order) collateral_above

sized_part-empty :
    (i : WriteIntent) (s : PolicyScope)
    → (sized_part i s ≡ []) ↔ (
        ((i.increases_exposure ≡ false) × (is_exit i.action ≡ true))
        ⊎ (IsUnder i.leverage s.max_leverage × IsUnder i.collateral s.max_collateral_per_order))
unfolding sized_part
sized_part-empty i s = sized i.increases_exposure (is_exit i.action) i.leverage i.collateral
  where
    sized :
        (b e : Bool) (leverage collateral : Option Number)
        → ((if not b && e
              then []
              else when (exceeds leverage s.max_leverage) leverage_above
                ++ when (exceeds collateral s.max_collateral_per_order) collateral_above)
            ≡ [])
          ↔ (((b ≡ false) × (e ≡ true))
              ⊎ (IsUnder leverage s.max_leverage × IsUnder collateral s.max_collateral_per_order))
    sized b e leverage collateral = ground (
      arith,
      exceeds-IsUnder leverage s.max_leverage,
      exceeds-IsUnder collateral s.max_collateral_per_order,
    )

-- `statelessScopeViolations` is empty exactly when the intent is in the scope: on time, for a
-- listed account, in a listed market, on an allowed side, its slippage under the ceiling, and,
-- unless it is an exit that says that it adds no exposure, its leverage and collateral under
-- theirs.
pub stateless_scope_violations-IsInScope :
    (i : WriteIntent) (s : PolicyScope) (at : Number)
    → (stateless_scope_violations i s at ≡ []) ↔ IsInScope i s at
unfolding stateless_scope_violations sized_part
stateless_scope_violations-IsInScope i s at = (into, back)
  where
    market : outside_markets i.ticker s.markets ≡ false ↔ IsListed i.ticker s.markets
    market = outside_markets-IsListed i.ticker s.markets

    into : stateless_scope_violations i s at ≡ [] → IsInScope i s at
    into h =
        let (a, h1) = (when-append (gtb_number at s.not_after) scope_ended _).0 h in
        let (b, h2) =
          (when-append (not (includes s.accounts i.account_id)) account_not_listed _).0 h1 in
        let (c, h3) = (when-append (outside_markets i.ticker s.markets) market_not_listed _).0 h2 in
        let (d, h4) = (when-append (outside_sides i.side s.sides) side_not_allowed _).0 h3 in
        let (e, h5) =
          (when-append (exceeds i.slippage_percent s.max_slippage_percent) slippage_above _).0 h4 in
        record {
          on_time = a;
          of_account = (not_iff (includes s.accounts i.account_id)).0 b;
          in_market = market.0 c;
          on_side = (outside_sides-IsAllowed i.side s.sides).0 d;
          slippage_under = (exceeds-IsUnder i.slippage_percent s.max_slippage_percent).0 e;
          sized = (sized_part-empty i s).0 h5;
        }

    back : IsInScope i s at → stateless_scope_violations i s at ≡ []
    back v = (when-append (gtb_number at s.not_after) scope_ended _).1 (
      v.on_time,
      (when-append (not (includes s.accounts i.account_id)) account_not_listed _).1 (
        (not_iff (includes s.accounts i.account_id)).1 v.of_account,
        (when-append (outside_markets i.ticker s.markets) market_not_listed _).1 (
          market.1 v.in_market,
          (when-append (outside_sides i.side s.sides) side_not_allowed _).1 (
            (outside_sides-IsAllowed i.side s.sides).1 v.on_side,
            (when-append (exceeds i.slippage_percent s.max_slippage_percent) slippage_above _).1 (
              (exceeds-IsUnder i.slippage_percent s.max_slippage_percent).1 v.slippage_under,
              (sized_part-empty i s).1 v.sized,
            ),
          ),
        ),
      ),
    )
