-- ===== src/Policy/Scope.antt =====
-- src/policy.ts: the scope, and the rules on an intent that read the scope alone.
pub mod Limits
use waterx_agent.Prelude.{
  String, Bool, true, false, not, ◌&&◌, ◌||◌, List, [], ◌∷◌, ◌++◌, Option, none, some, Number,
  is_finite, gtb_number, zero_number, includes, if◌then◌else◌,
}
use waterx_agent.Policy.Intent.{Side, WriteIntent, is_exit}

-- `not_after` is the instant that `Date.parse` reads in the text `notAfter`, NaN if it reads none.
pub record PolicyScope : Type 0 where
  pub accounts : List String
  pub markets : Option (List String)
  pub sides : Option (List Side)
  pub max_collateral_per_order : Number
  pub max_open_collateral : Number
  pub max_cumulative_collateral : Number
  pub max_leverage : Number
  pub max_slippage_percent : Number
  pub not_after : Number

abbrev pub owner_only_actions : List String
owner_only_actions =
    "withdraw" ∷ "deposit" ∷ "createAccount" ∷ "addDelegate" ∷ "removeDelegate"
    ∷ "removeAllDelegates" ∷ []

-- `isOwnerOnlyAction`
unfoldable pub is_owner_only_action : String → Bool
is_owner_only_action action = includes owner_only_actions action

-- The violations, as data in place of their sentences.
pub data Violation : Type 0 where
  scope_ended account_not_listed market_not_listed side_not_allowed : Violation
  slippage_above leverage_above collateral_above : Violation

abbrev same_side : Side → Side → Bool
same_side Side.long Side.long = true
same_side Side.short Side.short = true
same_side _ _ = false

abbrev has_side : List Side → Side → Bool
has_side [] s = false
has_side (t ∷ ts) s = same_side t s || has_side ts s

-- `intent.ticker !== undefined && scope.markets !== undefined && !scope.markets.includes(…)`
abbrev pub outside_markets : Option String → Option (List String) → Bool
outside_markets (some ticker) (some markets) = not (includes markets ticker)
outside_markets _ _ = false

abbrev pub outside_sides : Option Side → Option (List Side) → Bool
outside_sides (some side) (some sides) = not (has_side sides side)
outside_sides _ _ = false

-- `value !== undefined && value > ceiling`
abbrev pub exceeds : Option Number → Number → Bool
exceeds none ceiling = false
exceeds (some n) ceiling = gtb_number n ceiling

abbrev pub when : Bool → Violation → List Violation
when true v = v ∷ []
when false v = []

-- An action that no ceiling meters: it is an exit, and says that it adds no exposure.
abbrev pub is_unmetered : WriteIntent → Bool
is_unmetered i = not i.increases_exposure && is_exit i.action

-- `statelessScopeViolations`
unfoldable pub stateless_scope_violations : WriteIntent → PolicyScope → Number → List Violation
stateless_scope_violations i s at =
    when (gtb_number at s.not_after) scope_ended
    ++ (when (not (includes s.accounts i.account_id)) account_not_listed
        ++ (when (outside_markets i.ticker s.markets) market_not_listed
            ++ (when (outside_sides i.side s.sides) side_not_allowed
                ++ (when (exceeds i.slippage_percent s.max_slippage_percent) slippage_above
                    ++ (if is_unmetered i
                        then []
                        else when (exceeds i.leverage s.max_leverage) leverage_above
                          ++ when (exceeds i.collateral s.max_collateral_per_order)
                              collateral_above)))))

-- `typeof value !== "number" || !Number.isFinite(value) || value < 0`, for a value that is there.
abbrev pub is_unmeasurable : Option Number → Bool
is_unmeasurable none = false
is_unmeasurable (some n) = not (is_finite n) || gtb_number zero_number n

-- `assertMeasurable`: does it throw?
unfoldable pub has_unmeasurable : WriteIntent → Bool
has_unmeasurable i =
    is_unmeasurable i.collateral || is_unmeasurable i.leverage || is_unmeasurable i.slippage_percent

-- `value <= 0` or not finite
abbrev pub is_missing : Number → Bool
is_missing n = not (is_finite n) || not (gtb_number n zero_number)

abbrev is_nan : Number → Bool
is_nan Number.nan = true
is_nan _ = false

abbrev is_none_listed : List String → Bool
is_none_listed [] = true
is_none_listed _ = false

-- The first part of `assertScopeComplete`: is anything missing?
abbrev pub is_incomplete : PolicyScope → Bool
is_incomplete s =
    is_none_listed s.accounts
    || is_missing s.max_collateral_per_order
    || is_missing s.max_open_collateral
    || is_missing s.max_cumulative_collateral
    || is_missing s.max_leverage
    || is_missing s.max_slippage_percent
    || is_nan s.not_after

-- `assertScopeComplete`: does it pass?
unfoldable pub is_scope_complete : PolicyScope → Bool
is_scope_complete s =
    not (is_incomplete s) && not (gtb_number s.max_collateral_per_order s.max_cumulative_collateral)
