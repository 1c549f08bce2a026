-- ===== src/Policy/Intent.antt =====
-- src/policy.ts: `WriteIntent` and its fingerprint; src/chain/verify.ts: `EXITS`.
pub mod Injective
use waterx_agent.Prelude.{
  ℕ, String, Bool, true, false, List, [], ◌∷◌, Option, none, some, Number, nan, infinite,
  neg_infinite, finite, ℤ, includes, str_eq, str_eq_iff, ◌≡◌, refl, ℕ_discrete,
}

pub data Side : Type 0 where
  long short : Side

-- One reduce-only leg.
pub record AuthorizedLeg : Type 0 where
  pub trigger_price_raw : String
  pub is_stop_order : Bool
  pub is_long : Bool

pub record DelegatePermissions : Type 0 where
  pub perp : Number
  pub predict : Number
  pub staking : Number

pub record WriteIntent : Type 0 where
  pub action : String
  pub account_id : String
  pub increases_exposure : Bool
  pub ticker : Option String
  pub side : Option Side
  pub collateral : Option Number
  pub collateral_raw : Option String
  pub leverage : Option Number
  pub slippage_percent : Option Number
  pub reduce_only : Option Bool
  pub size_raw : Option String
  pub trigger_price_raw : Option String
  pub delegate_address : Option String
  pub position_id : Option Number
  pub order_id : Option Number
  pub acceptable_price_raw : Option String
  pub is_stop_order : Option Bool
  pub legs : Option (List AuthorizedLeg)
  pub moves_funds_in : Option Bool
  pub asset_type : Option String
  pub recipient : Option String
  pub alias : Option String
  pub delegate_permissions : Option DelegatePermissions
  pub delegate_base_permissions : Option Number
  pub delegate_expires_at_ms : Option Number
  pub request_id : Option Number
  pub amount_raw : Option String

-- What `JSON.stringify` can still tell apart in a field's value. A number that is not finite is
-- written as `null`.
pub data Json : Type 0 where
  text : String → Json
  bool : Bool → Json
  number : Option ℤ → Json
  leg_list : List AuthorizedLeg → Json
  permissions : Option ℤ → Option ℤ → Option ℤ → Json

abbrev pub json_number : Number → Option ℤ
json_number (finite a) = some a
json_number _ = none

abbrev pub num : Number → Json
num n = number (json_number n)

abbrev pub side_text : Side → Json
side_text Side.long = text "long"
side_text Side.short = text "short"

abbrev pub json_permissions : DelegatePermissions → Json
json_permissions p =
    permissions (json_number p.perp) (json_number p.predict) (json_number p.staking)

abbrev pub map_json : {A : Type 0} → (A → Json) → Option A → Option Json
map_json f none = none
map_json f (some a) = some (f a)

-- The names of the fields, in the order of `localeCompare`.
abbrev pub field_names : List String
field_names =
    "acceptablePriceRaw" ∷ "accountId" ∷ "action" ∷ "alias" ∷ "amountRaw" ∷ "assetType"
    ∷ "collateral" ∷ "collateralRaw" ∷ "delegateAddress" ∷ "delegateBasePermissions"
    ∷ "delegateExpiresAtMs" ∷ "delegatePermissions" ∷ "increasesExposure" ∷ "isStopOrder" ∷ "legs"
    ∷ "leverage" ∷ "movesFundsIn" ∷ "orderId" ∷ "positionId" ∷ "recipient" ∷ "reduceOnly"
    ∷ "requestId" ∷ "side" ∷ "sizeRaw" ∷ "slippagePercent" ∷ "ticker" ∷ "triggerPriceRaw" ∷ []

-- Their values, in the same order.
unfoldable pub field_values : WriteIntent → List (Option Json)
field_values i =
    map_json text i.acceptable_price_raw
    ∷ some (text i.account_id)
    ∷ some (text i.action)
    ∷ map_json text i.alias
    ∷ map_json text i.amount_raw
    ∷ map_json text i.asset_type
    ∷ map_json num i.collateral
    ∷ map_json text i.collateral_raw
    ∷ map_json text i.delegate_address
    ∷ map_json num i.delegate_base_permissions
    ∷ map_json num i.delegate_expires_at_ms
    ∷ map_json json_permissions i.delegate_permissions
    ∷ some (bool i.increases_exposure)
    ∷ map_json bool i.is_stop_order
    ∷ map_json leg_list i.legs
    ∷ map_json num i.leverage
    ∷ map_json bool i.moves_funds_in
    ∷ map_json num i.order_id
    ∷ map_json num i.position_id
    ∷ map_json text i.recipient
    ∷ map_json bool i.reduce_only
    ∷ map_json num i.request_id
    ∷ map_json side_text i.side
    ∷ map_json text i.size_raw
    ∷ map_json num i.slippage_percent
    ∷ map_json text i.ticker
    ∷ map_json text i.trigger_price_raw
    ∷ []

abbrev pub Fingerprint : Type 0
Fingerprint = List (String × Json)

-- `entries.filter(([, value]) => value !== undefined)`
unfoldable pub defined : List String → List (Option Json) → Fingerprint
defined [] values = []
defined (k ∷ ks) [] = []
defined (k ∷ ks) (none ∷ values) = defined ks values
defined (k ∷ ks) (some v ∷ values) = (k, v) ∷ defined ks values

-- `fingerprintIntent`: the sorted entries whose text is compared.
unfoldable pub fingerprint_intent : WriteIntent → Fingerprint
unfolding defined field_values
fingerprint_intent i = defined field_names (field_values i)

abbrev pub exits : List String
exits =
    "closePosition" ∷ "reducePosition" ∷ "addMargin" ∷ "cancelOrder" ∷ "placeTpSl" ∷ "burnWlp"
    ∷ "removeDelegate" ∷ "removeAllDelegates" ∷ "withdraw" ∷ []

-- `EXITS.has`
unfoldable pub is_exit : String → Bool
is_exit action = includes exits action

unfoldable pub decided : (s t : String) (b : Bool) → str_eq s t ≡ b → Dec (s ≡ t)
decided s t true e = yes ((str_eq_iff s t).0 e)
decided s t false e = no (λ p. cc ((str_eq_iff s t).1 p, e))

unfoldable pub String-discrete : Discrete String
unfolding decided
String-discrete s t = decided s t (str_eq s t) refl

-- Whether two fingerprints are one text.
unfoldable pub Fingerprint-discrete : Discrete Fingerprint
unfolding String-discrete ℕ_discrete
Fingerprint-discrete = hlevel (String-discrete, ℕ_discrete)
