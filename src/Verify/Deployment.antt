-- ===== src/Verify/Deployment.antt =====
-- src/chain/deployment.ts: the deployment and the exceptions; src/chain/verify.ts: types by role.
use waterx_agent.Prelude.{
  String, Bool, true, false, ◌&&◌, ◌||◌, List, [], ◌∷◌, ◌++◌, Option, none, some, if◌then◌else◌,
  map, any,
}
use waterx_agent.Verify.Text.{
  Text, codes, eq_text, normalize_package, normalize_type, after_prefix, before_last, split_at,
  split_at_pair,
}

pub record Deployment : Type 0 where
  pub callable : List Text
  pub typeable : List Text
  pub objects : List Text
  pub by_name : String → Option Text
  pub ids_for : String → List Text
  pub object_for : String → Option Text

pub record PackageException : Type 0 where
  pub pkg : Text
  pub sdk_package : Option Text
  pub module_name : Option Text
  pub fn : Option Text
  pub unchecked : Bool

abbrev pub non_empty : Text → Option Text
non_empty [] = none
non_empty (c ∷ s) = some (c ∷ s)

-- What stands on the right of `=`, split at `::`.
unfoldable pub qualified_by : Text → List Text → PackageException
qualified_by pkg [] = record {
  pkg = pkg;
  sdk_package = none;
  module_name = none;
  fn = none;
  unchecked = false;
}
qualified_by pkg (p ∷ []) = record {
  pkg = pkg;
  sdk_package = non_empty p;
  module_name = none;
  fn = none;
  unchecked = false;
}
qualified_by pkg (p ∷ m ∷ []) = record {
  pkg = pkg;
  sdk_package = non_empty p;
  module_name = some m;
  fn = none;
  unchecked = false;
}
qualified_by pkg (p ∷ m ∷ f ∷ _) = record {
  pkg = pkg;
  sdk_package = non_empty p;
  module_name = some m;
  fn = some f;
  unchecked = false;
}

unfoldable pub exception_of : List Text → PackageException
unfolding qualified_by eq_text split_at_pair normalize_package
exception_of [] = qualified_by (normalize_package []) []
exception_of (address ∷ []) = qualified_by (normalize_package address) []
exception_of (address ∷ qualified ∷ _) =
    if eq_text qualified (codes "*")
    then record {
      pkg = normalize_package address;
      sdk_package = none;
      module_name = none;
      fn = none;
      unchecked = true;
    }
    else qualified_by (normalize_package address) (split_at_pair b':' qualified)

-- `parseExceptions`
unfoldable pub parse_exceptions : List String → List PackageException
unfolding exception_of split_at
parse_exceptions entries = map (λ entry. exception_of (split_at b'=' (codes entry))) entries

abbrev pub allows : Option Text → Text → Bool
allows none t = true
allows (some s) t = eq_text s t

abbrev pub has_sdk_package : Option Text → Bool
has_sdk_package none = false
has_sdk_package (some s) = true

-- `exceptionCovers`
unfoldable pub exception_covers : PackageException → (pkg module_name fn : Text) → Bool
unfolding eq_text
exception_covers e pkg module_name fn =
    eq_text e.pkg pkg
    && (e.unchecked
        || (has_sdk_package e.sdk_package && (allows e.module_name module_name && allows e.fn fn)))

-- A coin of the deployment: the package it belongs to by name, and the rest of its type.
pub record Role : Type 0 where
  pub pkg : String
  pub type : String

abbrev pub coin_usd : Role
coin_usd = record { pkg = "usd_credit"; type = "usd::USD" }

abbrev pub coin_wlp : Role
coin_wlp = record { pkg = "wlp"; type = "wlp::WLP" }

abbrev pub type_in : Text → String → Text
type_in id type = codes "0x" ++ (id ++ (codes "::" ++ codes type))

-- `isDeploymentType`, on a type argument that may be missing.
unfoldable pub is_deployment_type : Option Text → Role → Deployment → Bool
unfolding eq_text normalize_type
is_deployment_type none role d = false
is_deployment_type (some type) role d =
    any (λ id. eq_text (normalize_type type) (type_in id role.type)) (d.ids_for role.pkg)

pub data Protocol : Type 0 where
  perp predict staking : Protocol

pub record ProtocolSlot : Type 0 where
  pub pkg : String
  pub type : String
  pub generic : Option Role
  pub protocol : Protocol
  pub enforced : Bool

abbrev pub protocol_slots : List ProtocolSlot
protocol_slots =
    record {
      pkg = "waterx_perp";
      type = "account_data::WaterXPerp";
      generic = none;
      protocol = perp;
      enforced = true;
    }
    ∷ record {
      pkg = "waterx_perp";
      type = "request::TradingRequest";
      generic = some coin_usd;
      protocol = perp;
      enforced = false;
    }
    ∷ record {
      pkg = "waterx_prediction";
      type = "account_data::WaterXPrediction";
      generic = none;
      protocol = predict;
      enforced = true;
    }
    ∷ record {
      pkg = "waterx_staking";
      type = "witness::WaterXStaking";
      generic = none;
      protocol = staking;
      enforced = true;
    }
    ∷ []

-- What stands between `<` and a final `>` behind the prefix.
unfoldable pub inner_of : Option Text → Option Text
unfolding before_last
inner_of none = none
inner_of (some rest) = before_last b'>' rest

unfoldable pub slot_matches : Option Role → Text → Text → Deployment → Bool
unfolding eq_text after_prefix inner_of is_deployment_type
slot_matches none actual prefix d = eq_text actual prefix
slot_matches (some role) actual prefix d =
    is_deployment_type (inner_of (after_prefix (prefix ++ codes "<") actual)) role d

unfoldable pub is_slot : Text → Deployment → ProtocolSlot → Bool
unfolding slot_matches normalize_type
is_slot type d slot =
    any (λ id. slot_matches slot.generic (normalize_type type) (type_in id slot.type) d)
      (d.ids_for slot.pkg)
