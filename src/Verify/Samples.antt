-- ===== src/Verify/Samples.antt =====
-- Concrete transactions, a deployment and a host: an order with one leg, the same order with its
-- collateral paid in, and a grant.
use waterx_agent.Prelude.{
  ℕ, String, true, false, List, [], ◌∷◌, ◌++◌, Option, none, some, if◌then◌else◌, pos, finite,
  str_eq,
}
use waterx_agent.Policy.Intent.{WriteIntent, AuthorizedLeg, long}
use waterx_agent.Verify.Text.{Text, codes, normalize_package}
use waterx_agent.Verify.Transaction.{
  Argument, input, result, MoveCall, Command, move_call, make_move_vec, pure, shared_object,
  funds_withdrawal, Decoded, Bytes,
}
use waterx_agent.Verify.Deployment.{Deployment}
use waterx_agent.Verify.Encoding.{lookup, u64, u128, opt_u64, opt_u128, u32}
use waterx_agent.Verify.Encoding.RoundTrip.{wire}
use waterx_agent.Verify.Host.{Host, AbiEntry}
use waterx_agent.Verify.Match.{VerificationContext}

abbrev id_of : String → Text
id_of s = normalize_package (codes s)

abbrev packages : List (String × Text)
packages =
    ("bucket_framework", id_of "0xb")
    ∷ ("waterx_account", id_of "0xac")
    ∷ ("waterx_perp", id_of "0xfe")
    ∷ ("usd_credit", id_of "0x21")
    ∷ ("wlp", id_of "0x22")
    ∷ []

abbrev shared_objects : List (String × Text)
shared_objects =
    ("objects.perp.global_config", id_of "0x11")
    ∷ ("objects.account.registry", id_of "0x12")
    ∷ ("objects.perp.market_registry_wlp", id_of "0x13")
    ∷ []

abbrev ids_of_name : Option Text → List Text
ids_of_name none = []
ids_of_name (some id) = id ∷ []

abbrev seconds : {A : Type 0} → List (String × A) → List A
seconds [] = []
seconds ((k, a) ∷ rest) = a ∷ seconds rest

abbrev pub deployment : Deployment
deployment = record {
  callable = seconds packages;
  typeable = seconds packages;
  objects = id_of "0x6" ∷ seconds shared_objects;
  by_name = λ name. lookup name packages;
  ids_for = λ name. ids_of_name (lookup name packages);
  object_for = λ role. lookup role shared_objects;
}

abbrev entries : List (String × AbiEntry)
entries =
    ("account::request", record { pkg = "bucket_framework"; params = []; types = [] })
    ∷ (
      "request::new_place_order_argument",
      record {
        pkg = "waterx_perp";
        params =
            "isLong" ∷ "isStopOrder" ∷ "reduceOnly" ∷ "size" ∷ "triggerPrice" ∷ "linkedPositionId"
            ∷ "acceptablePrice" ∷ "collateralAmount" ∷ [];
        types =
            some "bool"
            ∷ some "bool"
            ∷ some "bool"
            ∷ some "u128"
            ∷ some "0x1::option::Option<u128>"
            ∷ some "0x1::option::Option<u64>"
            ∷ some "0x1::option::Option<u64>"
            ∷ some "u64"
            ∷ [];
      },
    )
    ∷ (
      "trading::place_order_request",
      record {
        pkg = "waterx_perp";
        params =
            "globalConfig" ∷ "wxaRegistry" ∷ "marketRegistry" ∷ "ticker" ∷ "senderRequest"
            ∷ "accountId" ∷ "main" ∷ "preOrder" ∷ [];
        types =
            none
            ∷ none
            ∷ none
            ∷ some "0x1::string::String"
            ∷ none
            ∷ some "0x2::object::ID"
            ∷ none
            ∷ some "vector<null>"
            ∷ some "0x2::clock::Clock"
            ∷ [];
      },
    )
    ∷ (
      "account::add_delegate",
      record {
        pkg = "waterx_account";
        params =
            "registry" ∷ "senderRequest" ∷ "accountId" ∷ "delegateAddress" ∷ "alias" ∷ "permissions"
            ∷ "expiresAtMs" ∷ [];
        types =
            none
            ∷ none
            ∷ some "0x2::object::ID"
            ∷ some "address"
            ∷ some "0x1::string::String"
            ∷ some "u32"
            ∷ some "0x1::option::Option<u64>"
            ∷ some "0x2::clock::Clock"
            ∷ [];
      },
    )
    ∷ (
      "account::set_delegate_protocol_permission",
      record {
        pkg = "waterx_account";
        params =
            "registry" ∷ "senderRequest" ∷ "accountId" ∷ "delegateAddress" ∷ "permissions" ∷ [];
        types =
            none
            ∷ none
            ∷ some "0x2::object::ID"
            ∷ some "address"
            ∷ some "u32"
            ∷ some "0x2::clock::Clock"
            ∷ [];
      },
    )
    ∷ []

abbrev call : (package_id module_name function : String) → List String → List Argument → Command
call package_id module_name function types arguments = move_call (record {
  package_id = package_id;
  module_name = module_name;
  function = function;
  type_arguments = types;
  arguments = arguments;
})

-- The last byte of an address.
abbrev address_of : ℕ → Bytes
address_of n =
    0 ∷ 0 ∷ 0 ∷ 0 ∷ 0 ∷ 0 ∷ 0 ∷ 0 ∷ 0 ∷ 0 ∷ 0 ∷ 0 ∷ 0 ∷ 0 ∷ 0 ∷ 0 ∷ 0 ∷ 0 ∷ 0 ∷ 0 ∷ 0 ∷ 0 ∷ 0 ∷ 0
    ∷ 0 ∷ 0 ∷ 0 ∷ 0 ∷ 0 ∷ 0 ∷ 0 ∷ n ∷ []

abbrev pub inputs : List ℕ → List Argument
inputs [] = []
inputs (i ∷ is) = input i ∷ inputs is

-- A long order with a stop.
abbrev order_call : MoveCall
order_call = record {
  package_id = "0xfe";
  module_name = "trading";
  function = "place_order_request";
  type_arguments = "0x21::usd::USD" ∷ "0x22::wlp::WLP" ∷ [];
  arguments =
      input 0
      ∷ input 1
      ∷ input 2
      ∷ input 3
      ∷ result 0
      ∷ input 4
      ∷ result 1
      ∷ result 3
      ∷ input 13
      ∷ [];
}

abbrev pub order_transaction : Decoded
order_transaction = record {
  commands =
      call "0xb" "account" "request" [] []
      ∷ call "0xfe" "request" "new_place_order_argument" []
          (inputs (5 ∷ 6 ∷ 6 ∷ 7 ∷ 8 ∷ 8 ∷ 9 ∷ 10 ∷ []))
      ∷ call "0xfe" "request" "new_place_order_argument" []
          (inputs (6 ∷ 5 ∷ 5 ∷ 7 ∷ 12 ∷ 8 ∷ 8 ∷ 11 ∷ []))
      ∷ make_move_vec (result 2 ∷ [])
      ∷ move_call order_call
      ∷ [];
  inputs =
      shared_object "0x11"
      ∷ shared_object "0x12"
      ∷ shared_object "0x13"
      ∷ pure (3 ∷ 66 ∷ 84 ∷ 67 ∷ [])
      ∷ pure (address_of 7)
      ∷ pure (1 ∷ [])
      ∷ pure (0 ∷ [])
      ∷ pure (wire u128 150)
      ∷ pure (0 ∷ [])
      ∷ pure (wire opt_u64 66_000)
      ∷ pure (wire u64 10_000_000)
      ∷ pure (wire u64 0)
      ∷ pure (wire opt_u128 60_000)
      ∷ shared_object "0x6"
      ∷ [];
  sender = some "0x7";
  gas_owner = some "0x9";
}

abbrev no_intent : String → WriteIntent
no_intent action = record {
  action = action;
  account_id = "0x7";
  increases_exposure = true;
  ticker = none;
  side = none;
  collateral = none;
  collateral_raw = none;
  leverage = none;
  slippage_percent = none;
  reduce_only = none;
  size_raw = none;
  trigger_price_raw = none;
  delegate_address = none;
  position_id = none;
  order_id = none;
  acceptable_price_raw = none;
  is_stop_order = none;
  legs = none;
  moves_funds_in = none;
  asset_type = none;
  recipient = none;
  alias = none;
  delegate_permissions = none;
  delegate_base_permissions = none;
  delegate_expires_at_ms = none;
  request_id = none;
  amount_raw = none;
}

abbrev stop_leg : AuthorizedLeg
stop_leg = record { trigger_price_raw = "60000"; is_stop_order = true; is_long = false }

abbrev pub open_long : WriteIntent
open_long = record (no_intent "openLong") {
  ticker = some "BTC";
  side = some long;
  collateral_raw = some "10000000";
  size_raw = some "150";
  acceptable_price_raw = some "66000";
  is_stop_order = some false;
  reduce_only = some false;
  legs = some (stop_leg ∷ []);
}

-- A grant of the perp permissions 5.
abbrev pub grant_transaction : Decoded
grant_transaction = record {
  commands =
      call "0xb" "account" "request" [] []
      ∷ call "0xac" "account" "add_delegate" []
          (input 0 ∷ result 0 ∷ inputs (1 ∷ 2 ∷ 3 ∷ 4 ∷ 5 ∷ 6 ∷ []))
      ∷ call "0xac" "account" "set_delegate_protocol_permission"
          ("0xfe::account_data::WaterXPerp" ∷ []) (input 0 ∷ result 0 ∷ inputs (1 ∷ 2 ∷ 7 ∷ 6 ∷ []))
      ∷ [];
  inputs =
      shared_object "0x12"
      ∷ pure (address_of 7)
      ∷ pure (address_of 8)
      ∷ pure (0 ∷ [])
      ∷ pure (wire u32 0)
      ∷ pure (0 ∷ [])
      ∷ shared_object "0x6"
      ∷ pure (wire u32 5)
      ∷ [];
  sender = none;
  gas_owner = none;
}

abbrev pub add_delegate : WriteIntent
add_delegate = record (no_intent "addDelegate") {
  delegate_address = some "0x8";
  delegate_base_permissions = some (finite (pos 0));
  delegate_permissions =
      some (record { perp = finite (pos 5); predict = finite (pos 0); staking = finite (pos 0) });
}

-- The same order, with its collateral paid in.
abbrev pub paid_transaction : Decoded
paid_transaction = record order_transaction {
  inputs =
      order_transaction.inputs
      ++ funds_withdrawal (record {
        max_amount_u64 = some "10000000";
        balance = some "0x21::usd::USD";
        from_sender = true;
      })
        ∷ [];
}

abbrev pub paid_long : WriteIntent
paid_long = record open_long { moves_funds_in = some true; asset_type = some "0x21::usd::USD" }

abbrev decode_sample : String → Option Decoded
decode_sample bytes =
    if str_eq bytes "order"
    then some order_transaction
    else if str_eq bytes "grant"
    then some grant_transaction
    else if str_eq bytes "paid"
    then some paid_transaction
    else none

abbrev pub host : Host
host = record {
  decode = decode_sample;
  utf8 = λ bs. bs;
  abi = λ entrypoint. lookup entrypoint entries;
  known_functions = λ key. none;
  uncaptured = "waterx_staking::claim" ∷ [];
  one = 1;
}

abbrev pub context : VerificationContext
context = record {
  deployment = deployment;
  allow_unconfirmed = [];
  extra_packages = "0xcc=*" ∷ [];
  sponsored = true;
}
