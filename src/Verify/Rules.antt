-- ===== src/Verify/Rules.antt =====
-- src/chain/verify.ts: the actions, the entrypoint that defines each, and what accompanies it.
use waterx_agent.Prelude.{String, Bool, true, false, List, [], ◌∷◌, Option}
use waterx_agent.Verify.Encoding.{lookup}
use waterx_agent.Verify.Bindings.{BindingTable, free}

pub data Multiplicity : Type 0 where
  one many : Multiplicity

pub record Companion : Type 0 where
  pub entrypoint : String
  pub required : Bool

pub record ActionRule : Type 0 where
  pub entrypoint : String
  pub multiplicity : Multiplicity
  pub overrides : BindingTable
  pub companions : List Companion
  pub grants_protocol_permissions : Bool

abbrev pub plain_rule : String → ActionRule
plain_rule entrypoint = record {
  entrypoint = entrypoint;
  multiplicity = one;
  overrides = [];
  companions = [];
  grants_protocol_permissions = false;
}

abbrev pub withdraw_rule : ActionRule
withdraw_rule = record {
  entrypoint = "account::request_withdraw";
  multiplicity = one;
  overrides = [];
  companions =
      record { entrypoint = "withdrawal_queue::route_native"; required = true }
      ∷ record { entrypoint = "withdrawal_queue::enqueue"; required = true }
      ∷ [];
  grants_protocol_permissions = false;
}

abbrev pub add_delegate_rule : ActionRule
add_delegate_rule = record {
  entrypoint = "account::add_delegate";
  multiplicity = one;
  overrides = [];
  companions =
      record { entrypoint = "account::set_delegate_protocol_permission"; required = true } ∷ [];
  grants_protocol_permissions = true;
}

abbrev pub remove_all_delegates_rule : ActionRule
remove_all_delegates_rule = record {
  entrypoint = "account::remove_delegate";
  multiplicity = many;
  overrides = ("delegateAddress", free) ∷ [];
  companions = [];
  grants_protocol_permissions = false;
}

abbrev pub place_tp_sl_rule : ActionRule
place_tp_sl_rule = record {
  entrypoint = "trading::place_order_request";
  multiplicity = many;
  overrides = [];
  companions = [];
  grants_protocol_permissions = false;
}

-- `ACTION_RULES`
abbrev pub rule_table : List (String × ActionRule)
rule_table =
    ("openLong", plain_rule "trading::place_order_request")
    ∷ ("openShort", plain_rule "trading::place_order_request")
    ∷ ("placeLimitOrder", plain_rule "trading::place_order_request")
    ∷ ("placeTpSl", place_tp_sl_rule)
    ∷ ("closePosition", plain_rule "trading::close_position_request")
    ∷ ("reducePosition", plain_rule "trading::decrease_position_request")
    ∷ ("increasePosition", plain_rule "trading::increase_position_request")
    ∷ ("addMargin", plain_rule "trading::deposit_collateral_request")
    ∷ ("removeMargin", plain_rule "trading::withdraw_collateral_request")
    ∷ ("cancelOrder", plain_rule "trading::cancel_order_request")
    ∷ ("updateOrder", plain_rule "trading::update_order_request")
    ∷ ("mintWlp", plain_rule "lp_pool::mint_wlp")
    ∷ ("burnWlp", plain_rule "lp_pool::request_redeem")
    ∷ ("cancelWlpBurn", plain_rule "lp_pool::cancel_redeem")
    ∷ ("claimWlpRewards", plain_rule "waterx_staking::claim")
    ∷ ("deposit", plain_rule "custody_vault::mint")
    ∷ ("withdraw", withdraw_rule)
    ∷ ("createAccount", plain_rule "account::create_account")
    ∷ ("addDelegate", add_delegate_rule)
    ∷ ("removeDelegate", plain_rule "account::remove_delegate")
    ∷ ("removeAllDelegates", remove_all_delegates_rule)
    ∷ []

unfoldable pub action_rule : String → Option ActionRule
unfolding lookup
action_rule action = lookup action rule_table

-- `NEEDS_A_WAY_BACK`
abbrev pub needs_a_way_back : List (String × String)
needs_a_way_back =
    ("placeLimitOrder", "trading::cancel_order_request")
    ∷ ("placeTpSl", "trading::cancel_order_request")
    ∷ []
