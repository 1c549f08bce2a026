-- ===== src/Verify/Bindings.antt =====
-- src/chain/verify.ts: the tables of what constrains each argument of each entrypoint.
use waterx_agent.Prelude.{String, List, [], ◌∷◌, ◌++◌, Option}
use waterx_agent.Verify.Encoding.{lookup}
use waterx_agent.Verify.Deployment.{Role, coin_usd, coin_wlp}

-- The fields of an intent that an argument may be bound to.
pub data Bindable : Type 0 where
  account_id ticker delegate_address delegate_base_permissions delegate_permissions : Bindable
  delegate_expires_at_ms position_id order_id request_id recipient alias collateral_raw : Bindable
  amount_raw size_raw trigger_price_raw acceptable_price_raw side reduce_only : Bindable
  is_stop_order legs moves_funds_in asset_type : Bindable

-- The reason that the source gives for a free argument is not kept.
pub data Binding : Type 0 where
  bound : Bindable → Binding
  free : Binding
  protocol_mask : Binding
  produced_by : String → Binding
  vector_of : String → Binding
  shared : String → Binding

abbrev pub BindingTable : Type 0
BindingTable = List (String × Binding)

abbrev pub order_arg_constructor : String
order_arg_constructor = "request::new_place_order_argument"

abbrev pub sender_request : Binding
sender_request = produced_by "account::request"

abbrev pub trading_request : BindingTable
trading_request =
    ("globalConfig", shared "objects.perp.global_config")
    ∷ ("wxaRegistry", shared "objects.account.registry")
    ∷ ("marketRegistry", shared "objects.perp.market_registry_wlp")
    ∷ ("senderRequest", sender_request)
    ∷ []

abbrev pub place_order_bindings : BindingTable
place_order_bindings =
    trading_request
    ++ (("ticker", bound ticker)
        ∷ ("accountId", bound account_id)
        ∷ ("main", produced_by order_arg_constructor)
        ∷ ("preOrder", vector_of order_arg_constructor)
        ∷ [])

abbrev pub close_position_bindings : BindingTable
close_position_bindings =
    trading_request
    ++ (("ticker", bound ticker)
        ∷ ("accountId", bound account_id)
        ∷ ("positionId", bound position_id)
        ∷ ("acceptablePrice", bound acceptable_price_raw)
        ∷ [])

abbrev pub decrease_position_bindings : BindingTable
decrease_position_bindings =
    trading_request
    ++ (("ticker", bound ticker)
        ∷ ("accountId", bound account_id)
        ∷ ("positionId", bound position_id)
        ∷ ("size", bound size_raw)
        ∷ ("acceptablePrice", bound acceptable_price_raw)
        ∷ [])

abbrev pub increase_position_bindings : BindingTable
increase_position_bindings =
    trading_request
    ++ (("ticker", bound ticker)
        ∷ ("accountId", bound account_id)
        ∷ ("orderId", bound order_id)
        ∷ ("positionId", bound position_id)
        ∷ ("collateralAmount", bound collateral_raw)
        ∷ ("size", bound size_raw)
        ∷ ("acceptablePrice", bound acceptable_price_raw)
        ∷ [])

abbrev pub deposit_collateral_bindings : BindingTable
deposit_collateral_bindings =
    trading_request
    ++ (("ticker", bound ticker)
        ∷ ("accountId", bound account_id)
        ∷ ("positionId", bound position_id)
        ∷ ("collateralAmount", bound collateral_raw)
        ∷ [])

abbrev pub withdraw_collateral_bindings : BindingTable
withdraw_collateral_bindings =
    trading_request
    ++ (("ticker", bound ticker)
        ∷ ("accountId", bound account_id)
        ∷ ("positionId", bound position_id)
        ∷ ("amount", bound collateral_raw)
        ∷ [])

abbrev pub cancel_order_bindings : BindingTable
cancel_order_bindings =
    trading_request
    ++ (("ticker", bound ticker)
        ∷ ("accountId", bound account_id)
        ∷ ("orderId", bound order_id)
        ∷ ("triggerPrice", free)
        ∷ ("orderTypeTag", free)
        ∷ [])

abbrev pub update_order_bindings : BindingTable
update_order_bindings =
    trading_request
    ++ (("ticker", bound ticker)
        ∷ ("accountId", bound account_id)
        ∷ ("orderId", bound order_id)
        ∷ ("currentTriggerPrice", free)
        ∷ ("orderTypeTag", free)
        ∷ ("newSize", bound size_raw)
        ∷ ("newTriggerPrice", bound trigger_price_raw)
        ∷ [])

abbrev pub mint_wlp_bindings : BindingTable
mint_wlp_bindings =
    ("pool", shared "objects.wlp.pool")
    ∷ ("globalConfig", shared "objects.perp.global_config")
    ∷ ("wxaRegistry", shared "objects.account.registry")
    ∷ ("aum", shared "objects.wlp.aum")
    ∷ ("senderRequest", sender_request)
    ∷ ("oracle", shared "objects.oracle.oracle")
    ∷ ("accountId", bound account_id)
    ∷ ("depositAmount", bound collateral_raw)
    ∷ ("minLpAmount", free)
    ∷ []

abbrev pub request_redeem_bindings : BindingTable
request_redeem_bindings =
    ("pool", shared "objects.wlp.pool")
    ∷ ("globalConfig", shared "objects.perp.global_config")
    ∷ ("wxaRegistry", shared "objects.account.registry")
    ∷ ("senderRequest", sender_request)
    ∷ ("accountId", bound account_id)
    ∷ ("lpAmount", bound amount_raw)
    ∷ []

abbrev pub cancel_redeem_bindings : BindingTable
cancel_redeem_bindings =
    ("pool", shared "objects.wlp.pool")
    ∷ ("globalConfig", shared "objects.perp.global_config")
    ∷ ("wxaRegistry", shared "objects.account.registry")
    ∷ ("senderRequest", sender_request)
    ∷ ("requestId", bound request_id)
    ∷ []

abbrev pub claim_bindings : BindingTable
claim_bindings =
    ("self", free)
    ∷ ("request", free)
    ∷ ("wxaRegistry", shared "objects.account.registry")
    ∷ ("accountId", bound account_id)
    ∷ []

abbrev pub mint_bindings : BindingTable
mint_bindings =
    ("vault", shared "objects.custody.vault")
    ∷ ("registry", shared "objects.credit.registry")
    ∷ ("accountRegistry", shared "objects.account.registry")
    ∷ ("accountId", bound account_id)
    ∷ ("assetCoin", produced_by "coin::redeem_funds")
    ∷ ("extraData", free)
    ∷ []

abbrev pub request_withdraw_bindings : BindingTable
request_withdraw_bindings =
    ("registry", shared "objects.account.registry")
    ∷ ("senderRequest", sender_request)
    ∷ ("accountId", bound account_id)
    ∷ ("amount", bound collateral_raw)
    ∷ ("recipient", bound recipient)
    ∷ ("extraData", produced_by "withdrawal_queue::route_native")
    ∷ []

abbrev pub create_account_bindings : BindingTable
create_account_bindings =
    ("registry", shared "objects.account.registry")
    ∷ ("senderRequest", sender_request)
    ∷ ("alias", bound alias)
    ∷ []

abbrev pub add_delegate_bindings : BindingTable
add_delegate_bindings =
    ("registry", shared "objects.account.registry")
    ∷ ("senderRequest", sender_request)
    ∷ ("accountId", bound account_id)
    ∷ ("delegateAddress", bound delegate_address)
    ∷ ("alias", free)
    ∷ ("permissions", bound delegate_base_permissions)
    ∷ ("expiresAtMs", bound delegate_expires_at_ms)
    ∷ []

abbrev pub remove_delegate_bindings : BindingTable
remove_delegate_bindings =
    ("registry", shared "objects.account.registry")
    ∷ ("senderRequest", sender_request)
    ∷ ("accountId", bound account_id)
    ∷ ("delegateAddress", bound delegate_address)
    ∷ []

abbrev pub route_wormhole_bindings : BindingTable
route_wormhole_bindings =
    ("evmDestinationChain", free) ∷ ("evmRecipient", free) ∷ ("evmToken", free) ∷ []

abbrev pub enqueue_bindings : BindingTable
enqueue_bindings =
    ("queue", shared "objects.withdrawal_queue.queue")
    ∷ ("registry", shared "objects.account.registry")
    ∷ ("req", produced_by "account::request_withdraw")
    ∷ []

abbrev pub set_protocol_permission_bindings : BindingTable
set_protocol_permission_bindings =
    ("registry", shared "objects.account.registry")
    ∷ ("senderRequest", sender_request)
    ∷ ("accountId", bound account_id)
    ∷ ("delegateAddress", bound delegate_address)
    ∷ ("permissions", protocol_mask)
    ∷ []

-- `BINDINGS`
abbrev pub binding_tables : List (String × BindingTable)
binding_tables =
    ("trading::place_order_request", place_order_bindings)
    ∷ ("trading::close_position_request", close_position_bindings)
    ∷ ("trading::decrease_position_request", decrease_position_bindings)
    ∷ ("trading::increase_position_request", increase_position_bindings)
    ∷ ("trading::deposit_collateral_request", deposit_collateral_bindings)
    ∷ ("trading::withdraw_collateral_request", withdraw_collateral_bindings)
    ∷ ("trading::cancel_order_request", cancel_order_bindings)
    ∷ ("trading::update_order_request", update_order_bindings)
    ∷ ("lp_pool::mint_wlp", mint_wlp_bindings)
    ∷ ("lp_pool::request_redeem", request_redeem_bindings)
    ∷ ("lp_pool::cancel_redeem", cancel_redeem_bindings)
    ∷ ("waterx_staking::claim", claim_bindings)
    ∷ ("custody_vault::mint", mint_bindings)
    ∷ ("account::request_withdraw", request_withdraw_bindings)
    ∷ ("account::create_account", create_account_bindings)
    ∷ ("account::add_delegate", add_delegate_bindings)
    ∷ ("account::remove_delegate", remove_delegate_bindings)
    ∷ ("withdrawal_queue::route_native", ("minOutput", free) ∷ [])
    ∷ ("withdrawal_queue::route_wormhole", route_wormhole_bindings)
    ∷ ("withdrawal_queue::enqueue", enqueue_bindings)
    ∷ ("account::set_delegate_protocol_permission", set_protocol_permission_bindings)
    ∷ []

unfoldable pub bindings : String → Option BindingTable
unfolding lookup
bindings entrypoint = lookup entrypoint binding_tables

-- `ORDER_ARG_BINDINGS`
abbrev pub order_arg_bindings : BindingTable
order_arg_bindings =
    ("isLong", bound side)
    ∷ ("isStopOrder", bound is_stop_order)
    ∷ ("reduceOnly", bound reduce_only)
    ∷ ("size", bound size_raw)
    ∷ ("triggerPrice", bound trigger_price_raw)
    ∷ ("linkedPositionId", bound position_id)
    ∷ ("acceptablePrice", bound acceptable_price_raw)
    ∷ ("collateralAmount", bound collateral_raw)
    ∷ []

-- `TYPE_BINDINGS`: the only type argument that is bound is the first.
abbrev pub type_bindings : List (String × Bindable)
type_bindings =
    ("withdrawal_queue::route_native", asset_type) ∷ ("custody_vault::mint", asset_type) ∷ []

-- `TYPE_ROLES`: the roles of the leading type arguments.
abbrev pub type_roles : List (String × List Role)
type_roles =
    ("trading::place_order_request", coin_usd ∷ coin_wlp ∷ [])
    ∷ ("trading::close_position_request", coin_usd ∷ coin_wlp ∷ [])
    ∷ ("trading::decrease_position_request", coin_usd ∷ coin_wlp ∷ [])
    ∷ ("trading::increase_position_request", coin_usd ∷ coin_wlp ∷ [])
    ∷ ("trading::deposit_collateral_request", coin_usd ∷ coin_wlp ∷ [])
    ∷ ("trading::withdraw_collateral_request", coin_usd ∷ coin_wlp ∷ [])
    ∷ ("trading::cancel_order_request", coin_usd ∷ coin_wlp ∷ [])
    ∷ ("trading::update_order_request", coin_usd ∷ coin_wlp ∷ [])
    ∷ ("lp_pool::mint_wlp", coin_wlp ∷ coin_usd ∷ [])
    ∷ ("lp_pool::request_redeem", coin_wlp ∷ coin_usd ∷ [])
    ∷ ("lp_pool::cancel_redeem", coin_wlp ∷ coin_usd ∷ [])
    ∷ ("account::request_withdraw", coin_usd ∷ [])
    ∷ ("withdrawal_queue::enqueue", coin_usd ∷ [])
    ∷ []
