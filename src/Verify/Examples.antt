-- ===== src/Verify/Examples.antt =====
-- The checks run on the samples.
use waterx_agent.Prelude.{
  ℕ, true, List, [], ◌∷◌, none, some, ◌≡◌, ◌≢◌, refl, pos, length, All, arith,
}
use waterx_agent.Policy.Intent.{short}
use waterx_agent.Verify.Transaction.{MoveCall, call_at}
use waterx_agent.Verify.Deployment.{parse_exceptions}
use waterx_agent.Verify.Encoding.{opt_u64, read_bytes, present, number}
use waterx_agent.Verify.Encoding.RoundTrip.{le_bytes, wire, read_bytes-wire}
use waterx_agent.Verify.Bindings.{bindings}
use waterx_agent.Verify.Rules.{ActionRule, action_rule, plain_rule, add_delegate_rule, one}
use waterx_agent.Verify.Arguments.{name_of}
use waterx_agent.Verify.Reach.{walk, nothing_seen, reachable_from}
use waterx_agent.Verify.Reach.Ends.{reachable_from-ends}
use waterx_agent.Verify.Orders.{constructor_package}
use waterx_agent.Verify.Orders.Placed.{IsPlaced}
use waterx_agent.Verify.Manifest.{Load, load_deployment, after_request}
use waterx_agent.Verify.Manifest.Fresh.{cache_after, WasRead, IsInTime, load_deployment-IsInTime}
use waterx_agent.Verify.Shape.{withdrawals_of}
use waterx_agent.Verify.Shape.Vouched.{IsVouchedCommand, IsVouchedInput}
use waterx_agent.Verify.Shape.Paid.{IsPaid}
use waterx_agent.Verify.Match.{defining_indices, transaction_matches}
use waterx_agent.Verify.Match.Binds.{IsAnswered, matched_binds}
use waterx_agent.Verify.Match.Touches.{IsSentBy, IsGasPaid, matched_touches, matched_pays}
use waterx_agent.Verify.Match.Places.{matched_places}
use waterx_agent.Verify.Match.Grants.{IsConferred, matched_grants}
use waterx_agent.Verify.Refusal.{mismatch}
use waterx_agent.Verify.Samples.{
  deployment, order_transaction, open_long, grant_transaction, add_delegate, paid_transaction,
  paid_long, host, context,
}

order_matches : transaction_matches host open_long "0x7" context "order" ≡ none
unfolding transaction_matches le_bytes
order_matches = refl

paid_matches : transaction_matches host paid_long "0x7" context "paid" ≡ none
unfolding transaction_matches le_bytes
paid_matches = refl

grant_matches : transaction_matches host add_delegate "0x7" context "grant" ≡ none
unfolding transaction_matches le_bytes
grant_matches = refl

-- The same order, said to be a short one, is refused.
short_is_refused :
    transaction_matches host (record open_long { side = some short }) "0x7" context "order"
    ≡ some mismatch
unfolding transaction_matches le_bytes
short_is_refused = refl

abbrev order_rule : ActionRule
order_rule = plain_rule "trading::place_order_request"

order_rule_found : action_rule "openLong" ≡ some order_rule
unfolding action_rule
order_rule_found = refl

grant_rule_found : action_rule "addDelegate" ≡ some add_delegate_rule
unfolding action_rule
grant_rule_found = refl

matched_binds_example :
    ((i : ℕ) (c : MoveCall)
      → call_at order_transaction i ≡ some c
      → bindings (name_of c) ≢ none
      → IsAnswered host deployment order_transaction open_long order_rule i c)
    × (defining_indices order_rule order_transaction ≢ [])
    × (one ≡ one → length (defining_indices order_rule order_transaction) ≡ 1)
matched_binds_example =
    matched_binds host open_long "0x7" context "order" order_transaction order_rule refl
      order_rule_found order_matches

matched_touches_example :
    All (IsVouchedCommand deployment (parse_exceptions ("0xcc=*" ∷ []))) order_transaction.commands
    × All (IsVouchedInput deployment (parse_exceptions ("0xcc=*" ∷ []))) order_transaction.inputs
matched_touches_example =
    matched_touches host open_long "0x7" context "order" order_transaction refl order_matches

matched_pays_example :
    IsPaid true (some "10000000") (some "0x21::usd::USD") (withdrawals_of paid_transaction.inputs)
    × IsSentBy "0x7" (some "0x7")
    × IsGasPaid true "0x7" (some "0x9")
matched_pays_example =
    matched_pays host paid_long "0x7" context "paid" paid_transaction refl paid_matches

matched_places_example :
    IsPlaced host open_long order_transaction
      (constructor_package host deployment)
      (defining_indices order_rule order_transaction)
matched_places_example =
    matched_places host open_long "0x7" context "order" order_transaction order_rule refl
      order_rule_found refl order_matches

matched_grants_example :
    IsConferred host deployment grant_transaction add_delegate add_delegate_rule
matched_grants_example =
    matched_grants host add_delegate "0x7" context "grant" grant_transaction add_delegate_rule refl
      grant_rule_found refl grant_matches

reachable_from-ends_example :
    walk order_transaction none 6 4 nothing_seen ≡ some (reachable_from order_transaction none 4)
reachable_from-ends_example = reachable_from-ends order_transaction none 4

read_bytes-wire_example :
    read_bytes (λ bs. bs) (wire opt_u64 66_000) opt_u64 ≡ present (number (pos 66_000))
read_bytes-wire_example = read_bytes-wire (λ bs. bs) opt_u64 66_000 (omega arith) (omega arith)

-- The document was read once, and the request for it failed five minutes later, in the grace.
abbrev past_loads : List Load
past_loads = record { now = 0; ended = 100; answer = some deployment; grace = some 0 } ∷ []

abbrev failed_load : Load
failed_load = record { now = 300_200; ended = 300_300; answer = none; grace = some 600_000 }

served_before : (load_deployment failed_load (cache_after past_loads)).0 ≡ some deployment
unfolding load_deployment after_request cache_after
served_before = refl

load_deployment-IsInTime_example :
    (at : ℕ) × WasRead (failed_load ∷ past_loads) deployment at × IsInTime failed_load at
load_deployment-IsInTime_example =
    load_deployment-IsInTime past_loads failed_load deployment served_before
