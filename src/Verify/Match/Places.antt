-- ===== src/Verify/Match/Places.antt =====
-- A transaction that passes as an order places the orders that its intent states.
use waterx_agent.Prelude.{String, some, none, ◌≡◌, str_eq_iff}
use waterx_agent.Policy.Intent.{WriteIntent}
use waterx_agent.Verify.Transaction.{Decoded}
use waterx_agent.Verify.Rules.{ActionRule, action_rule}
use waterx_agent.Verify.Host.{Host}
use waterx_agent.Verify.Orders.{constructor_package}
use waterx_agent.Verify.Orders.Placed.{IsPlaced, orders-IsPlaced}
use waterx_agent.Verify.Match.{VerificationContext, defining_indices, transaction_matches}
use waterx_agent.Verify.Match.Binds.{bytes-Passed, action-Passed}

-- If the bytes pass for an action that places orders, then every constructor that its defining
-- calls reach reads as an order; those that are legs have, as a multiset, the trigger prices, stop
-- flags and sides of exactly the legs that the intent states, and each only reduces, commits
-- nothing, sets no bound, has the authorized size, and names the position that the intent names,
-- or none; the others are as many as the defining calls (none on an order that only reduces), and
-- each of their arguments is what the intent states.
pub matched_places :
    (h : Host) (intent : WriteIntent) (signer : String) (context : VerificationContext)
    (tx_bytes : String) (t : Decoded) (rule : ActionRule)
    → h.decode tx_bytes ≡ some t
    → action_rule intent.action ≡ some rule
    → rule.entrypoint ≡ "trading::place_order_request"
    → transaction_matches h intent signer context tx_bytes ≡ none
    → IsPlaced h intent t (constructor_package h context.deployment) (defining_indices rule t)
matched_places h intent signer context tx_bytes t rule e r order k =
    let p =
      action-Passed h intent signer context t rule r
        (bytes-Passed h intent signer context tx_bytes t e k) in
    orders-IsPlaced h context.deployment t intent (defining_indices rule t)
      (p.ordered ((str_eq_iff rule.entrypoint "trading::place_order_request").1 order))
