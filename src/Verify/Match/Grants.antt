-- ===== src/Verify/Match/Grants.antt =====
-- A transaction that passes as a grant confers what its intent states where the contract reads it.
use waterx_agent.Prelude.{String, true, Option, some, none, ◌≡◌, refl}
use waterx_agent.Policy.Intent.{WriteIntent, DelegatePermissions}
use waterx_agent.Verify.Transaction.{Decoded}
use waterx_agent.Verify.Deployment.{Deployment, Protocol}
use waterx_agent.Verify.Rules.{ActionRule, action_rule}
use waterx_agent.Verify.Authorized.{big_int_of_number}
use waterx_agent.Verify.Arguments.{ceiling_of}
use waterx_agent.Verify.Host.{Host}
use waterx_agent.Verify.Grants.{check_grants}
use waterx_agent.Verify.Grants.Enforced.{enforced_writes, masks_for, IsWhole, grants-IsWhole}
use waterx_agent.Verify.Match.{VerificationContext, companion_indices, transaction_matches}
use waterx_agent.Verify.Match.Binds.{bytes-Passed, action-Passed}

-- The permissions that the intent states, each in its enforced slot, once and whole.
abbrev pub IsConferred : Host → Deployment → Decoded → WriteIntent → ActionRule → Type 0
IsConferred h d t intent rule =
    (ceilings : DelegatePermissions) × (intent.delegate_permissions ≡ some ceilings)
    × ((p : Protocol)
        → IsWhole (big_int_of_number h.one (ceiling_of ceilings p))
            (masks_for p (enforced_writes h d t (companion_indices rule t))))

IsConferred-by :
    (h : Host) (d : Deployment) (t : Decoded) (intent : WriteIntent) (rule : ActionRule)
    (o : Option DelegatePermissions)
    → intent.delegate_permissions ≡ o
    → check_grants h d t o (companion_indices rule t) ≡ none
    → IsConferred h d t intent rule
unfolding check_grants
IsConferred-by h d t intent rule none e k = absurd (cc)
IsConferred-by h d t intent rule (some ceilings) e k =
    (ceilings, e, grants-IsWhole h d t ceilings (companion_indices rule t) k)

-- If the bytes pass for an action that grants permissions, then the intent states them, and for
-- each protocol with a mask that is not zero the transaction writes the slot that the contract
-- reads exactly once, with exactly that mask.
pub matched_grants :
    (h : Host) (intent : WriteIntent) (signer : String) (context : VerificationContext)
    (tx_bytes : String) (t : Decoded) (rule : ActionRule)
    → h.decode tx_bytes ≡ some t
    → action_rule intent.action ≡ some rule
    → rule.grants_protocol_permissions ≡ true
    → transaction_matches h intent signer context tx_bytes ≡ none
    → IsConferred h context.deployment t intent rule
matched_grants h intent signer context tx_bytes t rule e r grants k =
    let p =
      action-Passed h intent signer context t rule r
        (bytes-Passed h intent signer context tx_bytes t e k) in
    IsConferred-by h context.deployment t intent rule intent.delegate_permissions refl
      (p.granted grants)
