-- ===== src/Verify/Match/Touches.antt =====
-- A transaction that passes: what it reaches, what it pays, who sends it and who pays for its gas.
use waterx_agent.Prelude.{
  String, Bool, true, false, Option, none, some, ◌≡◌, ◌↔◌, refl, arith, All, subst,
}
use waterx_agent.Policy.Intent.{WriteIntent}
use waterx_agent.Verify.Text.{Text, codes, lower, normalize_package, eq_text}
use waterx_agent.Verify.Transaction.{Decoded}
use waterx_agent.Verify.Deployment.{parse_exceptions}
use waterx_agent.Verify.Host.{Host}
use waterx_agent.Verify.Shape.{withdrawals_of, is_true, check_sender, check_gas, check_payer}
use waterx_agent.Verify.Shape.Vouched.{IsVouchedCommand, IsVouchedInput, shape_vouched}
use waterx_agent.Verify.Shape.Paid.{IsPaid, funds-IsPaid}
use waterx_agent.Verify.Equal.{eq_text_sound, eq_text_refl}
use waterx_agent.Verify.Refusal.{passed_if}
use waterx_agent.Verify.Match.{VerificationContext, transaction_matches}
use waterx_agent.Verify.Match.Binds.{bytes-Passed}

-- If the bytes pass, then the decoded transaction holds only Move calls and vectors; every call is
-- in a package that the deployment runs now or that the operator named; every package inside a
-- type argument is one of the deployment or named; and every input is pure, a withdrawal of funds,
-- or a shared object of the deployment.
pub matched_touches :
    (h : Host) (intent : WriteIntent) (signer : String) (context : VerificationContext)
    (tx_bytes : String) (t : Decoded)
    → h.decode tx_bytes ≡ some t
    → transaction_matches h intent signer context tx_bytes ≡ none
    → All (IsVouchedCommand context.deployment (parse_exceptions context.extra_packages)) t.commands
      × All (IsVouchedInput context.deployment (parse_exceptions context.extra_packages)) t.inputs
matched_touches h intent signer context tx_bytes t e k =
    shape_vouched h context.deployment context.extra_packages t
      (bytes-Passed h intent signer context tx_bytes t e k).shape

-- The signer sends it, where the transaction says who does.
abbrev pub IsSentBy : String → Option String → Type 0
IsSentBy signer none = Unit
IsSentBy signer (some sender) = lower (codes sender) ≡ lower (codes signer)

-- Where the transaction says who pays for gas, it is the signer exactly when no sponsor does.
abbrev pub IsGasPaid : Bool → String → Option String → Type 0
IsGasPaid sponsored signer none = Unit
IsGasPaid sponsored signer (some owner) =
    (normalize_package (codes owner) ≡ normalize_package (codes signer)) ↔ (sponsored ≡ false)

sender-IsSentBy :
    (o : Option String) (signer : String) → check_sender o signer ≡ none → IsSentBy signer o
unfolding check_sender
sender-IsSentBy none signer k = tt
sender-IsSentBy (some sender) signer k = eq_text_sound _ _ (passed_if _ _ k)

payer_iff :
    (sponsored : Bool) (a b : Text)
    → check_payer sponsored (eq_text a b) ≡ none
    → (a ≡ b) ↔ (sponsored ≡ false)
unfolding check_payer
payer_iff true a b k = (
  λ same. absurd (
      let hit = subst (λ (x : Text). eq_text a x ≡ true) same (eq_text_refl a) in
      ground (arith, hit)),
  λ e. absurd (cc),
)
payer_iff false a b k = (λ same. refl, λ e. eq_text_sound a b (ground arith))

gas-IsGasPaid :
    (o : Option String) (signer : String) (sponsored : Bool)
    → check_gas o signer sponsored ≡ none
    → IsGasPaid sponsored signer o
unfolding check_gas
gas-IsGasPaid none signer sponsored k = tt
gas-IsGasPaid (some owner) signer sponsored k = payer_iff sponsored _ _ k

-- If the bytes pass, then funds leave the balance of the sender only where the intent moves funds
-- in, and then in one withdrawal of the amount and the asset that it states; a sender that is
-- named is the signer; and a payer of gas that is named is the signer exactly when no sponsor
-- pays.
pub matched_pays :
    (h : Host) (intent : WriteIntent) (signer : String) (context : VerificationContext)
    (tx_bytes : String) (t : Decoded)
    → h.decode tx_bytes ≡ some t
    → transaction_matches h intent signer context tx_bytes ≡ none
    → IsPaid
        (is_true intent.moves_funds_in)
        intent.collateral_raw
        intent.asset_type
        (withdrawals_of t.inputs)
      × IsSentBy signer t.sender
      × IsGasPaid context.sponsored signer t.gas_owner
matched_pays h intent signer context tx_bytes t e k =
    let p = bytes-Passed h intent signer context tx_bytes t e k in
    (
      funds-IsPaid t intent p.funds,
      sender-IsSentBy t.sender signer p.sender,
      gas-IsGasPaid t.gas_owner signer context.sponsored p.gas,
    )
