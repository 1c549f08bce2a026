-- ===== src/Verify/Shape/Paid.antt =====
-- What `assertFundsWithdrawal` lets leave the signer's balance.
use waterx_agent.Prelude.{
  String, Bool, true, false, List, [], ◌∷◌, Option, none, some, str_eq_iff, ℤ, ◌≡◌, refl, ap,
}
use waterx_agent.Policy.Intent.{WriteIntent}
use waterx_agent.Verify.Transaction.{Withdrawal, Decoded}
use waterx_agent.Verify.Authorized.{big_int}
use waterx_agent.Verify.Shape.{
  withdrawals_of, check_same_amount, check_reserved, check_asset, check_payment, is_true,
  check_withdrawals, check_funds,
}
use waterx_agent.Verify.Equal.{eq_ℤ_sound}
use waterx_agent.Verify.Refusal.{>>-none, passed_if}

-- The withdrawal draws the amount and the asset that the intent states from the sender.
pub record IsPayment (amount asset : Option String) (w : Withdrawal) : Type 0 where
  pub wanted : String
  pub reserved : String
  pub coin : String
  pub sum : ℤ
  pub stated_amount : amount ≡ some wanted
  pub stated_asset : asset ≡ some coin
  pub from_sender : w.from_sender ≡ true
  pub reserves : w.max_amount_u64 ≡ some reserved
  pub wanted_sum : big_int wanted ≡ some sum
  pub reserved_sum : big_int reserved ≡ some sum
  pub pays_in : w.balance ≡ some coin

-- One payment where the intent moves funds in, and none where it does not.
abbrev pub IsPaid : Bool → Option String → Option String → List Withdrawal → Type 0
IsPaid false amount asset ws = ws ≡ []
IsPaid true amount asset ws = (w : Withdrawal) × (ws ≡ w ∷ []) × IsPayment amount asset w

same_sum : (a b : Option ℤ) → check_same_amount a b ≡ none → (n : ℤ) × (a ≡ some n) × (b ≡ some n)
same_sum none b k = absurd (cc)
same_sum (some a) none k = absurd (cc)
same_sum (some a) (some b) k = (b, ap some (eq_ℤ_sound a b (passed_if _ _ k)), refl)

reserved_by :
    (o : Option String) (wanted : String)
    → check_reserved o wanted ≡ none
    → (reserved : String) × (o ≡ some reserved)
      × ((n : ℤ) × (big_int reserved ≡ some n) × (big_int wanted ≡ some n))
unfolding check_reserved
reserved_by none wanted k = absurd (cc)
reserved_by (some r) wanted k = (r, refl, same_sum (big_int r) (big_int wanted) k)

asset_by : (o : Option String) (asset : String) → check_asset o asset ≡ none → o ≡ some asset
asset_by none asset k = absurd (cc)
asset_by (some balance) asset k = ap some ((str_eq_iff balance asset).0 (passed_if _ _ k))

IsPayment-sound :
    (amount asset : Option String) (w : Withdrawal)
    → check_payment amount asset w ≡ none
    → IsPayment amount asset w
unfolding check_payment
IsPayment-sound none asset w k = absurd (cc)
IsPayment-sound (some amount) none w k = absurd (cc)
IsPayment-sound (some amount) (some asset) w k =
    let (k1, rest) = >>-none _ _ k in
    let (k2, k3) = >>-none _ _ rest in
    let (reserved, e, (n, a, b)) = reserved_by w.max_amount_u64 amount k2 in
    record {
      wanted = amount;
      reserved = reserved;
      coin = asset;
      sum = n;
      stated_amount = refl;
      stated_asset = refl;
      from_sender = passed_if _ _ k1;
      reserves = e;
      wanted_sum = b;
      reserved_sum = a;
      pays_in = asset_by w.balance asset k3;
    }

withdrawals-IsPaid :
    (moves : Bool) (amount asset : Option String) (ws : List Withdrawal)
    → check_withdrawals moves amount asset ws ≡ none
    → IsPaid moves amount asset ws
unfolding check_withdrawals
withdrawals-IsPaid false amount asset [] k = refl
withdrawals-IsPaid false amount asset (w ∷ ws) k = absurd (cc)
withdrawals-IsPaid true amount asset [] k = absurd (cc)
withdrawals-IsPaid true amount asset (w ∷ []) k = (w, refl, IsPayment-sound amount asset w k)
withdrawals-IsPaid true amount asset (w ∷ v ∷ ws) k = absurd (cc)

pub funds-IsPaid :
    (t : Decoded) (intent : WriteIntent)
    → check_funds t intent ≡ none
    → IsPaid
        (is_true intent.moves_funds_in)
        intent.collateral_raw
        intent.asset_type
        (withdrawals_of t.inputs)
unfolding check_funds
funds-IsPaid t intent k = withdrawals-IsPaid _ intent.collateral_raw intent.asset_type _ k
