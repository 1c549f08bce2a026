-- ===== src/Verify/Shape.antt =====
-- src/chain/verify.ts: `assertShapeIsAllowed`, `assertFundsWithdrawal`, `assertGasIsRight` and
-- `assertLayoutConfirmed`.
pub mod Vouched
pub mod Paid
use waterx_agent.Prelude.{
  ℕ, String, Bool, true, false, not, ◌&&◌, ◌||◌, List, [], ◌∷◌, ◌++◌, Option, none, some, ◌==◌,
  if◌then◌else◌, str_eq, includes, length, find, any, ℤ,
}
use waterx_agent.Policy.Intent.{WriteIntent}
use waterx_agent.Verify.Text.{Text, codes, eq_text, has, lower, normalize_package, referenced}
use waterx_agent.Verify.Transaction.{
  MoveCall, Command, move_call, make_move_vec, other_command, Input, pure, shared_object,
  funds_withdrawal, other_input, Withdrawal, Decoded,
}
use waterx_agent.Verify.Deployment.{
  Deployment, PackageException, exception_covers, parse_exceptions,
}
use waterx_agent.Verify.Encoding.{lookup, eq_ℤ}
use waterx_agent.Verify.Rules.{ActionRule, needs_a_way_back}
use waterx_agent.Verify.Authorized.{big_int}
use waterx_agent.Verify.Host.{Host}
use waterx_agent.Verify.Refusal.{
  Refusal, Check, ◌>>◌, check_each, threw, unknown_function, wrong_function_arity, superseded,
  foreign_package, foreign_type, foreign_command, foreign_object, foreign_input,
  unexpected_withdrawal, wrong_withdrawal_count, payment_not_stated, not_from_sender,
  wrong_reservation, wrong_asset, other_sender, no_way_back, unconfirmed_layout, signer_pays,
  other_payer,
}

abbrev pub is_some_exception : Option PackageException → Bool
is_some_exception none = false
is_some_exception (some e) = true

abbrev pub sdk_of : Option PackageException → Option Text
sdk_of none = none
sdk_of (some e) = e.sdk_package

abbrev pub has_arity : List ℕ → ℕ → Bool
has_arity [] n = false
has_arity (a ∷ rest) n = a == n || has_arity rest n

unfoldable pub check_arity : Option (List ℕ) → ℕ → Check
check_arity none n = some unknown_function
check_arity (some arities) n = if has_arity arities n then none else some wrong_function_arity

abbrev pub check_kind : Command → Check
check_kind (move_call c) = none
check_kind (make_move_vec elements) = none
check_kind (other_command kind arguments) = some foreign_command

module _ (h : Host) (d : Deployment) where
  unfoldable pub check_sdk_function : MoveCall → Option Text → Check
  unfolding check_arity
  check_sdk_function c none = none
  check_sdk_function c (some sdk) =
      check_arity
        (h.known_functions
          (sdk ++ (codes "::" ++ (codes c.module_name ++ (codes "::" ++ codes c.function)))))
        (length c.arguments)

  unfoldable pub check_published : Text → Bool → Check
  unfolding has
  check_published id excepted =
      if has d.callable id || excepted
      then none
      else if has d.typeable id
      then some superseded
      else some foreign_package

  unfoldable pub check_referenced : List PackageException → Text → Check
  unfolding has eq_text
  check_referenced exceptions id =
      if has d.typeable id || any (λ (e : PackageException). eq_text e.pkg id) exceptions
      then none
      else some foreign_type

  abbrev pub exception_for : List PackageException → MoveCall → Option PackageException
  exception_for exceptions c =
      find
        (λ e.
          exception_covers e (normalize_package (codes c.package_id)) (codes c.module_name)
            (codes c.function))
        exceptions

  unfoldable pub check_published_call : List PackageException → MoveCall → Check
  unfolding check_sdk_function check_published check_each check_referenced referenced
      normalize_package exception_covers
  check_published_call exceptions c =
      check_sdk_function c (sdk_of (exception_for exceptions c))
      >> check_published (normalize_package (codes c.package_id))
          (is_some_exception (exception_for exceptions c))
      >> check_each (λ type. check_each (check_referenced exceptions) (referenced (codes type)))
          c.type_arguments

  unfoldable pub check_command_call : List PackageException → Command → Check
  unfolding check_published_call
  check_command_call exceptions (move_call c) = check_published_call exceptions c
  check_command_call exceptions _ = none

  unfoldable pub check_input : Input → Check
  unfolding has normalize_package
  check_input (pure bytes) = none
  check_input (shared_object id) =
      if has d.objects (normalize_package (codes id)) then none else some foreign_object
  check_input (funds_withdrawal w) = none
  check_input (other_input kind) = some foreign_input

  -- `assertShapeIsAllowed`
  unfoldable pub check_shape : List String → Decoded → Check
  unfolding check_each check_command_call check_input parse_exceptions
  check_shape extra_packages t =
      check_each (check_command_call (parse_exceptions extra_packages)) t.commands
      >> check_each check_kind t.commands
      >> check_each check_input t.inputs

unfoldable pub withdrawals_of : List Input → List Withdrawal
withdrawals_of [] = []
withdrawals_of (funds_withdrawal w ∷ inputs) = w ∷ withdrawals_of inputs
withdrawals_of (_ ∷ inputs) = withdrawals_of inputs

abbrev pub check_same_amount : Option ℤ → Option ℤ → Check
check_same_amount (some reserved) (some wanted) =
    if eq_ℤ reserved wanted then none else some wrong_reservation
check_same_amount _ _ = some threw

unfoldable pub check_reserved : Option String → String → Check
unfolding big_int
check_reserved none amount = some wrong_reservation
check_reserved (some reserved) amount = check_same_amount (big_int reserved) (big_int amount)

abbrev pub check_asset : Option String → String → Check
check_asset none asset = some wrong_asset
check_asset (some balance) asset = if str_eq balance asset then none else some wrong_asset

unfoldable pub check_payment : Option String → Option String → Withdrawal → Check
unfolding check_reserved
check_payment (some amount) (some asset) w =
    (if w.from_sender then none else some not_from_sender)
    >> check_reserved w.max_amount_u64 amount
    >> check_asset w.balance asset
check_payment _ _ w = some payment_not_stated

abbrev pub is_true : Option Bool → Bool
is_true (some true) = true
is_true _ = false

unfoldable pub check_withdrawals : Bool → Option String → Option String → List Withdrawal → Check
unfolding check_payment
check_withdrawals false amount asset [] = none
check_withdrawals false amount asset (w ∷ ws) = some unexpected_withdrawal
check_withdrawals true amount asset (w ∷ []) = check_payment amount asset w
check_withdrawals true amount asset _ = some wrong_withdrawal_count

-- `assertFundsWithdrawal`
unfoldable pub check_funds : Decoded → WriteIntent → Check
unfolding withdrawals_of check_withdrawals
check_funds t intent =
    check_withdrawals (is_true intent.moves_funds_in) intent.collateral_raw intent.asset_type
      (withdrawals_of t.inputs)

-- Who sends, where the transaction says.
unfoldable pub check_sender : Option String → String → Check
unfolding eq_text
check_sender none signer = none
check_sender (some sender) signer =
    if eq_text (lower (codes sender)) (lower (codes signer)) then none else some other_sender

unfoldable pub check_payer : Bool → Bool → Check
check_payer true true = some signer_pays
check_payer true false = none
check_payer false true = none
check_payer false false = some other_payer

-- `assertGasIsRight`
unfoldable pub check_gas : Option String → String → Bool → Check
unfolding check_payer eq_text normalize_package
check_gas none signer sponsored = none
check_gas (some owner) signer sponsored =
    check_payer sponsored
      (eq_text (normalize_package (codes owner)) (normalize_package (codes signer)))

abbrev pub is_unconfirmed : (uncaptured allow_unconfirmed : List String) → String → Bool
is_unconfirmed uncaptured allow_unconfirmed entrypoint =
    includes uncaptured entrypoint && not (includes allow_unconfirmed entrypoint)

abbrev pub check_confirmed : Refusal → List String → List String → Option String → Check
check_confirmed r uncaptured allow_unconfirmed none = none
check_confirmed r uncaptured allow_unconfirmed (some entrypoint) =
    if is_unconfirmed uncaptured allow_unconfirmed entrypoint then some r else none

abbrev pub entrypoint_of : Option ActionRule → Option String
entrypoint_of none = none
entrypoint_of (some rule) = some rule.entrypoint

-- `assertLayoutConfirmed`: the way back first, then the action's own layout.
unfoldable pub check_layout : List String → List String → String → Option ActionRule → Check
unfolding lookup
check_layout uncaptured allow_unconfirmed action rule =
    check_confirmed no_way_back uncaptured allow_unconfirmed (lookup action needs_a_way_back)
    >> check_confirmed unconfirmed_layout uncaptured allow_unconfirmed (entrypoint_of rule)
