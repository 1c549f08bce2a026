-- ===== src/Verify/Refusal.antt =====
-- src/chain/verify.ts: the refusals, and checks made one after another up to the first of them.
use waterx_agent.Prelude.{
  ℕ, suc, List, [], ◌∷◌, Option, none, some, ◌≡◌, refl, All, arith, Bool, true, if◌then◌else◌,
}

-- One constructor for each sentence that a refusal words. `threw` is an error of `BigInt`.
pub data Refusal : Type 0 where
  not_decodable not_a_call no_abi wrong_arity unconstrained not_readable : Refusal
  not_authorized not_stated undecodable mismatch threw : Refusal
  not_a_result wrong_producer wrong_producer_package not_first_result not_a_vector : Refusal
  no_such_role not_shared wrong_object : Refusal
  no_ceiling unknown_slot not_a_mask excess_permissions : Refusal
  slot_written_twice slot_not_set wrong_grant : Refusal
  unknown_function wrong_function_arity superseded foreign_package foreign_type : Refusal
  foreign_command foreign_object foreign_input : Refusal
  unexpected_withdrawal wrong_withdrawal_count payment_not_stated not_from_sender : Refusal
  wrong_reservation wrong_asset : Refusal
  unpinned_package wrong_package wrong_type_role type_not_stated wrong_type : Refusal
  other_sender no_way_back unconfirmed_layout signer_pays other_payer : Refusal
  no_rule not_the_action foreign_call wrong_multiplicity companion_missing : Refusal
  legs_not_stated unreadable_order leg_opens leg_commits wrong_leg_size leg_has_bound : Refusal
  wrong_leg_position unauthorized_leg wrong_leg_count wrong_main_count unhandled_leg_argument :
      Refusal

-- A check that passes is `none`.
abbrev pub Check : Type 0
Check = Option Refusal

infixr 20 ◌>>◌
abbrev pub ◌>>◌ : Check → Check → Check
none >> k = k
some r >> k = some r

pub >>-none : (a b : Check) → a >> b ≡ none → (a ≡ none) × (b ≡ none)
>>-none none b h = (refl, h)
>>-none (some r) b h = absurd (ground arith)

pub passed_if : (b : Bool) (r : Refusal) → (if b then none else some r) ≡ none → b ≡ true
passed_if b r e = ground arith

pub if-elsewhere :
    (b : Bool) (k : Check) (r : Refusal)
    → (if b then k else some r) ≡ none
    → (b ≡ true) × (k ≡ none)
if-elsewhere b k r e = ground arith

pub when_true : (b : Bool) (c : Check) → (if b then c else none) ≡ none → b ≡ true → c ≡ none
when_true b c e k = ground arith

-- A check of every element, in order.
module _ {ℓ} {A : Type ℓ} where
  unfoldable pub check_each : (A → Check) → List A → Check
  check_each f [] = none
  check_each f (x ∷ xs) = f x >> check_each f xs

  pub check_each_sound :
      (f : A → Check) (xs : List A) → check_each f xs ≡ none → All (λ x. f x ≡ none) xs
  unfolding check_each
  check_each_sound f [] h = tt
  check_each_sound f (x ∷ xs) h =
      let p = >>-none (f x) (check_each f xs) h in (p.0, check_each_sound f xs p.1)

  -- Each element with its place.
  unfoldable pub numbered : ℕ → List A → List (ℕ × A)
  numbered i [] = []
  numbered i (x ∷ xs) = (i, x) ∷ numbered (suc i) xs
