-- ===== src/Verify/Authorized.antt =====
-- src/chain/verify.ts: what an intent authorizes for a bound field.
use waterx_agent.Prelude.{
  ℕ, suc, ◌+◌, ◌-◌, ◌*◌, ◌/◌, ◌%◌, String, Bool, true, false, ◌&&◌, ◌||◌, [], ◌∷◌, Option, none,
  some, ltb, leb, ◌==◌, if◌then◌else◌, ℤ, pos, negsuc, neg_ℤ, Number, finite, ◌≡◌, refl,
}
use waterx_agent.Policy.Intent.{WriteIntent, Side, long, short}
use waterx_agent.Verify.Text.{Text, codes, normalize_package}
use waterx_agent.Verify.Encoding.{Value, number, text, flag}
use waterx_agent.Verify.Bindings.{
  Bindable, account_id, ticker, delegate_address, delegate_base_permissions, delegate_permissions,
  delegate_expires_at_ms, position_id, order_id, request_id, recipient, alias, collateral_raw,
  amount_raw, size_raw, trigger_price_raw, acceptable_price_raw, side, reduce_only, is_stop_order,
  legs, moves_funds_in, asset_type,
}

-- What `BigInt` makes of a value: nothing where it throws.
abbrev pub digit_value : ℕ → ℕ
digit_value c =
    if leb b'0' c && leb c b'9'
    then c - b'0'
    else if leb b'a' c && leb c b'f'
    then c - b'a' + 10
    else if leb b'A' c && leb c b'F'
    then c - b'A' + 10
    else 16

unfoldable pub digits_from : ℕ → ℕ → Text → Option ℕ
digits_from base acc [] = some acc
digits_from base acc (c ∷ s) =
    if ltb (digit_value c) base then digits_from base (acc * base + digit_value c) s else none

unfoldable pub digits : ℕ → Text → Option ℕ
unfolding digits_from
digits base [] = none
digits base (c ∷ s) = digits_from base 0 (c ∷ s)

abbrev pub to_pos : Option ℕ → Option ℤ
to_pos none = none
to_pos (some n) = some (pos n)

abbrev pub to_neg : Option ℕ → Option ℤ
to_neg none = none
to_neg (some n) = some (neg_ℤ (pos n))

-- The blanks at either end go: the white space and the line ends of the language.
abbrev pub is_blank : ℕ → Bool
is_blank c =
    c == 32
    || (leb 9 c && leb c 13)
    || c == 0xA0
    || c == 0x1680
    || (leb 0x2000 c && leb c 0x200A)
    || c == 0x2028
    || c == 0x2029
    || c == 0x202F
    || c == 0x205F
    || c == 0x3000
    || c == 0xFEFF

unfoldable pub skip_blanks : Text → Text
skip_blanks [] = []
skip_blanks (c ∷ s) = if is_blank c then skip_blanks s else c ∷ s

unfoldable pub keep_unless_blank : ℕ → Text → Text
keep_unless_blank c [] = if is_blank c then [] else c ∷ []
keep_unless_blank c (d ∷ s) = c ∷ d ∷ s

unfoldable pub drop_blanks : Text → Text
unfolding keep_unless_blank
drop_blanks [] = []
drop_blanks (c ∷ s) = keep_unless_blank c (drop_blanks s)

unfoldable pub signed_digits : Text → Option ℤ
unfolding digits neg_ℤ
signed_digits [] = some (pos 0)
signed_digits (c ∷ s) =
    if c == b'-'
    then to_neg (digits 10 s)
    else if c == b'+'
    then to_pos (digits 10 s)
    else to_pos (digits 10 (c ∷ s))

unfoldable pub radix_digits : Text → Option ℤ
unfolding digits signed_digits
radix_digits (z ∷ r ∷ s) =
    if z == b'0' && (r == b'x' || r == b'X')
    then to_pos (digits 16 s)
    else if z == b'0' && (r == b'o' || r == b'O')
    then to_pos (digits 8 s)
    else if z == b'0' && (r == b'b' || r == b'B')
    then to_pos (digits 2 s)
    else signed_digits (z ∷ r ∷ s)
radix_digits s = signed_digits s

-- `BigInt(text)`
unfoldable pub big_int : String → Option ℤ
unfolding skip_blanks drop_blanks radix_digits
big_int s = radix_digits (drop_blanks (skip_blanks (codes s)))

abbrev pub whole : ℕ → ℕ → Option ℕ
whole one n = if n % one == 0 then some (n / one) else none

-- `BigInt(number)`, where `one` counts the units of a finite number that make 1.
unfoldable pub big_int_of_number : ℕ → Number → Option ℤ
unfolding neg_ℤ
big_int_of_number one (finite (pos n)) = to_pos (whole one n)
big_int_of_number one (finite (negsuc n)) = to_neg (whole one (suc n))
big_int_of_number one _ = none

-- The field's value, nothing at all, or an error that `BigInt` throws.
pub data Wanted : Type 0 where
  stated : Value → Wanted
  unstated : Wanted
  throws : Wanted

abbrev pub number_or_throw : Option ℤ → Wanted
number_or_throw none = throws
number_or_throw (some n) = stated (number n)

abbrev pub wanted_number : ℕ → Option Number → Wanted
wanted_number one none = unstated
wanted_number one (some n) = number_or_throw (big_int_of_number one n)

abbrev pub wanted_raw : Option String → Wanted
wanted_raw none = unstated
wanted_raw (some s) = number_or_throw (big_int s)

abbrev pub wanted_text : Option String → Wanted
wanted_text none = unstated
wanted_text (some s) = stated (text (codes s))

abbrev pub wanted_flag : Option Bool → Wanted
wanted_flag none = unstated
wanted_flag (some b) = stated (flag b)

abbrev pub wanted_address : Option String → Wanted
wanted_address none = unstated
wanted_address (some s) = stated (text (normalize_package (codes s)))

abbrev pub wanted_side : Option Side → Wanted
wanted_side none = unstated
wanted_side (some long) = stated (flag true)
wanted_side (some short) = stated (flag false)

abbrev pub unless_empty : Text → Wanted
unless_empty [] = unstated
unless_empty (c ∷ s) = stated (text (normalize_package (c ∷ s)))

-- `authorized`
unfoldable pub authorized : ℕ → WriteIntent → Bindable → Wanted
unfolding normalize_package big_int big_int_of_number
authorized one i account_id = unless_empty (codes i.account_id)
authorized one i ticker = wanted_text i.ticker
authorized one i delegate_address = wanted_address i.delegate_address
authorized one i position_id = wanted_number one i.position_id
authorized one i order_id = wanted_number one i.order_id
authorized one i collateral_raw = wanted_raw i.collateral_raw
authorized one i size_raw = wanted_raw i.size_raw
authorized one i trigger_price_raw = wanted_raw i.trigger_price_raw
authorized one i acceptable_price_raw = wanted_raw i.acceptable_price_raw
authorized one i side = wanted_side i.side
authorized one i reduce_only = wanted_flag i.reduce_only
authorized one i is_stop_order = wanted_flag i.is_stop_order
authorized one i recipient = wanted_address i.recipient
authorized one i alias = wanted_text i.alias
authorized one i delegate_base_permissions = wanted_number one i.delegate_base_permissions
authorized one i delegate_expires_at_ms = wanted_number one i.delegate_expires_at_ms
authorized one i request_id = wanted_number one i.request_id
authorized one i amount_raw = wanted_raw i.amount_raw
authorized one i moves_funds_in = wanted_text i.asset_type
authorized one i asset_type = wanted_text i.asset_type
authorized one i delegate_permissions = unstated
authorized one i legs = unstated

big_int_example : big_int " 8000000" ≡ some (pos 8_000_000)
unfolding big_int
big_int_example = refl
