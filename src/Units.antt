-- ===== src/Units.antt =====
-- src/units.ts: the money boundary, from display units to the raw integer texts of the backend.
pub mod Decimal
pub mod Exact
pub mod Raw
pub mod Price
pub mod Accurate
pub mod Printed
mod Examples
use waterx_agent.Prelude.{
  ℕ, zero, suc, ◌+◌, ◌-◌, ◌*◌, ◌/◌, ◌%◌, ◌^◌, Bool, true, false, ◌&&◌, ◌||◌, List, [], ◌∷◌, ◌++◌,
  Option, none, some, ltb, leb, ◌==◌, if◌then◌else◌, length, Number, finite, pos, ◌≡◌, refl,
}
use waterx_agent.Verify.Text.{Text, codes, replicate}
use waterx_agent.Verify.Authorized.{digits, skip_blanks, drop_blanks}

abbrev pub collateral_decimals : ℕ
collateral_decimals = 6

abbrev pub float_decimals : ℕ
float_decimals = 9

abbrev pub u64_max : ℕ
u64_max = 2 ^ 64 - 1

abbrev pub u128_max : ℕ
u128_max = 2 ^ 128 - 1

abbrev pub is_digit : ℕ → Bool
is_digit c = leb b'0' c && leb c b'9'

unfoldable pub all_digits : Text → Bool
all_digits [] = true
all_digits (c ∷ s) = is_digit c && all_digits s

-- `DECIMAL_RE`, `/^(\d+)(?:\.(\d+))?$/`: the digits at the start, the rest, and the two groups.
abbrev pub and_digit : ℕ → Text × Text → Text × Text
and_digit c (ds, rest) = (c ∷ ds, rest)

unfoldable pub take_digits : Text → Text × Text
take_digits [] = ([], [])
take_digits (c ∷ s) = if is_digit c then and_digit c (take_digits s) else ([], c ∷ s)

unfoldable pub fraction_of : Text → Option Text
unfolding all_digits
fraction_of [] = some []
fraction_of (p ∷ []) = none
fraction_of (p ∷ c ∷ s) = if p == b'.' && all_digits (c ∷ s) then some (c ∷ s) else none

unfoldable pub groups : Text → Option Text → Option (Text × Text)
groups [] fraction = none
groups (c ∷ s) none = none
groups (c ∷ s) (some fraction) = some (c ∷ s, fraction)

unfoldable pub match_decimal : Text → Option (Text × Text)
unfolding take_digits fraction_of groups
match_decimal s = groups (take_digits s).0 (fraction_of (take_digits s).1)

-- `padEnd(n, "0")`
abbrev pub pad_end : ℕ → Text → Text
pad_end n s = s ++ replicate (n - length s) b'0'

-- `BigInt` reads digits to the base 10. An error is nothing.
unfoldable pub scale_match : ℕ → Option (Text × Text) → Option ℕ
unfolding digits
scale_match decimals none = none
scale_match decimals (some (whole, fraction)) =
    if ltb decimals (length fraction) then none else digits 10 (whole ++ pad_end decimals fraction)

-- `scaleToInteger`, on the text that its first line makes.
unfoldable pub scale_text : ℕ → Text → Option ℕ
unfolding match_decimal scale_match
scale_text decimals s = scale_match decimals (match_decimal s)

-- A text, or a number with what `String` makes of it.
pub data Amount : Type 0 where
  text : Text → Amount
  number : Number → Text → Amount

abbrev pub has_exponent : Text → Bool
has_exponent [] = false
has_exponent (c ∷ s) = (c == b'e' || c == b'E') || has_exponent s

-- `numberToDecimalString`, where `one` counts the units of a finite number that make 1.
unfoldable pub number_to_decimal_string : ℕ → Number → Text → Option Text
number_to_decimal_string one (finite (pos n)) s =
    if ltb 9_007_199_254_740_991 (n / one) || has_exponent s then none else some s
number_to_decimal_string one _ s = none

unfoldable pub text_of : ℕ → Amount → Option Text
unfolding skip_blanks drop_blanks number_to_decimal_string
text_of one (text s) = some (drop_blanks (skip_blanks s))
text_of one (number n s) = number_to_decimal_string one n s

unfoldable pub scale_found : ℕ → Option Text → Option ℕ
unfolding scale_text
scale_found decimals none = none
scale_found decimals (some s) = scale_text decimals s

-- `scaleToInteger`
unfoldable pub scale_to_integer : ℕ → Amount → ℕ → Option ℕ
unfolding text_of scale_found
scale_to_integer one value decimals = scale_found decimals (text_of one value)

-- `BigInt.prototype.toString`. Each round takes a digit, so that more rounds than the number are
-- never needed.
unfoldable pub numeral_from : ℕ → ℕ → Text
numeral_from zero n = []
numeral_from (suc rounds) n =
    let rest = numeral_from rounds (n / 10) in
    if ltb n 10 then (n + b'0') ∷ [] else rest ++ (n % 10 + b'0') ∷ []

unfoldable pub numeral : ℕ → Text
unfolding numeral_from
numeral n = numeral_from (suc n) n

-- `assertWidth`, and the text of what it lets through.
unfoldable pub assert_width : ℕ → Option ℕ → Option Text
unfolding numeral
assert_width max none = none
assert_width max (some raw) = if ltb max raw then none else some (numeral raw)

abbrev pub to_raw : (decimals max one : ℕ) → Amount → Option Text
to_raw decimals max one amount = assert_width max (scale_to_integer one amount decimals)

abbrev pub to_raw_collateral : ℕ → Amount → Option Text
to_raw_collateral = to_raw collateral_decimals u64_max

abbrev pub to_raw_price : ℕ → Amount → Option Text
to_raw_price = to_raw float_decimals u128_max

abbrev pub to_raw_acceptable_price : ℕ → Amount → Option Text
to_raw_acceptable_price = to_raw float_decimals u64_max

abbrev pub to_raw_size : ℕ → Amount → Option Text
to_raw_size = to_raw float_decimals u128_max

abbrev pub to_raw_token_amount : ℕ → Amount → Option Text
to_raw_token_amount = to_raw collateral_decimals u64_max

-- `toFixed(9)`, on so many of its last place.
unfoldable pub places : ℕ → ℕ → Text
places zero n = []
places (suc k) n = places k (n / 10) ++ (n % 10 + b'0') ∷ []

unfoldable pub fixed : ℕ → Text
unfolding numeral places
fixed n = numeral (n / 10 ^ 9) ++ b'.' ∷ places 9 (n % 10 ^ 9)

btc_size : scale_text 9 (codes "0.15") ≡ some 150_000_000
unfolding scale_text digits
btc_size = refl

collateral_text : to_raw_collateral 1 (text (codes " 10.5 ")) ≡ some (codes "10500000")
unfolding assert_width scale_to_integer digits
collateral_text = refl

too_precise : scale_text 6 (codes "1.1234567") ≡ none
unfolding scale_text digits
too_precise = refl
