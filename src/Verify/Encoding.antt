-- ===== src/Verify/Encoding.antt =====
-- src/chain/verify.ts: the BCS encodings that the checks read.
pub mod RoundTrip
use waterx_agent.Prelude.{
  ℕ, ◌+◌, ◌*◌, ◌/◌, ◌%◌, ◌^◌, ◌-◌, String, Bool, true, false, List, [], ◌∷◌, ◌++◌, Option, none,
  some, ltb, leb, ◌==◌, if◌then◌else◌, str_eq, length, ℤ, pos, suc, zero,
}
use waterx_agent.Verify.Text.{Text, eq_text}
use waterx_agent.Verify.Transaction.{Bytes}

pub data Encoding : Type 0 where
  address string bool u8 u32 u64 u128 opt_u64 opt_u128 : Encoding

abbrev pub encoding_named : List (String × Encoding)
encoding_named =
    ("bool", bool)
    ∷ ("u8", u8)
    ∷ ("u32", u32)
    ∷ ("u64", u64)
    ∷ ("u128", u128)
    ∷ ("address", address)
    ∷ ("0x2::object::ID", address)
    ∷ ("0x1::string::String", string)
    ∷ ("0x1::option::Option<u64>", opt_u64)
    ∷ ("0x1::option::Option<u128>", opt_u128)
    ∷ []

unfoldable pub lookup {ℓ} : {A : Type ℓ} → String → List (String × A) → Option A
lookup k [] = none
lookup k ((j, a) ∷ rest) = if str_eq j k then some a else lookup k rest

-- `encodingOf`
unfoldable pub encoding_of : Option String → Option Encoding
unfolding lookup
encoding_of none = none
encoding_of (some move_type) = lookup move_type encoding_named

pub data Value : Type 0 where
  number : ℤ → Value
  text : Text → Value
  flag : Bool → Value

-- `Read`
pub data Read : Type 0 where
  present : Value → Read
  absent : Read
  bad : Read

abbrev pub hex_digit : ℕ → ℕ
hex_digit n = if ltb n 10 then b'0' + n else b'a' + (n - 10)

-- `toString("hex")`
unfoldable pub hex : Bytes → Text
hex [] = []
hex (b ∷ bs) = hex_digit (b / 16) ∷ hex_digit (b % 16) ∷ hex bs

-- `readUIntLE`
unfoldable pub little_endian : Bytes → ℕ
little_endian [] = 0
little_endian (b ∷ bs) = b + 256 * little_endian bs

abbrev pub take : ℕ → Bytes → Bytes
take zero bs = []
take (suc n) [] = []
take (suc n) (b ∷ bs) = b ∷ take n bs

abbrev pub drop : ℕ → Bytes → Bytes
drop zero bs = bs
drop (suc n) [] = []
drop (suc n) (b ∷ bs) = drop n bs

-- A number of so many bytes.
unfoldable pub read_width : ℕ → Bytes → Read
unfolding little_endian
read_width w bs = if length bs == w then present (number (pos (little_endian bs))) else bad

-- `lo | (hi << 64n)`
unfoldable pub read_u128 : Bytes → Read
unfolding little_endian
read_u128 bs =
    if length bs == 16
    then present (number (pos (little_endian (take 8 bs) + little_endian (drop 8 bs) * 2 ^ 64)))
    else bad

unfoldable pub read_bool : Bytes → Read
read_bool (b ∷ []) = if leb b 1 then present (flag (b == 1)) else bad
read_bool _ = bad

-- A byte that counts the rest, and the rest. `utf8` is the decoder of Node's `Buffer`.
unfoldable pub read_string : (Bytes → Text) → Bytes → Read
read_string utf8 [] = bad
read_string utf8 (n ∷ bs) = if n == length bs then present (text (utf8 bs)) else bad

-- A one-byte Option is absent when the byte is zero; a longer one has the tag 1.
unfoldable pub read_option : (Bytes → Read) → ℕ → Bytes → Read
read_option read w [] = bad
read_option read w (tag ∷ []) = if tag == 0 then absent else bad
read_option read w (tag ∷ b ∷ bs) =
    if length (b ∷ bs) == w then (if tag == 1 then read (b ∷ bs) else bad) else bad

-- `readEncoded`
unfoldable pub read_bytes : (Bytes → Text) → Bytes → Encoding → Read
unfolding hex read_width read_u128 read_bool read_string read_option
read_bytes utf8 bs address = if length bs == 32 then present (text (hex bs)) else bad
read_bytes utf8 bs string = read_string utf8 bs
read_bytes utf8 bs bool = read_bool bs
read_bytes utf8 bs u8 = read_width 1 bs
read_bytes utf8 bs u32 = read_width 4 bs
read_bytes utf8 bs u64 = read_width 8 bs
read_bytes utf8 bs u128 = read_u128 bs
read_bytes utf8 bs opt_u64 = read_option (read_width 8) 8 bs
read_bytes utf8 bs opt_u128 = read_option read_u128 16 bs

unfoldable pub read_encoded : (Bytes → Text) → Option Bytes → Encoding → Read
unfolding read_bytes
read_encoded utf8 none encoding = bad
read_encoded utf8 (some bs) encoding = read_bytes utf8 bs encoding

-- `===` of two values
abbrev pub eq_ℤ : ℤ → ℤ → Bool
eq_ℤ (pos a) (pos b) = a == b
eq_ℤ (ℤ.negsuc a) (ℤ.negsuc b) = a == b
eq_ℤ _ _ = false

abbrev eq_flag : Bool → Bool → Bool
eq_flag true true = true
eq_flag false false = true
eq_flag _ _ = false

unfoldable pub eq_value : Value → Value → Bool
unfolding eq_text
eq_value (number a) (number b) = eq_ℤ a b
eq_value (text s) (text t) = eq_text s t
eq_value (flag a) (flag b) = eq_flag a b
eq_value _ _ = false
