-- ===== src/Verify/Encoding/RoundTrip.antt =====
-- A number in its BCS bytes, least significant first, is read back as itself.
use waterx_agent.Prelude.{
  ℕ, zero, suc, ◌+◌, ◌*◌, ◌/◌, ◌%◌, ◌^◌, ◌<◌, [], ◌∷◌, length, ◌≡◌, refl, ap, ◌∙◌, arith, pos,
  ==_refl,
}
use waterx_agent.Verify.Text.{Text}
use waterx_agent.Verify.Transaction.{Bytes}
use waterx_agent.Verify.Encoding.{
  Encoding, address, string, bool, u8, u32, u64, u128, opt_u64, opt_u128, number, Read, present,
  little_endian, take, drop, read_width, read_u128, read_option, read_bytes,
}

unfoldable pub le_bytes : ℕ → ℕ → Bytes
le_bytes zero n = []
le_bytes (suc w) n = (n % 256) ∷ le_bytes w (n / 256)

-- The bytes of a number, and the form that an encoding of numbers gives them.
abbrev pub width : Encoding → ℕ
width u8 = 1
width u32 = 4
width u64 = 8
width u128 = 16
width opt_u64 = 8
width opt_u128 = 16
width _ = 0

abbrev pub wire : Encoding → ℕ → Bytes
wire opt_u64 n = 1 ∷ le_bytes 8 n
wire opt_u128 n = 1 ∷ le_bytes 16 n
wire e n = le_bytes (width e) n

length-le_bytes : (w n : ℕ) → length (le_bytes w n) ≡ w
unfolding le_bytes
length-le_bytes zero n = refl
length-le_bytes (suc w) n = ap suc (length-le_bytes w (n / 256))

power_suc : (w : ℕ) → 256 ^ suc w ≡ 256 * 256 ^ w
power_suc w = omega arith

little_endian-le_bytes : (w n : ℕ) → n < 256 ^ w → little_endian (le_bytes w n) ≡ n
unfolding le_bytes little_endian
little_endian-le_bytes zero n h = omega arith
little_endian-le_bytes (suc w) n h =
    omega (arith, little_endian-le_bytes w (n / 256) (omega (arith, power_suc w)))

-- Reading two halves is reading the whole.
halves :
    (k : ℕ) (bs : Bytes)
    → little_endian (take k bs) + little_endian (drop k bs) * 256 ^ k ≡ little_endian bs
unfolding little_endian
halves zero bs = omega arith
halves (suc k) [] = omega arith
halves (suc k) (b ∷ bs) =
    omega (arith, halves k bs, ap (λ (p : ℕ). little_endian (drop k bs) * p) (power_suc k))

read_width-le_bytes :
    (w n : ℕ) → n < 256 ^ w → read_width w (le_bytes w n) ≡ present (number (pos n))
unfolding read_width
read_width-le_bytes w n h = rw (length-le_bytes w n, ==_refl w, little_endian-le_bytes w n h) refl

read_u128-le_bytes : (n : ℕ) → n < 256 ^ 16 → read_u128 (le_bytes 16 n) ≡ present (number (pos n))
unfolding read_u128
read_u128-le_bytes n h =
    rw (length-le_bytes 16 n, halves 8 (le_bytes 16 n), little_endian-le_bytes 16 n h) refl

read_option-tagged :
    (read : Bytes → Read) (w : ℕ) (bs : Bytes)
    → 0 < w
    → length bs ≡ w
    → read_option read w (1 ∷ bs) ≡ read bs
unfolding read_option
read_option-tagged read w [] p e = absurd (omega (arith, e))
read_option-tagged read w (b ∷ bs) p e = ground (arith, e)

-- For each encoding of numbers, the optional ones included, the BCS bytes of a number that fits
-- its width, least significant byte first and behind the tag 1 of an Option, are read back as that
-- number.
pub read_bytes-wire :
    (utf8 : Bytes → Text) (e : Encoding) (n : ℕ)
    → 0 < width e
    → n < 256 ^ width e
    → read_bytes utf8 (wire e n) e ≡ present (number (pos n))
unfolding read_bytes
read_bytes-wire utf8 address n p h = absurd (omega arith)
read_bytes-wire utf8 string n p h = absurd (omega arith)
read_bytes-wire utf8 bool n p h = absurd (omega arith)
read_bytes-wire utf8 u8 n p h = read_width-le_bytes 1 n h
read_bytes-wire utf8 u32 n p h = read_width-le_bytes 4 n h
read_bytes-wire utf8 u64 n p h = read_width-le_bytes 8 n h
read_bytes-wire utf8 u128 n p h = read_u128-le_bytes n h
read_bytes-wire utf8 opt_u64 n p h =
    read_option-tagged (read_width 8) 8 (le_bytes 8 n) p (length-le_bytes 8 n)
    ∙ read_width-le_bytes 8 n h
read_bytes-wire utf8 opt_u128 n p h =
    read_option-tagged read_u128 16 (le_bytes 16 n) p (length-le_bytes 16 n)
    ∙ read_u128-le_bytes n h
