-- ===== src/Verify/Text.antt =====
-- src/chain/deployment.ts: `normalizePackage`; src/chain/verify.ts: the package ids inside a type.
-- A text that is taken apart is the list of its codes.
use Prim.Native.Char.{code}
use waterx_agent.Prelude.{
  ℕ, zero, suc, ◌+◌, ◌-◌, String, Bool, true, false, ◌&&◌, ◌||◌, List, [], ◌∷◌, ◌++◌, Option, none,
  some, leb, ◌==◌, if◌then◌else◌, length, map, ◌≡◌, refl,
}

abbrev pub Text : Type 0
Text = List ℕ

abbrev pub codes : String → Text
codes String.[] = []
codes (String.◌∷◌ c s) = code c ∷ codes s

-- `===` of two texts
unfoldable pub eq_text : Text → Text → Bool
eq_text [] [] = true
eq_text (a ∷ s) (b ∷ t) = a == b && eq_text s t
eq_text _ _ = false

-- `Set.prototype.has` and `Array.prototype.includes`
unfoldable pub has : List Text → Text → Bool
unfolding eq_text
has [] t = false
has (s ∷ ss) t = eq_text s t || has ss t

-- `toLowerCase`, on the letters that an id has
abbrev pub lower_code : ℕ → ℕ
lower_code c = if leb b'A' c && leb c b'Z' then c + 32 else c

abbrev pub lower : Text → Text
lower s = map lower_code s

-- `replace(/^0x/, "")`
unfoldable pub without_0x : Text → Text
without_0x (a ∷ b ∷ s) = if a == b'0' && b == b'x' then s else a ∷ b ∷ s
without_0x s = s

abbrev pub replicate : ℕ → ℕ → Text
replicate zero c = []
replicate (suc n) c = c ∷ replicate n c

-- `padStart(n, "0")`
abbrev pub pad_start : ℕ → Text → Text
pad_start n s = replicate (n - length s) b'0' ++ s

-- `normalizePackage`, and `normalizeAddress`, which is the same function.
unfoldable pub normalize_package : Text → Text
unfolding without_0x
normalize_package id = pad_start 64 (without_0x (lower id))

-- `/0x[0-9a-fA-F]+/g`: how much of an id the codes read so far have begun.
pub data Scan : Type 0 where
  outside zero_seen x_seen : Scan
  inside : Text → Scan

-- A text in pieces: a code outside every match, or a match.
pub data Piece : Type 0 where
  plain : ℕ → Piece
  id_piece : Text → Piece

abbrev pub is_hex : ℕ → Bool
is_hex c = (leb b'0' c && leb c b'9') || (leb b'a' c && leb c b'f') || (leb b'A' c && leb c b'F')

-- Where a code stands alone: it may begin a match.
unfoldable pub scan_start : ℕ → Scan
scan_start c = if c == b'0' then zero_seen else outside

unfoldable pub scan_next : Scan → ℕ → Scan
unfolding scan_start
scan_next outside c = scan_start c
scan_next zero_seen c = if c == b'x' then x_seen else scan_start c
scan_next x_seen c = if is_hex c then inside (c ∷ []) else scan_start c
scan_next (inside s) c = if is_hex c then inside (s ++ (c ∷ [])) else scan_start c

-- A zero waits for what follows it.
unfoldable pub plain_start : ℕ → List Piece
plain_start c = if c == b'0' then [] else plain c ∷ []

unfoldable pub scan_out : Scan → ℕ → List Piece
unfolding plain_start
scan_out outside c = plain_start c
scan_out zero_seen c = if c == b'x' then [] else plain b'0' ∷ plain_start c
scan_out x_seen c = if is_hex c then [] else plain b'0' ∷ plain b'x' ∷ plain_start c
scan_out (inside s) c = if is_hex c then [] else id_piece s ∷ plain_start c

unfoldable pub scan_end : Scan → List Piece
scan_end outside = []
scan_end zero_seen = plain b'0' ∷ []
scan_end x_seen = plain b'0' ∷ plain b'x' ∷ []
scan_end (inside s) = id_piece s ∷ []

unfoldable pub pieces : Scan → Text → List Piece
unfolding scan_next scan_out scan_end
pieces s [] = scan_end s
pieces s (c ∷ cs) = scan_out s c ++ pieces (scan_next s c) cs

unfoldable pub ids_of : List Piece → List Text
unfolding normalize_package
ids_of [] = []
ids_of (plain c ∷ ps) = ids_of ps
ids_of (id_piece s ∷ ps) = normalize_package s ∷ ids_of ps

-- The packages that a type argument names, each normalized.
unfoldable pub referenced : Text → List Text
unfolding pieces ids_of
referenced type = ids_of (pieces outside type)

unfoldable pub written : List Piece → Text
unfolding normalize_package
written [] = []
written (plain c ∷ ps) = c ∷ written ps
written (id_piece s ∷ ps) = codes "0x" ++ (normalize_package s ++ written ps)

-- `normalizeType`
unfoldable pub normalize_type : Text → Text
unfolding pieces written
normalize_type type = written (pieces outside type)

-- `startsWith(p)`, with what follows.
unfoldable pub after_prefix : Text → Text → Option Text
after_prefix [] s = some s
after_prefix (a ∷ p) [] = none
after_prefix (a ∷ p) (b ∷ s) = if a == b then after_prefix p s else none

abbrev and_before : ℕ → Option Text → Option Text
and_before c none = none
and_before c (some s) = some (c ∷ s)

-- `endsWith(c)`, with what stands before.
unfoldable pub before_last : ℕ → Text → Option Text
before_last c [] = none
before_last c (a ∷ []) = if a == c then some [] else none
before_last c (a ∷ b ∷ s) = and_before a (before_last c (b ∷ s))

-- `split(separator)` for a separator of one or two codes, as the parts of the text.
abbrev and_code : ℕ → List Text → List Text
and_code c [] = (c ∷ []) ∷ []
and_code c (part ∷ parts) = (c ∷ part) ∷ parts

unfoldable pub split_at : ℕ → Text → List Text
split_at c [] = [] ∷ []
split_at c (a ∷ s) = if a == c then [] ∷ split_at c s else and_code a (split_at c s)

unfoldable pub split_at_pair : ℕ → Text → List Text
split_at_pair c [] = [] ∷ []
split_at_pair c (a ∷ []) = (a ∷ []) ∷ []
split_at_pair c (a ∷ b ∷ s) =
    if a == c && b == c then [] ∷ split_at_pair c s else and_code a (split_at_pair c (b ∷ s))

normalize_type_example : normalize_type (codes "0x2::coin::Coin<0xAb::usd::USD>") ≡ (
    codes "0x"
    ++ (replicate 63 b'0'
        ++ (codes "2::coin::Coin<0x" ++ (replicate 62 b'0' ++ codes "ab::usd::USD>"))))
unfolding normalize_type
normalize_type_example = refl
