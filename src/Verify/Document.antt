-- ===== src/Verify/Document.antt =====
-- src/chain/deployment.ts: the walks of a config document, `collectObjects` and `collectCoinTypes`.
use waterx_agent.Prelude.{
  ℕ, zero, suc, String, Bool, true, false, ◌&&◌, ◌||◌, List, [], ◌∷◌, ◌++◌, Option, none, some, leb,
  if◌then◌else◌, length, text_join, str_eq, ◌==◌,
}
use waterx_agent.Verify.Text.{Text, codes, is_hex, normalize_package, after_prefix, split_at_pair}

-- A JSON value, as far as the walks look into it. An array is an object on its indices.
mutual
  pub data Node : Type 0 where
    leaf : String → Node
    object : Fields → Node
    other_value : Node

  pub data Fields : Type 0 where
    no_fields : Fields
    field : String → Node → Fields → Fields

abbrev pub all_hex : Text → Bool
all_hex [] = true
all_hex (c ∷ s) = is_hex c && all_hex s

abbrev pub is_hex_between : (least most : ℕ) → Option Text → Bool
is_hex_between least most none = false
is_hex_between least most (some s) = all_hex s && (leb least (length s) && leb (length s) most)

-- `/^0x[0-9a-fA-F]{4,}$/`
unfoldable pub is_object_id : Text → Bool
unfolding after_prefix
is_object_id s = is_hex_between 4 (length s) (after_prefix (codes "0x") s)

abbrev pub is_id_key : String → Bool
is_id_key key = str_eq key "published_at" || str_eq key "original_id"

abbrev pub object_entry : String → String → List (String × Text)
object_entry role value =
    if is_object_id (codes value) then (role, normalize_package (codes value)) ∷ [] else []

-- `collectObjects`, as the roles and ids in the order in which they are added. The first argument is
-- how much deeper the walk may go; a text that is no id is walked into, and is no object.
unfoldable mutual
  unfolding is_object_id normalize_package

  pub collect_objects : ℕ → String → Node → List (String × Text)
  collect_objects depth prefix (leaf value) = []
  collect_objects depth prefix other_value = []
  collect_objects depth prefix (object inner) = collect_fields depth prefix inner

  pub collect_fields : ℕ → String → Fields → List (String × Text)
  collect_fields depth prefix no_fields = []
  collect_fields depth prefix (field key (leaf value) rest) =
      (if is_id_key key then [] else object_entry (text_join (prefix ∷ key ∷ [])) value)
      ++ collect_fields depth prefix rest
  collect_fields depth prefix (field key other_value rest) = collect_fields depth prefix rest
  collect_fields zero prefix (field key (object inner) rest) = collect_fields zero prefix rest
  collect_fields (suc depth) prefix (field key (object inner) rest) =
      (if is_id_key key
        then []
        else collect_fields depth (text_join (prefix ∷ key ∷ "." ∷ [])) inner)
      ++ collect_fields (suc depth) prefix rest

-- `STRUCT_TAG`, with the address in it.
abbrev pub is_letter : ℕ → Bool
is_letter c = (leb b'a' c && leb c b'z') || (leb b'A' c && leb c b'Z') || c == b'_'

abbrev pub all_word : Text → Bool
all_word [] = true
all_word (c ∷ s) = (is_letter c || (leb b'0' c && leb c b'9')) && all_word s

abbrev pub is_identifier : Text → Bool
is_identifier [] = false
is_identifier (c ∷ s) = is_letter c && all_word s

abbrev pub tag_address : Option Text → Bool → List Text
tag_address none is_tag = []
tag_address (some address) is_tag =
    if is_tag && is_hex_between 1 64 (some address) then normalize_package address ∷ [] else []

unfoldable pub struct_tag : List Text → List Text
unfolding after_prefix normalize_package
struct_tag (address ∷ m ∷ name ∷ []) =
    tag_address (after_prefix (codes "0x") address) (is_identifier m && is_identifier name)
struct_tag _ = []

abbrev pub is_coin_key : String → Bool
is_coin_key key = str_eq key "type" || str_eq key "coin_type"

-- `collectCoinTypes`
unfoldable mutual
  unfolding struct_tag split_at_pair

  pub collect_coin_types : ℕ → Node → List Text
  collect_coin_types depth (leaf value) = []
  collect_coin_types depth other_value = []
  collect_coin_types depth (object inner) = collect_coins depth inner

  pub collect_coins : ℕ → Fields → List Text
  collect_coins depth no_fields = []
  collect_coins depth (field key (leaf value) rest) =
      (if is_coin_key key then struct_tag (split_at_pair b':' (codes value)) else [])
      ++ collect_coins depth rest
  collect_coins depth (field key other_value rest) = collect_coins depth rest
  collect_coins zero (field key (object inner) rest) = collect_coins zero rest
  collect_coins (suc depth) (field key (object inner) rest) =
      collect_coins depth inner ++ collect_coins (suc depth) rest
