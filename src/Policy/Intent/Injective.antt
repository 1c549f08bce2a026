-- ===== src/Policy/Intent/Injective.antt =====
-- `fingerprintIntent` (src/policy.ts) tells intents apart: what is in the fingerprint, field by field.
use waterx_agent.Prelude.{
  ℕ, zero, suc, ◌≡◌, refl, ◌≢◌, String, Bool, true, false, List, [], ◌∷◌, Option, none, some, arith,
  includes, str_eq_iff, Number, is_finite, ap, sym,
}
use waterx_agent.Policy.Intent.{
  WriteIntent, Json, Fingerprint, defined, field_names, field_values, fingerprint_intent, map_json,
  text, num, bool, leg_list, side_text, json_permissions, Side, DelegatePermissions, AuthorizedLeg,
}

-- Every key of the list stands in it once.
abbrev Distinct : List String → Type 0
Distinct [] = Unit
Distinct (k ∷ ks) = (includes ks k ≡ false) × Distinct ks

abbrev AsLong : List String → List (Option Json) → Type 0
AsLong [] [] = Unit
AsLong (k ∷ ks) (v ∷ vs) = AsLong ks vs
AsLong _ _ = ⊥

-- The first key of the defined entries is one of the keys.
defined-includes :
    (ks : List String) (vs : List (Option Json)) (k : String) (v : Json) (rest : Fingerprint)
    → defined ks vs ≡ (k, v) ∷ rest
    → includes ks k ≡ true
unfolding defined
defined-includes [] vs k v rest h = cc
defined-includes (j ∷ ks) [] k v rest h = cc
defined-includes (j ∷ ks) (none ∷ vs) k v rest h = ground (arith, defined-includes ks vs k v rest h)
defined-includes (j ∷ ks) (some w ∷ vs) k v rest h = ground (arith, str_eq_iff j k)

defined-injective :
    (ks : List String) (vs ws : List (Option Json))
    → Distinct ks
    → AsLong ks vs
    → AsLong ks ws
    → defined ks vs ≡ defined ks ws
    → vs ≡ ws
unfolding defined
defined-injective [] [] [] d a b h = refl
defined-injective [] [] (w ∷ ws) d a b h = absurd b
defined-injective [] (v ∷ vs) ws d a b h = absurd a
defined-injective (k ∷ ks) [] ws d a b h = absurd a
defined-injective (k ∷ ks) (v ∷ vs) [] d a b h = absurd b
defined-injective (k ∷ ks) (none ∷ vs) (none ∷ ws) d a b h =
    ap (λ r. none ∷ r) (defined-injective ks vs ws d.1 a b h)
defined-injective (k ∷ ks) (some v ∷ vs) (some w ∷ ws) d a b h =
    cc (defined-injective ks vs ws d.1 a b (cc))
defined-injective (k ∷ ks) (none ∷ vs) (some w ∷ ws) d a b h =
    cc (d.0, defined-includes ks vs k w (defined ks ws) h)
defined-injective (k ∷ ks) (some v ∷ vs) (none ∷ ws) d a b h =
    cc (d.0, defined-includes ks ws k v (defined ks vs) (sym h))

field_names-Distinct : Distinct field_names
field_names-Distinct = ground arith

-- Two intents with one fingerprint have one value in every field, as far as JSON tells values apart.
pub fingerprint_intent-fields :
    (i j : WriteIntent)
    → fingerprint_intent i ≡ fingerprint_intent j
    → field_values i ≡ field_values j
unfolding fingerprint_intent
fingerprint_intent-fields i j h =
    defined-injective field_names (field_values i) (field_values j) field_names-Distinct tt tt h

abbrev IsFiniteIn : Option Number → Type 0
IsFiniteIn none = Unit
IsFiniteIn (some n) = is_finite n ≡ true

abbrev FinitePermissions : Option DelegatePermissions → Type 0
FinitePermissions none = Unit
FinitePermissions (some p) =
    (is_finite p.perp ≡ true) × (is_finite p.predict ≡ true) × (is_finite p.staking ≡ true)

-- Every number of the intent is finite: the values for which `JSON.stringify` is one to one.
unfoldable pub IsPrintable : WriteIntent → Type 0
IsPrintable i =
    IsFiniteIn i.collateral
    × IsFiniteIn i.delegate_base_permissions
    × IsFiniteIn i.delegate_expires_at_ms
    × FinitePermissions i.delegate_permissions
    × IsFiniteIn i.leverage
    × IsFiniteIn i.order_id
    × IsFiniteIn i.position_id
    × IsFiniteIn i.request_id
    × IsFiniteIn i.slippage_percent

num-injective :
    (m n : Option Number) → IsFiniteIn m → IsFiniteIn n → map_json num m ≡ map_json num n → m ≡ n
num-injective m n a b h = ground arith

text-injective : (s t : Option String) → map_json text s ≡ map_json text t → s ≡ t
text-injective s t h = ground arith

bool-injective : (a b : Option Bool) → map_json bool a ≡ map_json bool b → a ≡ b
bool-injective a b h = ground arith

legs-injective :
    (a b : Option (List AuthorizedLeg)) → map_json leg_list a ≡ map_json leg_list b → a ≡ b
legs-injective a b h = ground arith

abbrev text_of : Json → String
text_of (text s) = s
text_of _ = ""

text-distinct : text "long" ≢ text "short"
text-distinct h = cc ((str_eq_iff "long" "short").1 (ap text_of h))

side-injective : (a b : Option Side) → map_json side_text a ≡ map_json side_text b → a ≡ b
side-injective a b h = ground (arith, text-distinct)

permissions-injective :
    (p q : Option DelegatePermissions)
    → FinitePermissions p
    → FinitePermissions q
    → map_json json_permissions p ≡ map_json json_permissions q
    → p ≡ q
permissions-injective p q a b h = ground arith

field_text : (s t : String) → ◌≡◌ {A = Option Json} (some (text s)) (some (text t)) → s ≡ t
field_text s t h = cc h

field_bool : (a b : Bool) → ◌≡◌ {A = Option Json} (some (bool a)) (some (bool b)) → a ≡ b
field_bool a b h = cc h

abbrev nth : ℕ → List (Option Json) → Option Json
nth n [] = none
nth zero (v ∷ vs) = v
nth (suc n) (v ∷ vs) = nth n vs

-- Two intents whose numbers are all finite and whose fingerprints are equal are one intent.
pub fingerprint_intent-injective :
    (i j : WriteIntent)
    → IsPrintable i
    → IsPrintable j
    → fingerprint_intent i ≡ fingerprint_intent j
    → i ≡ j
unfolding field_values IsPrintable
fingerprint_intent-injective i j a b h =
    let e = fingerprint_intent-fields i j h in
    cc (
      text-injective _ _ (ap (nth 0) e),
      field_text _ _ (ap (nth 1) e),
      field_text _ _ (ap (nth 2) e),
      text-injective _ _ (ap (nth 3) e),
      text-injective _ _ (ap (nth 4) e),
      text-injective _ _ (ap (nth 5) e),
      num-injective _ _ a.0 b.0 (ap (nth 6) e),
      text-injective _ _ (ap (nth 7) e),
      text-injective _ _ (ap (nth 8) e),
      num-injective _ _ a.1 b.1 (ap (nth 9) e),
      num-injective _ _ a.2 b.2 (ap (nth 10) e),
      permissions-injective _ _ a.3 b.3 (ap (nth 11) e),
      field_bool _ _ (ap (nth 12) e),
      bool-injective _ _ (ap (nth 13) e),
      legs-injective _ _ (ap (nth 14) e),
      num-injective _ _ a.4 b.4 (ap (nth 15) e),
      bool-injective _ _ (ap (nth 16) e),
      num-injective _ _ a.5 b.5 (ap (nth 17) e),
      num-injective _ _ a.6 b.6 (ap (nth 18) e),
      text-injective _ _ (ap (nth 19) e),
      bool-injective _ _ (ap (nth 20) e),
      num-injective _ _ a.7 b.7 (ap (nth 21) e),
      side-injective _ _ (ap (nth 22) e),
      text-injective _ _ (ap (nth 23) e),
      num-injective _ _ a.8 b.8 (ap (nth 24) e),
      text-injective _ _ (ap (nth 25) e),
      text-injective _ _ (ap (nth 26) e),
    )
