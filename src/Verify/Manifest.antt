-- ===== src/Verify/Manifest.antt =====
-- src/chain/deployment.ts: the deployment that a config document describes, how long a copy of it may
-- be used, and whether the recorded layouts still describe it. The document comes from the network.
pub mod Fresh
use waterx_agent.Prelude.{
  rounded, ℕ, zero, suc, ◌+◌, ◌-◌, ◌*◌, ◌/◌, String, Bool, true, false, not, ◌&&◌, ◌||◌, List, [],
  ◌∷◌, ◌++◌, map, Option, none, some, ltb, leb, if◌then◌else◌, length, includes, Number, finite,
  pos, text_join, any, str_eq, ◌==◌,
}
use waterx_agent.Verify.Text.{
  Text, codes, is_hex, eq_text, normalize_package, after_prefix, split_at_pair,
}
use waterx_agent.Verify.Encoding.{lookup}
use waterx_agent.Verify.Deployment.{Deployment}
use waterx_agent.Verify.Document.{
  Node, Fields, all_hex, is_hex_between, is_object_id, is_id_key, object_entry, collect_objects,
  collect_fields, is_letter, all_word, is_identifier, tag_address, struct_tag, is_coin_key,
  collect_coin_types, collect_coins,
}

pub record PackageEntry : Type 0 where
  pub published_at : Option String
  pub original_id : Option String

pub record DeploymentDocument : Type 0 where
  pub packages : List (String × PackageEntry)
  pub objects : Node
  pub oracle_rules : Node

-- An id that is a text longer than its prefix.
abbrev pub usable_id : Option String → Option Text
usable_id none = none
usable_id (some id) =
    if ltb 2 (length (codes id)) then some (normalize_package (codes id)) else none

abbrev pub to_list : Option Text → List Text
to_list none = []
to_list (some id) = id ∷ []

unfoldable pub published_ids : List (String × PackageEntry) → List Text
unfolding normalize_package
published_ids [] = []
published_ids ((name, entry) ∷ rest) = to_list (usable_id entry.published_at) ++ published_ids rest

unfoldable pub ids_of_entry : PackageEntry → List Text
unfolding normalize_package
ids_of_entry entry = to_list (usable_id entry.published_at) ++ to_list (usable_id entry.original_id)

unfoldable pub all_ids : List (String × PackageEntry) → List Text
unfolding ids_of_entry
all_ids [] = []
all_ids ((name, entry) ∷ rest) = ids_of_entry entry ++ all_ids rest

abbrev pub framework : List Text
framework =
    normalize_package (codes "0x1")
    ∷ normalize_package (codes "0x2")
    ∷ normalize_package (codes "0x3")
    ∷ []

abbrev pub system_objects : List Text
system_objects =
    normalize_package (codes "0x5")
    ∷ normalize_package (codes "0x6")
    ∷ normalize_package (codes "0x8")
    ∷ []

abbrev pub ids_of_found : Option PackageEntry → List Text
ids_of_found none = []
ids_of_found (some entry) = ids_of_entry entry

abbrev pub published_of : Option PackageEntry → Option Text
published_of none = none
published_of (some entry) = usable_id entry.published_at

-- `Map.prototype.get` after the entries were set in order.
unfoldable pub last_set : String → List (String × Text) → Option Text
last_set role [] = none
last_set role ((r, id) ∷ rest) = elim (last_set role rest) [
  | none ↦ if str_eq r role then some id else none
  | some later ↦ some later
]

abbrev pub second : List (String × Text) → List Text
second [] = []
second ((r, id) ∷ rest) = id ∷ second rest

-- Both walks, one after the other.
unfoldable pub collected : DeploymentDocument → List (String × Text)
unfolding collect_objects
collected document =
    collect_objects 6 "objects." document.objects
    ++ collect_objects 6 "oracle_rules." document.oracle_rules

-- `fetchDeployment`, from the document on. The names of packages are the keys of one object, so that
-- each stands once.
unfoldable pub deployment_of : DeploymentDocument → Deployment
unfolding published_ids all_ids ids_of_entry collected collect_coin_types last_set lookup
    normalize_package
deployment_of document = record {
  callable = framework ++ published_ids document.packages;
  typeable = framework ++ (all_ids document.packages ++ collect_coin_types 8 document.objects);
  objects = system_objects ++ second (collected document);
  by_name = λ name. published_of (lookup name document.packages);
  ids_for = λ name. ids_of_found (lookup name document.packages);
  object_for = λ role. last_set role (collected document);
}

-- `assertCorpusDescribes`: the names that moved, are gone, or are new. None is a pass.
abbrev pub is_at : Option Text → String → Bool
is_at none id = false
is_at (some live) id = eq_text live (normalize_package (codes id))

abbrev pub first_names : {A : Type 0} → List (String × A) → List String
first_names [] = []
first_names ((name, a) ∷ rest) = name ∷ first_names rest

unfoldable pub moved_from : Deployment → List (String × String) → List String
unfolding eq_text normalize_package
moved_from d [] = []
moved_from d ((name, id) ∷ rest) =
    if is_at (d.by_name name) id then moved_from d rest else name ∷ moved_from d rest

unfoldable pub newly_published : List String → List (String × String) → List String
newly_published [] corpus = []
newly_published (name ∷ live) corpus =
    if includes (first_names corpus) name
    then newly_published live corpus
    else name ∷ newly_published live corpus

unfoldable pub corpus_describes : Deployment → (live : List String) → List (String × String) → Bool
unfolding moved_from newly_published
corpus_describes d live corpus = elim (moved_from d corpus ++ newly_published live corpus) [
  | [] ↦ true
  | _ ∷ _ ↦ false
]

-- `manifestGraceMs`: the setting is absent, or a number of minutes of `one` units each, and the grace
-- is counted in `one` units for a millisecond. An error is nothing.
unfoldable pub manifest_grace_ms : ℕ → Option Number → Option ℕ
manifest_grace_ms one none = some 0
manifest_grace_ms one (some (finite (pos n))) =
    some (rounded ((if ltb (1440 * one) n then 1440 * one else n) * 60_000) 1)
manifest_grace_ms one (some _) = none

abbrev pub manifest_ttl_ms : ℕ
manifest_ttl_ms = 300_000

-- What the cache holds for one document.
pub record Cached : Type 0 where
  pub deployment : Deployment
  pub fetched_at : ℕ

-- A load began at `now`, and its request, if it made one, ended at `ended`, with a deployment or not.
-- `grace` is in whole milliseconds: what is left of one decides nothing between instants.
pub record Load : Type 0 where
  pub now : ℕ
  pub ended : ℕ
  pub answer : Option Deployment
  pub grace : Option ℕ

abbrev pub is_fresh : ℕ → Cached → Bool
is_fresh now held = ltb now (held.fetched_at + manifest_ttl_ms)

-- What a load answers, and the cache after it. An error is nothing.
abbrev pub held_or_refused : Option ℕ → ℕ → Cached → Option Deployment
held_or_refused none ended held = none
held_or_refused (some grace) ended held =
    if ltb (held.fetched_at + grace) ended then none else some held.deployment

unfoldable pub after_request :
    Load → Option Cached → Option Deployment → Option Deployment × Option Cached
after_request l held (some d) = (some d, some (record { deployment = d; fetched_at = l.ended }))
after_request l none none = (none, none)
after_request l (some held) none = (held_or_refused l.grace l.ended held, some held)

-- `loadDeployment`, for loads one after another.
unfoldable pub load_deployment : Load → Option Cached → Option Deployment × Option Cached
unfolding after_request
load_deployment l none = after_request l none l.answer
load_deployment l (some held) =
    if is_fresh l.now held
    then (some held.deployment, some held)
    else after_request l (some held) l.answer
