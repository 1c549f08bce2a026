-- ===== src/Runner/Store/Updates.antt =====
-- `JobStore.get` and `JobStore.update`, and what they do to a list of jobs with distinct ids.
use waterx_agent.Prelude.{
  ℕ, ◌+◌, ◌≤◌, ◌<◌, ◌≡◌, refl, ◌≢◌, Bool, List, [], ◌∷◌, ◌++◌, Option, none, some, arith,
  if◌then◌else◌, ◌==◌, All, filter, any, subst, inl, inr, Bool-cases, true,
}
use waterx_agent.Runner.Types.{Job}

unfoldable pub get : ℕ → List Job → Option Job
get i [] = none
get i (j ∷ js) = if j.id == i then some j else get i js

-- The first job with the id is changed. (The source throws where there is none.)
unfoldable pub update : ℕ → (Job → Job) → List Job → List Job
update i f [] = []
update i f (j ∷ js) = if j.id == i then f j ∷ js else j ∷ update i f js

-- Ids rise along the list, from the bound on.
abbrev pub Rising : ℕ → List Job → Type 0
Rising n [] = Unit {0}
Rising n (j ∷ js) = (n ≤ j.id) × Rising (j.id + 1) js

pub Rising-mono : {m n : ℕ} (js : List Job) → m ≤ n → Rising n js → Rising m js
Rising-mono [] h r = tt
Rising-mono (j ∷ js) h r = (omega arith, r.1)

pub Rising-filter : (p : Job → Bool) (n : ℕ) (js : List Job) → Rising n js → Rising n (filter p js)
Rising-filter p n [] r = tt
Rising-filter p n (j ∷ js) r =
    ground
      (arith, Rising-filter p (j.id + 1) js r.1, Rising-mono {m = n} {n = j.id + 1} (filter p js))

pub Rising-append :
    (n next : ℕ) (js : List Job) (j : Job)
    → Rising n js
    → n ≤ next
    → All (λ k. k.id < next) js
    → next ≤ j.id
    → Rising n (js ++ j ∷ [])
Rising-append n next [] j r h b q = (omega arith, tt)
Rising-append n next (k ∷ js) j r h b q =
    (r.0, Rising-append (k.id + 1) next js j r.1 (omega arith) b.1 q)

pub Rising-update :
    (n i : ℕ) (f : Job → Job) (js : List Job)
    → ((j : Job) → (f j).id ≡ j.id)
    → Rising n js
    → Rising n (update i f js)
unfolding update
Rising-update n i f [] same r = tt
Rising-update n i f (j ∷ js) same r =
    ground (arith, same j, Rising-update n i f js, Rising-update (j.id + 1) i f js same r.1)

pub get-id : (i : ℕ) (js : List Job) (j : Job) → get i js ≡ some j → j.id ≡ i
unfolding get
get-id i [] j h = ground arith
get-id i (k ∷ js) j h = ground (arith, get-id i js j)

pub get_below : (i n : ℕ) (js : List Job) → Rising n js → i < n → get i js ≡ none
unfolding get
get_below i n [] r h = refl
get_below i n (j ∷ js) r h = ground (arith, get_below i (j.id + 1) js r.1)

-- Reading back what was written.
pub get-update :
    (i k : ℕ) (f : Job → Job) (js : List Job) (j : Job)
    → ((j : Job) → (f j).id ≡ j.id)
    → get i js ≡ some j
    → get k (update i f js) ≡ (if i == k then some (f j) else get k js)
unfolding get update
get-update i k f [] j same h = ground arith
get-update i k f (x ∷ js) j same h = ground (arith, same x, same j, get-update i k f js j same)

pub All-get {ℓ} :
    (P : Job → Type ℓ) (i : ℕ) (js : List Job) (j : Job) → All P js → get i js ≡ some j → P j
unfolding get
All-get P i [] j a h = ground arith
All-get P i (x ∷ js) j a h = ground (arith, All-get P i js j a.1)

All-above {ℓ κ} :
    (P : Job → Type ℓ) (Q : Job → Type κ) (n i : ℕ) (js : List Job)
    → Rising n js
    → i < n
    → All P js
    → ((x : Job) → P x → x.id ≢ i → Q x)
    → All Q js
All-above P Q n i [] r h a rest = tt
All-above P Q n i (x ∷ js) r h a rest =
    (rest x a.0 (omega arith), All-above P Q (x.id + 1) i js r.1 (omega arith) a.1 rest)

-- A property of every job survives the change of one.
pub All-update {ℓ κ} :
    (P : Job → Type ℓ) (Q : Job → Type κ) (n i : ℕ) (f : Job → Job) (js : List Job) (j : Job)
    → Rising n js
    → get i js ≡ some j
    → All P js
    → Q (f j)
    → ((x : Job) → P x → x.id ≢ i → Q x)
    → All Q (update i f js)
unfolding get update
All-update P Q n i f [] j r h a q rest = ground arith
All-update P Q n i f (x ∷ js) j r h a q rest = elim (Bool-cases (x.id == i)) [
  | inl hit ↦ rw hit (
    subst (λ y. Q (f y)) (ground arith) q,
    All-above P Q (x.id + 1) i js r.1 (ground arith) a.1 rest,
  )
  | inr miss ↦
      rw miss (
        rest x a.0 (ground arith),
        All-update P Q (x.id + 1) i f js j r.1 (ground arith) a.1 q rest,
      )
]

-- Filtering keeps the entries that it keeps.
pub get-filter :
    (p : Job → Bool) (i n : ℕ) (js : List Job) (j : Job)
    → Rising n js
    → get i js ≡ some j
    → p j ≡ true
    → get i (filter p js) ≡ some j
unfolding get
get-filter p i n [] j r h k = ground arith
get-filter p i n (x ∷ js) j r h k =
    ground (arith, get-filter p i (x.id + 1) js j r.1, get_below i (x.id + 1) (filter p js))

-- And finds nothing that was not there.
pub get-filter-some :
    (p : Job → Bool) (i n : ℕ) (js : List Job) (j : Job)
    → Rising n js
    → get i (filter p js) ≡ some j
    → get i js ≡ some j
unfolding get
get-filter-some p i n [] j r h = h
get-filter-some p i n (x ∷ js) j r h = elim (Bool-cases (p x)) [
  | inl kept ↦ ground (arith, get-filter-some p i (x.id + 1) js j r.1)
  | inr dropped ↦
      let rest = get-filter-some p i (x.id + 1) js j r.1 (ground arith) in
      ground (arith, rest, get-id i js j rest, get_below i (x.id + 1) js r.1)
]

pub get-append :
    (i : ℕ) (js : List Job) (k : Job) (j : Job) → get i js ≡ some j → get i (js ++ k ∷ []) ≡ some j
unfolding get
get-append i [] k j h = ground arith
get-append i (x ∷ js) k j h = ground (arith, get-append i js k j)

-- A new id is found by its own number only.
pub get-append_ne : (i : ℕ) (js : List Job) (k : Job) → k.id ≢ i → get i (js ++ k ∷ []) ≡ get i js
unfolding get
get-append_ne i [] k h = ground arith
get-append_ne i (x ∷ js) k h = ground (arith, get-append_ne i js k h)

pub get-any :
    (p : Job → Bool) (i : ℕ) (js : List Job) (j : Job)
    → get i js ≡ some j
    → p j ≡ true
    → any p js ≡ true
unfolding get
get-any p i [] j h e = ground arith
get-any p i (x ∷ js) j h e = ground (arith, get-any p i js j)
