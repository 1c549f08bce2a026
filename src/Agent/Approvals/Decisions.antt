-- ===== src/Agent/Approvals/Decisions.antt =====
-- src/agent/approvals.ts: what the records decide, and what no later record undoes.
use waterx_agent.Prelude.{
  ℕ, ◌≤◌, String, List, [], ◌∷◌, ◌++◌, Option, none, some, str_eq, ◌≡◌, refl, sym, ap, ◌∙◌, inl,
  inr, arith, Bool-cases, Option-cases, subst,
}
use waterx_agent.Agent.Approvals.{
  ApprovalRequest, ApprovalRecord, Entry, ApprovalStatus, is_approved, is_consumed, history_of,
  request_of, approval_of, consumed_of, rejected_of, first_or, first_of, status_by, with_request,
  status_of,
}

pub history_of-append :
    (id : String) (rs ss : List ApprovalRecord)
    → history_of id (rs ++ ss) ≡ history_of id rs ++ history_of id ss
history_of-append id [] ss = refl
history_of-append id (r ∷ rs) ss = elim (Bool-cases (str_eq r.id id)) [
  | inl e ↦ rw e (ap (λ xs. r ∷ xs) (history_of-append id rs ss))
  | inr e ↦ rw e (history_of-append id rs ss)
]

-- The first record of a type stays the first.
pub first_of-append :
    {B : Type 0} (f : Entry → Option B) (rs ss : List ApprovalRecord) (b : ℕ × B)
    → first_of f rs ≡ some b
    → first_of f (rs ++ ss) ≡ some b
unfolding first_of
first_of-append f [] ss b h = cc
first_of-append f (r ∷ rs) ss b h = elim (Option-cases (f r.entry)) [
  | inl e ↦
      rw e (first_of-append f rs ss b (subst (λ o. first_or o r.at (first_of f rs) ≡ some b) e h))
  | inr (v, e) ↦ rw e (subst (λ o. first_or o r.at (first_of f rs) ≡ some b) e h)
]

first_or-some :
    {B : Type 0} (v : B) (at : ℕ) (rest : Option (ℕ × B)) → first_or (some v) at rest ≡ none → ⊥
first_or-some v at rest h = cc h

-- A type with no record before has the next one first.
pub first_of-next :
    {B : Type 0} (f : Entry → Option B) (rs : List ApprovalRecord) (r : ApprovalRecord) (b : B)
    → first_of f rs ≡ none
    → f r.entry ≡ some b
    → first_of f (rs ++ (r ∷ [])) ≡ some (r.at, b)
unfolding first_of
first_of-next f [] r b h e = rw e refl
first_of-next f (s ∷ rs) r b h e = elim (Option-cases (f s.entry)) [
  | inl n ↦
      rw n (first_of-next f rs r b (subst (λ o. first_or o s.at (first_of f rs) ≡ none) n h) e)
  | inr (v, n) ↦ absurd (
      first_or-some v s.at (first_of f rs)
        (subst (λ o. first_or o s.at (first_of f rs) ≡ none) n h))
]

-- A record of another type changes nothing.
pub first_of-other :
    {B : Type 0} (f : Entry → Option B) (rs : List ApprovalRecord) (r : ApprovalRecord)
    → first_of f rs ≡ none
    → f r.entry ≡ none
    → first_of f (rs ++ (r ∷ [])) ≡ none
unfolding first_of
first_of-other f [] r h e = rw e refl
first_of-other f (s ∷ rs) r h e = elim (Option-cases (f s.entry)) [
  | inl n ↦ rw n (first_of-other f rs r (subst (λ o. first_or o s.at (first_of f rs) ≡ none) n h) e)
  | inr (v, n) ↦ absurd (
      first_or-some v s.at (first_of f rs)
        (subst (λ o. first_or o s.at (first_of f rs) ≡ none) n h))
]

status_by-approved :
    (request : ApprovalRequest) (a : Option (ℕ × Option String))
    (c : Option (ℕ × (Option String × Option String))) (d : Option (ℕ × Option String)) (now : ℕ)
    → (status_by request a c d now).state ≡ is_approved
    → (now ≤ request.expires_at)
      × ((c ≡ none) × (d ≡ none) × ((by : ℕ × Option String) × (a ≡ some by)))
unfolding status_by
status_by-approved request a (some c) d now h = cc
status_by-approved request a none (some d) now h = cc
status_by-approved request (some a) none none now h = (ground (arith, h), (refl, refl, (a, refl)))
status_by-approved request none none none now h = ground (arith, h)

pub status_by-request :
    (request : ApprovalRequest) (a : Option (ℕ × Option String))
    (c : Option (ℕ × (Option String × Option String))) (d : Option (ℕ × Option String)) (now : ℕ)
    → (status_by request a c d now).request ≡ request
unfolding status_by
status_by-request request a (some c) d now = refl
status_by-request request a none (some d) now = refl
status_by-request request (some a) none none now = ground arith
status_by-request request none none none now = refl

status_by-consumed :
    (request : ApprovalRequest) (a : Option (ℕ × Option String))
    (c : Option (ℕ × (Option String × Option String))) (d : Option (ℕ × Option String)) (now : ℕ)
    → (status_by request a c d now).state ≡ is_consumed
    → (v : ℕ × (Option String × Option String)) × (c ≡ some v)
      × ((status_by request a c d now).digest ≡ v.1.0)
      × ((status_by request a c d now).submission_id ≡ v.1.1)
unfolding status_by
status_by-consumed request a (some v) d now h = (v, refl, refl, refl)
status_by-consumed request a none (some d) now h = cc
status_by-consumed request (some a) none none now h = ground (arith, h)
status_by-consumed request none none none now h = ground (arith, h)

-- The request and the records that a status was folded from.
pub record Folded (id : String) (now : ℕ) (records : List ApprovalRecord) (status : ApprovalStatus)
    : Type 0 where
  pub asked_at : ℕ
  pub request : ApprovalRequest
  pub found : first_of request_of (history_of id records) ≡ some (asked_at, request)
  pub folded :
      status
      ≡ status_by request
          (first_of approval_of (history_of id records))
          (first_of consumed_of (history_of id records))
          (first_of rejected_of (history_of id records))
          now

pub status_of-Folded :
    (id : String) (now : ℕ) (records : List ApprovalRecord) (status : ApprovalStatus)
    → status_of id now records ≡ some status
    → Folded id now records status
unfolding status_of
status_of-Folded id now records status h =
    by_request (first_of request_of (history_of id records)) refl h
  where
    by_request :
        (o : Option (ℕ × ApprovalRequest))
        → first_of request_of (history_of id records) ≡ o
        → with_request (history_of id records) now o ≡ some status
        → Folded id now records status
    by_request none e k = cc
    by_request (some (at, request)) e k = record {
      asked_at = at;
      request = request;
      found = e;
      folded = cc k;
    }

-- An approval can be spent only up to the instant at which its request expires, and only if the
-- records hold an approval and neither a consumption nor a rejection.
pub approved_can_be_spent :
    (id : String) (now : ℕ) (records : List ApprovalRecord) (status : ApprovalStatus)
    → status_of id now records ≡ some status
    → status.state ≡ is_approved
    → (now ≤ status.request.expires_at)
      × ((first_of consumed_of (history_of id records) ≡ none)
          × (first_of rejected_of (history_of id records) ≡ none)
          × ((by : ℕ × Option String) × (first_of approval_of (history_of id records) ≡ some by)))
approved_can_be_spent id now records status h s =
    let f = status_of-Folded id now records status h in
    let a = first_of approval_of (history_of id records) in
    let c = first_of consumed_of (history_of id records) in
    let d = first_of rejected_of (history_of id records) in
    let (in_time, others) =
      status_by-approved f.request a c d now (subst (λ t. t.state ≡ is_approved) f.folded s) in
    let same : status.request ≡ f.request =
      ap (λ t. t.request) f.folded ∙ status_by-request f.request a c d now in
    (subst (λ r. now ≤ r.expires_at) (sym same) in_time, others)

consumed_state :
    (request : ApprovalRequest) (a : Option (ℕ × Option String))
    (v : ℕ × (Option String × Option String)) (d : Option (ℕ × Option String)) (now : ℕ)
    → (status_by request a (some v) d now).state ≡ is_consumed
unfolding status_by
consumed_state request a v d now = refl

consumed_detail :
    (request : ApprovalRequest) (a : Option (ℕ × Option String))
    (v : ℕ × (Option String × Option String)) (d : Option (ℕ × Option String)) (now : ℕ)
    → ((status_by request a (some v) d now).digest ≡ v.1.0)
      × ((status_by request a (some v) d now).submission_id ≡ v.1.1)
unfolding status_by
consumed_detail request a v d now = (refl, refl)

-- Once an approval was consumed it stays consumed, on the same transaction, whatever records
-- follow and whatever time passes.
pub consumed_stays :
    (id : String) (now later : ℕ) (records more : List ApprovalRecord) (status : ApprovalStatus)
    → status_of id now records ≡ some status
    → status.state ≡ is_consumed
    → (next : ApprovalStatus) × (status_of id later (records ++ more) ≡ some next)
      × (next.state ≡ is_consumed)
      × (next.digest ≡ status.digest)
      × (next.submission_id ≡ status.submission_id)
unfolding status_of
consumed_stays id now later records more status h s =
    let f = status_of-Folded id now records status h in
    let old = history_of id records in
    let new = history_of id more in
    let (v, is_v, digest, submission) =
      status_by-consumed f.request (first_of approval_of old) (first_of consumed_of old)
        (first_of rejected_of old) now (subst (λ t. t.state ≡ is_consumed) f.folded s) in
    let a = first_of approval_of (old ++ new) in
    let d = first_of rejected_of (old ++ new) in
    (
      status_by f.request a (some v) d later,
      rw (history_of-append id records more) (
          rw
            (
              first_of-append request_of old new (f.asked_at, f.request) f.found,
              first_of-append consumed_of old new v is_v,
            )
            refl),
      consumed_state f.request a v d later,
      (consumed_detail f.request a v d later).0 ∙ sym digest ∙ sym (ap (λ t. t.digest) f.folded),
      (consumed_detail f.request a v d later).1
          ∙ sym submission
          ∙ sym (ap (λ t. t.submission_id) f.folded),
    )
