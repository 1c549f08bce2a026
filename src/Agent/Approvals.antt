-- ===== src/Agent/Approvals.antt =====
-- src/agent/approvals.ts: a person's approval of one plan, as a fold of the records about it.
pub mod Decisions
pub mod Approving
use waterx_agent.Prelude.{
  ℕ, ◌+◌, ◌*◌, String, Bool, true, false, not, List, [], ◌∷◌, ◌++◌, Option, none, some, filter, ltb,
  str_eq, if◌then◌else◌, map,
}
use waterx_agent.Policy.Intent.{WriteIntent, Fingerprint, fingerprint_intent}
use waterx_agent.Agent.Journal.{File, read, append}

-- Of the plan only its intent is kept; the preview is text.
pub record ApprovalRequest : Type 0 where
  pub id : String
  pub created_at : ℕ
  pub expires_at : ℕ
  pub action : String
  pub network : String
  pub account_id : Option String
  pub fingerprint : Fingerprint
  pub intent : WriteIntent

-- The types of record, with the fields that have the type wanted of them.
pub data Entry : Type 0 where
  requested : ApprovalRequest → Entry
  approval : (by : Option String) → Entry
  consumed : (digest submission_id : Option String) → Entry
  rejected : (reason : Option String) → Entry
  of_other_type : Entry

pub record ApprovalRecord : Type 0 where
  pub id : String
  pub at : ℕ
  pub entry : Entry

pub data ApprovalState : Type 0 where
  is_pending is_approved is_consumed is_rejected is_expired : ApprovalState

pub record ApprovalStatus : Type 0 where
  pub request : ApprovalRequest
  pub state : ApprovalState
  pub approved_at : Option ℕ
  pub approved_by : Option String
  pub consumed_at : Option ℕ
  pub digest : Option String
  pub submission_id : Option String
  pub rejected_at : Option ℕ
  pub reason : Option String

-- `historyOf`
abbrev pub history_of : String → List ApprovalRecord → List ApprovalRecord
history_of id records = filter (λ r. str_eq r.id id) records

abbrev pub request_of : Entry → Option ApprovalRequest
request_of (requested request) = some request
request_of _ = none

abbrev pub approval_of : Entry → Option (Option String)
approval_of (approval by) = some by
approval_of _ = none

abbrev pub consumed_of : Entry → Option (Option String × Option String)
consumed_of (consumed digest submission_id) = some (digest, submission_id)
consumed_of _ = none

abbrev pub rejected_of : Entry → Option (Option String)
rejected_of (rejected reason) = some reason
rejected_of _ = none

abbrev pub first_or : {B : Type 0} → Option B → ℕ → Option (ℕ × B) → Option (ℕ × B)
first_or none at rest = rest
first_or (some b) at rest = some (at, b)

-- `records.find((r) => r.type === …)`: the first record of a type, with its instant.
unfoldable pub first_of : {B : Type 0} → (Entry → Option B) → List ApprovalRecord → Option (ℕ × B)
first_of f [] = none
first_of f (r ∷ records) = first_or (f r.entry) r.at (first_of f records)

abbrev pub at_of : {B : Type 0} → Option (ℕ × B) → Option ℕ
at_of none = none
at_of (some (at, b)) = some at

abbrev pub by_of : Option (ℕ × Option String) → Option String
by_of none = none
by_of (some (at, by)) = by

-- What no state but the last two sets.
abbrev pub plain : ApprovalRequest → ApprovalState → Option (ℕ × Option String) → ApprovalStatus
plain request state approved = record {
  request = request;
  state = state;
  approved_at = at_of approved;
  approved_by = by_of approved;
  consumed_at = none;
  digest = none;
  submission_id = none;
  rejected_at = none;
  reason = none;
}

-- The part of `statusOf` behind the records, for the request that was found.
unfoldable pub status_by :
    ApprovalRequest
    → Option (ℕ × Option String)
    → Option (ℕ × (Option String × Option String))
    → Option (ℕ × Option String)
    → ℕ
    → ApprovalStatus
status_by request approved (some (at, detail)) declined now =
    record (plain request is_consumed approved) {
      consumed_at = some at;
      digest = detail.0;
      submission_id = detail.1;
    }
status_by request approved none (some (at, reason)) now =
    record (plain request is_rejected approved) { rejected_at = some at; reason = reason }
status_by request (some approved) none none now =
    if ltb request.expires_at now
    then plain request is_expired (some approved)
    else plain request is_approved (some approved)
status_by request none none none now =
    plain request (if ltb request.expires_at now then is_expired else is_pending) none

abbrev pub with_request :
    List ApprovalRecord → ℕ → Option (ℕ × ApprovalRequest) → Option ApprovalStatus
with_request records now none = none
with_request records now (some (at, request)) = some (
    status_by request (first_of approval_of records) (first_of consumed_of records)
      (first_of rejected_of records) now)

-- `statusOf`, for the records of the file.
unfoldable pub status_of : String → ℕ → List ApprovalRecord → Option ApprovalStatus
unfolding first_of status_by
status_of id now records =
    with_request (history_of id records) now (first_of request_of (history_of id records))

-- What a request holds in common with what the caller gives.
pub record RequestInput : Type 0 where
  pub action : String
  pub network : String
  pub account_id : Option String
  pub intent : WriteIntent

-- `requestApproval`: the request that is recorded, for the id that is drawn.
abbrev pub new_request : String → ℕ → (ttl_seconds : ℕ) → RequestInput → ApprovalRequest
new_request id now ttl_seconds input = record {
  id = id;
  created_at = now;
  expires_at = now + ttl_seconds * 1000;
  action = input.action;
  network = input.network;
  account_id = input.account_id;
  fingerprint = fingerprint_intent input.intent;
  intent = input.intent;
}

abbrev pub is_waiting : ApprovalState → Bool
is_waiting is_pending = true
is_waiting _ = false

-- Whether `approve` refuses a request that stands so.
abbrev pub refuses_approval : Option ApprovalStatus → Bool
refuses_approval none = false
refuses_approval (some status) = not (is_waiting status.state)

-- `approve`, on the records of a file that is read and written: the new records, unless it throws.
unfoldable pub approve : String → String → ℕ → List ApprovalRecord → Option (List ApprovalRecord)
unfolding status_of
approve id by now records =
    if refuses_approval (status_of id now records)
    then none
    else some (records ++ (record { id = id; at = now; entry = approval (some by) } ∷ []))

-- `reject`
unfoldable pub reject : String → String → ℕ → List ApprovalRecord → List ApprovalRecord
reject id reason now records =
    records ++ (record { id = id; at = now; entry = rejected (some reason) } ∷ [])

-- `markConsumed`
unfoldable pub mark_consumed :
    String → Option String → Option String → ℕ → List ApprovalRecord → List ApprovalRecord
mark_consumed id digest submission_id now records =
    records ++ (record { id = id; at = now; entry = consumed digest submission_id } ∷ [])
