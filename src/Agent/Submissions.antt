-- ===== src/Agent/Submissions.antt =====
-- src/agent/submissions.ts: what was submitted, and what is not settled yet.
pub mod Unsettled
use waterx_agent.Prelude.{
  ℕ, String, Bool, true, false, not, List, [], ◌∷◌, ◌++◌, Option, none, some, Number, filter, find,
  str_eq, if◌then◌else◌, is_some,
}

pub record Submission : Type 0 where
  pub id : String
  pub at : ℕ
  pub action : String
  pub network : String
  pub account_id : Option String
  pub digest : String
  pub approval_id : Option String
  pub ticker : Option String
  pub position_id : Option ℕ
  pub order_id : Option ℕ
  pub collateral : Option Number

-- `boolean | "aborted" | "unknown"`
pub data Landed : Type 0 where
  executed aborted never_landed unknown : Landed

pub record SubmissionSettlement : Type 0 where
  pub landed : Landed
  pub reason : Option String
  pub order_ids : Option (List ℕ)
  pub status : Option String

pub data SubmissionEntry : Type 0 where
  submitted : Submission → SubmissionEntry
  settled : SubmissionSettlement → SubmissionEntry

pub record SubmissionRecord : Type 0 where
  pub id : String
  pub at : ℕ
  pub entry : SubmissionEntry

-- `settled` is whether there is a settlement.
pub record SubmissionStatus : Type 0 where
  pub submission : Submission
  pub settlement : Option (ℕ × SubmissionSettlement)

abbrev pub first_submission : Bool → SubmissionEntry → Option Submission → Option Submission
first_submission true (submitted s) rest = some s
first_submission true (settled s) rest = rest
first_submission false entry rest = rest

-- The first `submitted` record of the id.
unfoldable pub submission_of : String → List SubmissionRecord → Option Submission
submission_of id [] = none
submission_of id (r ∷ records) =
    first_submission (str_eq r.id id) r.entry (submission_of id records)

abbrev pub first_settlement :
    Bool
    → ℕ
    → SubmissionEntry
    → Option (ℕ × SubmissionSettlement)
    → Option (ℕ × SubmissionSettlement)
first_settlement true at (settled s) rest = some (at, s)
first_settlement true at (submitted s) rest = rest
first_settlement false at entry rest = rest

-- The first `settled` record of the id.
unfoldable pub settlement_for : String → List SubmissionRecord → Option (ℕ × SubmissionSettlement)
settlement_for id [] = none
settlement_for id (r ∷ records) =
    first_settlement (str_eq r.id id) r.at r.entry (settlement_for id records)

abbrev pub with_settlement :
    Option Submission → Option (ℕ × SubmissionSettlement) → Option SubmissionStatus
with_settlement none found = none
with_settlement (some s) found = some (record { submission = s; settlement = found })

-- `statusOf`
unfoldable pub status_for : String → List SubmissionRecord → Option SubmissionStatus
unfolding submission_of settlement_for
status_for id records = with_settlement (submission_of id records) (settlement_for id records)

abbrev pub listed_before :
    SubmissionEntry → Option SubmissionStatus → List SubmissionStatus → List SubmissionStatus
listed_before (submitted s) (some status) newest = status ∷ newest
listed_before (submitted s) none newest = newest
listed_before (settled s) status newest = newest

-- The loop of `list`, over the records that are left; the result is reversed, the newest first.
unfoldable pub list_from :
    (all left : List SubmissionRecord) → List SubmissionStatus → List SubmissionStatus
list_from all [] newest = newest
list_from all (r ∷ left) newest =
    list_from all left (listed_before r.entry (status_for r.id all) newest)

-- `list`
unfoldable pub list_all : List SubmissionRecord → List SubmissionStatus
unfolding list_from
list_all records = list_from records records []

abbrev pub is_unknown : Landed → Bool
is_unknown unknown = true
is_unknown _ = false

-- `!s.settled || s.settlement?.landed === "unknown"`
abbrev pub is_open_status : SubmissionStatus → Bool
is_open_status s = elim s.settlement [ none ↦ true | some (at, t) ↦ is_unknown t.landed ]

-- `unsettled`
unfoldable pub unsettled : List SubmissionRecord → List SubmissionStatus
unfolding list_all
unsettled records = filter is_open_status (list_all records)

-- `recordSubmission`, for the submission with the id that is drawn.
unfoldable pub record_submission : Submission → List SubmissionRecord → List SubmissionRecord
record_submission s records = records ++ (record { id = s.id; at = s.at; entry = submitted s } ∷ [])

-- `settle`
unfoldable pub settle :
    String → SubmissionSettlement → ℕ → List SubmissionRecord → List SubmissionRecord
settle id t now records = records ++ (record { id = id; at = now; entry = settled t } ∷ [])
