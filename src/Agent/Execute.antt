-- ===== src/Agent/Execute.antt =====
-- scripts/agent/execute.ts: the command that submits an approved plan. The runs of the command come
-- one after another; two that overlap are not modelled.
pub mod Once
use waterx_agent.Prelude.{
  ℕ, String, Bool, true, false, not, List, [], ◌∷◌, ◌++◌, Option, none, some, str_eq, if◌then◌else◌,
}
use waterx_agent.Agent.Approvals.{
  ApprovalRequest, ApprovalRecord, ApprovalState, ApprovalStatus, is_pending, is_approved,
  is_consumed, is_rejected, is_expired, status_of, mark_consumed,
}

-- The parts of the configuration that a plan is bound to.
pub record Config : Type 0 where
  pub network : String
  pub account_id : Option String

-- The records of the approvals file, and, as no part of the program, the transactions that left,
-- each under the approval that it was spent on.
pub record Desk : Type 0 where
  pub approvals : List ApprovalRecord
  pub sent : List (String × String)

-- How `agent.submit` goes: it ends before a digest is known, or it has signed. Then the two records
-- are written, or a write throws and the executor stops before the bytes leave.
pub data Submitting : Type 0 where
  stops_early : Submitting
  signs : (digest submission_id : String) (writes : Bool) → Submitting

pub data Executed : Type 0 where
  unknown_plan already_executed was_rejected has_expired needs_approval : Executed
  wrong_network wrong_account bad_timeout not_sent : Executed
  sends : String → Executed

-- `request.accountId !== undefined && request.accountId !== agent.config.accountId`
abbrev pub is_of_other_account : Option String → Option String → Bool
is_of_other_account none account = false
is_of_other_account (some a) none = true
is_of_other_account (some a) (some b) = not (str_eq a b)

-- `onSubmitting`, and the bytes.
unfoldable pub submit_plan : String → ℕ → Submitting → Desk → Desk × Executed
submit_plan id now stops_early desk = (desk, not_sent)
submit_plan id now (signs digest submission_id false) desk = (desk, not_sent)
submit_plan id now (signs digest submission_id true) desk = (
  record {
    approvals = mark_consumed id (some digest) (some submission_id) now desk.approvals;
    sent = (id, digest) ∷ desk.sent;
  },
  sends digest,
)

-- The tests behind the status, for a plan that is approved.
unfoldable pub execute_approved :
    Config
    → String
    → ApprovalRequest
    → ℕ
    → (timeout_is_usable : Bool) → Submitting
    → Desk
    → Desk × Executed
unfolding submit_plan
execute_approved config id request now timeout_is_usable submitting desk =
    if not (str_eq request.network config.network)
    then (desk, wrong_network)
    else if is_of_other_account request.account_id config.account_id
    then (desk, wrong_account)
    else if not timeout_is_usable
    then (desk, bad_timeout)
    else submit_plan id now submitting desk

unfoldable pub execute_by :
    Config
    → String
    → ApprovalState
    → ApprovalRequest
    → ℕ
    → Bool
    → Submitting
    → Desk
    → Desk × Executed
unfolding execute_approved
execute_by config id is_consumed request now ok submitting desk = (desk, already_executed)
execute_by config id is_rejected request now ok submitting desk = (desk, was_rejected)
execute_by config id is_expired request now ok submitting desk = (desk, has_expired)
execute_by config id is_pending request now ok submitting desk = (desk, needs_approval)
execute_by config id is_approved request now ok submitting desk =
    execute_approved config id request now ok submitting desk

abbrev pub execute_status :
    Config → String → Option ApprovalStatus → ℕ → Bool → Submitting → Desk → Desk × Executed
execute_status config id none now ok submitting desk = (desk, unknown_plan)
execute_status config id (some status) now ok submitting desk =
    execute_by config id status.state status.request now ok submitting desk

-- The command, for the id that it is given.
unfoldable pub execute : Config → String → ℕ → Bool → Submitting → Desk → Desk × Executed
unfolding execute_by
execute config id now ok submitting desk =
    execute_status config id (status_of id now desk.approvals) now ok submitting desk
