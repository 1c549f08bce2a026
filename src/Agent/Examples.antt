-- ===== src/Agent/Examples.antt =====
-- Runs of the ledgers of src/agent and of scripts/agent/execute.ts, and the theorems at them.
use waterx_agent.Prelude.{
  true, ℕ, ◌≤◌, ◌≡◌, refl, ◌≢◌, ◌⊎◌, String, true, List, [], ◌∷◌, ◌++◌, Option, none, some, finite,
  pos,
}
use waterx_agent.Policy.Gate.{SpendRecord}
use waterx_agent.Policy.Examples.{open_50}
use waterx_agent.Agent.Spend.{torn, holds, record_spend, spent_total}
use waterx_agent.Agent.Spend.Restart.{torn_ledger_loses_spend}
use waterx_agent.Agent.Journal
use waterx_agent.Agent.Journal.{File, read, read_lines, append, append_loses_nothing}
use waterx_agent.Agent.Approvals.{
  ApprovalRequest, ApprovalRecord, requested, approval, ApprovalStatus, is_pending, is_approved,
  is_consumed, plain, first_of, history_of, status_by, new_request, status_of, approve,
  mark_consumed, approval_of, consumed_of, rejected_of,
}
use waterx_agent.Agent.Approvals.Decisions.{approved_can_be_spent, consumed_stays}
use waterx_agent.Agent.Approvals.Approving.{approve_lem}
use waterx_agent.Agent.Execute.{Config, Desk, signs}
use waterx_agent.Agent.Execute.Once.{
  DeskEvent, executes, appends, desk_run, spent_count, approval_buys_one,
}
use waterx_agent.Agent.Submissions

abbrev spend_50 : SpendRecord
spend_50 = record { action = "openPosition"; account_id = "A"; collateral = finite (pos 50) }

torn_ledger_loses_spend_example :
    spent_total
      (record_spend spend_50 (finite (pos 7)) (holds (record { lines = []; rest = some torn })))
    ≡ spent_total (holds (record { lines = []; rest = none }))
torn_ledger_loses_spend_example =
    torn_ledger_loses_spend [] torn spend_50 (finite (pos 7)) (λ e. cc)

abbrev one_line : File ℕ
one_line = Journal.holds (record { lines = Journal.entry 1 ∷ []; rest = none })

abbrev two_lines : File ℕ
two_lines = Journal.holds (record { lines = Journal.entry 1 ∷ Journal.entry 2 ∷ []; rest = none })

one_line-read : read one_line ≡ some (1 ∷ [])
unfolding read read_lines
one_line-read = refl

one_line-append : append 2 one_line ≡ some two_lines
unfolding append
one_line-append = refl

append_loses_nothing_example : (read two_lines ≡ some (1 ∷ 2 ∷ [])) ⊎ (read two_lines ≡ none)
append_loses_nothing_example =
    append_loses_nothing one_line two_lines (1 ∷ []) 2 one_line-read one_line-append

abbrev plan_request : ApprovalRequest
plan_request =
    new_request "apr_1" 100 600
      (record { action = "openPosition"; network = "testnet"; account_id = none; intent = open_50 })

abbrev asked : List ApprovalRecord
asked = record { id = "apr_1"; at = 100; entry = requested plan_request } ∷ []

abbrev approved : List ApprovalRecord
approved = asked ++ (record { id = "apr_1"; at = 200; entry = approval (some "Ada") } ∷ [])

abbrev pending_status : ApprovalStatus
pending_status = plain plan_request is_pending none

abbrev approved_status : ApprovalStatus
approved_status = plain plan_request is_approved (some (200, some "Ada"))

asked-pending : status_of "apr_1" 200 asked ≡ some pending_status
unfolding status_of first_of status_by
asked-pending = refl

approve_lem_example :
    ((pending_status.state ≡ is_pending)
      → (after : List ApprovalRecord) × (approve "apr_1" "Ada" 200 asked ≡ some after)
        × (status_of "apr_1" 200 after
            ≡ some (plain plan_request is_approved (some (200, some "Ada")))))
    × ((pending_status.state ≢ is_pending) → approve "apr_1" "Ada" 200 asked ≡ none)
approve_lem_example = approve_lem "apr_1" "Ada" 200 asked pending_status asked-pending

approved-status : status_of "apr_1" 300 approved ≡ some approved_status
unfolding status_of first_of status_by
approved-status = refl

approved_can_be_spent_example :
    (300 ≤ plan_request.expires_at)
    × ((first_of consumed_of (history_of "apr_1" approved) ≡ none)
        × (first_of rejected_of (history_of "apr_1" approved) ≡ none)
        × ((by : ℕ × Option String) × (first_of approval_of (history_of "apr_1" approved)
              ≡ some by)))
approved_can_be_spent_example =
    approved_can_be_spent "apr_1" 300 approved approved_status approved-status refl

abbrev spent : List ApprovalRecord
spent = mark_consumed "apr_1" (some "D") (some "sub_1") 400 approved

abbrev spent_status : ApprovalStatus
spent_status = record approved_status {
  state = is_consumed;
  consumed_at = some 400;
  digest = some "D";
  submission_id = some "sub_1";
}

spent-status : status_of "apr_1" 500 spent ≡ some spent_status
unfolding status_of first_of status_by mark_consumed
spent-status = refl

consumed_stays_example :
    (next : ApprovalStatus) × (status_of "apr_1" 900 (spent ++ approved) ≡ some next)
    × (next.state ≡ is_consumed)
    × (next.digest ≡ some "D")
    × (next.submission_id ≡ some "sub_1")
consumed_stays_example =
    consumed_stays "apr_1" 500 900 spent approved spent_status spent-status refl

abbrev config : Config
config = record { network = "testnet"; account_id = none }

abbrev desk : Desk
desk = record { approvals = approved; sent = [] }

-- The plan is executed twice, and approved again in between.
abbrev twice : List DeskEvent
twice =
    executes config "apr_1" 300 true (signs "D" "sub_1" true)
    ∷ appends (record { id = "apr_1"; at = 310; entry = approval (some "Ada") })
    ∷ executes config "apr_1" 320 true (signs "E" "sub_2" true)
    ∷ []

approval_buys_one_example : spent_count "apr_1" (desk_run desk twice).sent ≤ 1
approval_buys_one_example = approval_buys_one "apr_1" desk twice refl

abbrev one_submission : Submissions.Submission
one_submission = record {
  id = "sub_1";
  at = 10;
  action = "openPosition";
  network = "testnet";
  account_id = none;
  digest = "D";
  approval_id = some "apr_1";
  ticker = some "BTC";
  position_id = none;
  order_id = none;
  collateral = some (finite (pos 50));
}

abbrev one_record : List Submissions.SubmissionRecord
one_record = record { id = "sub_1"; at = 10; entry = Submissions.submitted one_submission } ∷ []
