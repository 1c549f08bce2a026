-- ===== src/Agent/Execute/Once.antt =====
-- scripts/agent/execute.ts: one approval buys one transaction.
use waterx_agent.Prelude.{
  ℕ, suc, ◌≤◌, String, Bool, true, false, not, List, [], ◌∷◌, ◌++◌, Option, none, some, str_eq,
  str_eq_refl, str_eq_iff, if◌then◌else◌, ◌≡◌, refl, ap, ◌⊎◌, inl, inr, arith, Bool-cases, subst,
  if_both,
}
use waterx_agent.Agent.Approvals.{
  ApprovalRequest, ApprovalRecord, ApprovalState, ApprovalStatus, is_pending, is_approved,
  is_consumed, is_rejected, is_expired, consumed, history_of, consumed_of, first_of, status_of,
  mark_consumed,
}
use waterx_agent.Agent.Approvals.Decisions.{
  history_of-append, first_of-append, first_of-next, approved_can_be_spent,
}
use waterx_agent.Agent.Execute.{
  Config, Desk, Submitting, stops_early, signs, Executed, submit_plan, execute_approved, execute_by,
  execute_status, execute, is_of_other_account,
}

-- The command is run, or anything is appended to the approvals: a request, an approval, a rejection.
pub data DeskEvent : Type 0 where
  executes : Config → String → ℕ → Bool → Submitting → DeskEvent
  appends : ApprovalRecord → DeskEvent

abbrev pub desk_step : Desk → DeskEvent → Desk
desk_step desk (executes config id now ok submitting) = (execute config id now ok submitting desk).0
desk_step desk (appends r) = record desk { approvals = desk.approvals ++ (r ∷ []) }

abbrev pub desk_run : Desk → List DeskEvent → Desk
desk_run desk [] = desk
desk_run desk (e ∷ events) = desk_run (desk_step desk e) events

abbrev pub spent_count : String → List (String × String) → ℕ
spent_count id [] = 0
spent_count id ((k, digest) ∷ sent) =
    if str_eq k id then suc (spent_count id sent) else spent_count id sent

-- Nothing was sent on the approval, or one transaction, and the approval is recorded as consumed.
abbrev Held : String → Desk → Type 0
Held id desk =
    (spent_count id desk.sent ≡ 0)
    ⊎ ((spent_count id desk.sent ≡ 1)
        × ((v : ℕ × (Option String × Option String)) × (first_of consumed_of
                (history_of id desk.approvals)
              ≡ some v)))

appends-Held :
    (id : String) (desk : Desk) (r : ApprovalRecord)
    → Held id desk
    → Held id (record desk { approvals = desk.approvals ++ (r ∷ []) })
appends-Held id desk r (inl h) = inl h
appends-Held id desk r (inr (h, (v, e))) = inr (
  h,
  (
    v,
    rw (history_of-append id desk.approvals (r ∷ []))
        (first_of-append consumed_of (history_of id desk.approvals) (history_of id (r ∷ [])) v e),
  ),
)

-- The record of a consumption is the first one, where there was none.
consumes-first :
    (k : String) (now : ℕ) (d s : Option String) (rs : List ApprovalRecord)
    → first_of consumed_of (history_of k rs) ≡ none
    → first_of consumed_of (history_of k (mark_consumed k d s now rs)) ≡ some (now, (d, s))
unfolding mark_consumed
consumes-first k now d s rs n =
    let r : ApprovalRecord = record { id = k; at = now; entry = consumed d s } in
    rw (history_of-append k rs (r ∷ []), str_eq_refl k)
      (first_of-next consumed_of (history_of k rs) r (d, s) n refl)

sends-Held :
    (k : String) (now : ℕ) (digest sub : String) (desk : Desk)
    → first_of consumed_of (history_of k desk.approvals) ≡ none
    → Held k desk
    → Held k (record {
      approvals = mark_consumed k (some digest) (some sub) now desk.approvals;
      sent = (k, digest) ∷ desk.sent;
    })
sends-Held k now digest sub desk n (inl h) = inr (
  rw (str_eq_refl k) (ap suc h),
  ((now, (some digest, some sub)), consumes-first k now (some digest) (some sub) desk.approvals n),
)
sends-Held k now digest sub desk n (inr (h, (v, e))) = cc

-- Sending on an approval that no record consumes.
submit_plan-Held :
    (id k : String) (now : ℕ) (s : Submitting) (desk : Desk)
    → first_of consumed_of (history_of k desk.approvals) ≡ none
    → Held id desk
    → Held id (submit_plan k now s desk).0
unfolding submit_plan mark_consumed
submit_plan-Held id k now stops_early desk n h = h
submit_plan-Held id k now (signs digest sub false) desk n h = h
submit_plan-Held id k now (signs digest sub true) desk n h = elim (Bool-cases (str_eq k id)) [
  | inl e ↦
      subst (λ i. Held i desk → Held i (sent_on k)) ((str_eq_iff k id).0 e)
        (sends-Held k now digest sub desk n) h
  | inr e ↦ rw e (
      appends-Held id desk (record { id = k; at = now; entry = consumed (some digest) (some sub) })
        h)
]
  where
    sent_on : String → Desk
    sent_on k = record {
      approvals = mark_consumed k (some digest) (some sub) now desk.approvals;
      sent = (k, digest) ∷ desk.sent;
    }

execute_approved-Held :
    (id : String) (config : Config) (k : String) (request : ApprovalRequest) (now : ℕ) (ok : Bool)
    (s : Submitting) (desk : Desk)
    → first_of consumed_of (history_of k desk.approvals) ≡ none
    → Held id desk
    → Held id (execute_approved config k request now ok s desk).0
unfolding execute_approved
execute_approved-Held id config k request now ok s desk n h =
    if_both P (not (str_eq request.network config.network)) h (
      if_both P (is_of_other_account request.account_id config.account_id) h
        (if_both P (not ok) h (submit_plan-Held id k now s desk n h)))
  where
    P : Desk × Executed → Type 0
    P r = Held id r.0

execute_by-Held :
    (id : String) (config : Config) (k : String) (state : ApprovalState) (request : ApprovalRequest)
    (now : ℕ) (ok : Bool) (s : Submitting) (desk : Desk)
    → (state ≡ is_approved → first_of consumed_of (history_of k desk.approvals) ≡ none)
    → Held id desk
    → Held id (execute_by config k state request now ok s desk).0
unfolding execute_by
execute_by-Held id config k is_consumed request now ok s desk n h = h
execute_by-Held id config k is_rejected request now ok s desk n h = h
execute_by-Held id config k is_expired request now ok s desk n h = h
execute_by-Held id config k is_pending request now ok s desk n h = h
execute_by-Held id config k is_approved request now ok s desk n h =
    execute_approved-Held id config k request now ok s desk (n refl) h

execute-Held :
    (id : String) (config : Config) (k : String) (now : ℕ) (ok : Bool) (s : Submitting)
    (desk : Desk)
    → Held id desk
    → Held id (execute config k now ok s desk).0
unfolding execute
execute-Held id config k now ok s desk h = by_status (status_of k now desk.approvals) refl
  where
    by_status :
        (o : Option ApprovalStatus)
        → status_of k now desk.approvals ≡ o
        → Held id (execute_status config k o now ok s desk).0
    by_status none e = h
    by_status (some status) e =
        execute_by-Held id config k status.state status.request now ok s desk
          (λ a. (approved_can_be_spent k now desk.approvals status e a).1.0) h

run-Held :
    (id : String) (desk : Desk) (events : List DeskEvent)
    → Held id desk
    → Held id (desk_run desk events)
run-Held id desk [] h = h
run-Held id desk (executes config k now ok s ∷ events) h =
    run-Held id (execute config k now ok s desk).0 events (execute-Held id config k now ok s desk h)
run-Held id desk (appends r ∷ events) h =
    run-Held id (record desk { approvals = desk.approvals ++ (r ∷ []) }) events
      (appends-Held id desk r h)

-- Whatever runs of the command follow one another, for any plans, whatever happens to them, and
-- whatever records are appended to the approvals between them: no approval is spent on more than
-- one transaction that left.
pub approval_buys_one :
    (id : String) (desk : Desk) (events : List DeskEvent)
    → desk.sent ≡ []
    → spent_count id (desk_run desk events).sent ≤ 1
approval_buys_one id desk events none_sent =
    at_most (run-Held id desk events (inl (rw none_sent refl)))
  where
    at_most : Held id (desk_run desk events) → spent_count id (desk_run desk events).sent ≤ 1
    at_most (inl h) = omega (arith, h)
    at_most (inr (h, v)) = omega (arith, h)
