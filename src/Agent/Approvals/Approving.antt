-- ===== src/Agent/Approvals/Approving.antt =====
-- src/agent/approvals.ts, `approve`: whom it approves, and whom it refuses.
use waterx_agent.Prelude.{
  ℕ, String, true, false, List, [], ◌∷◌, ◌++◌, Option, none, some, ltb, str_eq_refl, ◌≡◌, refl, ◌≢◌,
  sym, ap, ◌∙◌, ◌↔◌, arith, subst, Bool-cases, inl, inr,
}
use waterx_agent.Agent.Approvals.{
  ApprovalRequest, ApprovalRecord, approval, ApprovalState, ApprovalStatus, is_pending, is_approved,
  history_of, request_of, approval_of, consumed_of, rejected_of, first_of, plain, status_by,
  status_of, is_waiting, approve,
}
use waterx_agent.Agent.Approvals.Decisions.{
  history_of-append, first_of-append, first_of-next, first_of-other, status_of-Folded,
  status_by-request,
}

status_by-pending :
    (request : ApprovalRequest) (a : Option (ℕ × Option String))
    (c : Option (ℕ × (Option String × Option String))) (d : Option (ℕ × Option String)) (now : ℕ)
    → (status_by request a c d now).state ≡ is_pending
    → (ltb request.expires_at now ≡ false) × ((a ≡ none) × (c ≡ none) × (d ≡ none))
unfolding status_by
status_by-pending request a (some c) d now h = cc
status_by-pending request a none (some d) now h = cc
status_by-pending request (some a) none none now h = ground (arith, h)
status_by-pending request none none none now h = (ground (arith, h), (refl, refl, refl))

waiting-pending : (s : ApprovalState) → (is_waiting s ≡ true) ↔ (s ≡ is_pending)
waiting-pending s = ground arith

-- The status that follows from the four records.
status_of-by :
    (id : String) (now asked_at : ℕ) (records : List ApprovalRecord) (request : ApprovalRequest)
    (a : Option (ℕ × Option String)) (c : Option (ℕ × (Option String × Option String)))
    (d : Option (ℕ × Option String))
    → first_of request_of (history_of id records) ≡ some (asked_at, request)
    → first_of approval_of (history_of id records) ≡ a
    → first_of consumed_of (history_of id records) ≡ c
    → first_of rejected_of (history_of id records) ≡ d
    → status_of id now records ≡ some (status_by request a c d now)
unfolding status_of
status_of-by id now asked_at records request a c d q e f g = rw (q, e, f, g) refl

approved_in_time :
    (request : ApprovalRequest) (a : ℕ × Option String) (now : ℕ)
    → ltb request.expires_at now ≡ false
    → status_by request (some a) none none now ≡ plain request is_approved (some a)
unfolding status_by
approved_in_time request a now h = rw h refl

approval_recorded :
    (id by : String) (now : ℕ) (records : List ApprovalRecord) (status : ApprovalStatus)
    → status_of id now records ≡ some status
    → status.state ≡ is_pending
    → status_of id now (records ++ (record { id = id; at = now; entry = approval (some by) } ∷ []))
      ≡ some (plain status.request is_approved (some (now, some by)))
approval_recorded id by now records status h p =
    let f = status_of-Folded id now records status h in
    let old = history_of id records in
    let (in_time, (no_approval, no_consumption, no_rejection)) =
      status_by-pending f.request (first_of approval_of old) (first_of consumed_of old)
        (first_of rejected_of old) now (subst (λ t. t.state ≡ is_pending) f.folded p) in
    let r : ApprovalRecord = record { id = id; at = now; entry = approval (some by) } in
    let same : status.request ≡ f.request =
      ap (λ t. t.request) f.folded
      ∙ status_by-request f.request (first_of approval_of old) (first_of consumed_of old)
          (first_of rejected_of old) now in
    let behind : history_of id (records ++ (r ∷ [])) ≡ old ++ (r ∷ []) =
      history_of-append id records (r ∷ []) ∙ rw (str_eq_refl id) refl in
    status_of-by id now f.asked_at (records ++ (r ∷ [])) f.request (some (now, some by)) none none
      (rw behind (first_of-append request_of old (r ∷ []) (f.asked_at, f.request) f.found))
      (rw behind (first_of-next approval_of old r (some by) no_approval refl))
      (rw behind (first_of-other consumed_of old r no_consumption refl))
      (rw behind (first_of-other rejected_of old r no_rejection refl))
    ∙ ap some (
        approved_in_time f.request (now, some by) now in_time
        ∙ ap (λ q. plain q is_approved (some (now, some by))) (sym same))

-- For a plan that is known and still pending, `approve` appends a record, and the plan is approved
-- at that instant, by the person named. For a plan in any other state it throws and writes
-- nothing.
pub approve_lem :
    (id by : String) (now : ℕ) (records : List ApprovalRecord) (status : ApprovalStatus)
    → status_of id now records ≡ some status
    → ((status.state ≡ is_pending)
        → (after : List ApprovalRecord) × (approve id by now records ≡ some after)
          × (status_of id now after
              ≡ some (plain status.request is_approved (some (now, some by)))))
      × ((status.state ≢ is_pending) → approve id by now records ≡ none)
unfolding approve
approve_lem id by now records status h = (pending, other)
  where
    r : ApprovalRecord
    r = record { id = id; at = now; entry = approval (some by) }

    pending :
        status.state ≡ is_pending
        → (after : List ApprovalRecord) × (approve id by now records ≡ some after)
          × (status_of id now after ≡ some (plain status.request is_approved (some (now, some by))))
    pending p = (
      records ++ (r ∷ []),
      rw (h, approve) (rw ((waiting-pending status.state).1 p) refl),
      approval_recorded id by now records status h p,
    )

    other : status.state ≢ is_pending → approve id by now records ≡ none
    other p = elim (Bool-cases (is_waiting status.state)) [
      | inl e ↦ absurd (p ((waiting-pending status.state).0 e))
      | inr e ↦ rw (h, approve) (rw e refl)
    ]
