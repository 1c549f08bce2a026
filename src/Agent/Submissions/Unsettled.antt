-- ===== src/Agent/Submissions/Unsettled.antt =====
-- src/agent/submissions.ts, `unsettled`: nothing whose outcome is open is missing from it.
use waterx_agent.Prelude.{ℕ, String, List, [], ◌∷◌, none, some, ◌≡◌, ◌⊎◌}
use waterx_agent.Agent.Submissions.{
  Submission, submitted, SubmissionRecord, SubmissionStatus, status_for, unknown,
  SubmissionSettlement,
}

-- The status stands in the list.
abbrev pub Holds : SubmissionStatus → List SubmissionStatus → Type 0
Holds s [] = ⊥
Holds s (t ∷ ts) = (t ≡ s) ⊎ Holds s ts

-- The status is that of some id.
abbrev pub IsStatus : List SubmissionRecord → SubmissionStatus → Type 0
IsStatus records s = (id : String) × (status_for id records ≡ some s)

-- Nothing settled it, or what did could not tell whether it landed.
abbrev pub IsOpen : SubmissionStatus → Type 0
IsOpen s =
    (s.settlement ≡ none)
    ⊎ ((found : ℕ × SubmissionSettlement) × (s.settlement ≡ some found)
        × (found.1.landed ≡ unknown))

-- A record of the id is among those left.
abbrev Asks : String → List SubmissionRecord → Type 0
Asks id [] = ⊥
Asks id (r ∷ left) = ((r.id ≡ id) × ((s : Submission) × (r.entry ≡ submitted s))) ⊎ Asks id left
