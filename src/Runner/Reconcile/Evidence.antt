-- ===== src/Runner/Reconcile/Evidence.antt =====
-- src/runner/reconcile.ts, `outcomeOf`: an outcome rests on rows of the history that carry the digest.
use waterx_agent.Prelude.{
  ℕ, zero, suc, String, Bool, true, false, List, [], ◌∷◌, Option, none, some, filter, find, All,
  All-find, str_eq, str_eq_iff, ◌≡◌, refl, sym, ap, inl, inr, Option-cases, if◌then◌else◌, arith,
  subst,
}
use waterx_agent.Runner.Types.{OrderOutcomeStatus, open_status, filled_status}
use waterx_agent.Runner.Reconcile.{
  HistoryRow, HistoryPage, History, OrderOutcome, Search, settled, no_answer, to_outcome,
  is_terminal_row, status_of_row, carries, oldest_timestamp, is_before, follow, rows_answer,
  page_answer, outcome_from, outcome_of, max_history_pages,
}

-- A page of the history holds a row with the digest whose status is the one told.
pub record IsShown (history : History) (digest : String) (status : OrderOutcomeStatus)
    : Type 0 where
  pub cursor : Option String
  pub page : HistoryPage
  pub row : HistoryRow
  pub on_page : history cursor ≡ some page
  pub in_page : find is_terminal_row (filter (carries digest) page.items) ≡ some row
  pub carries_digest : row.tx_digest ≡ some digest
  pub has_status : row.status ≡ some status

filter-All :
    (p : HistoryRow → Bool) (rows : List HistoryRow) → All (λ r. p r ≡ true) (filter p rows)
filter-All p [] = tt
filter-All p (r ∷ rows) = ground (arith, filter-All p rows)

carries-digest :
    (digest : String) (row : HistoryRow) → carries digest row ≡ true → row.tx_digest ≡ some digest
carries-digest digest row h = by_digest row.tx_digest h
  where
    by_digest :
        (o : Option String)
        → (elim o [ none ↦ false | some d ↦ str_eq d digest ]) ≡ true
        → o ≡ some digest
    by_digest none h = cc
    by_digest (some d) h = ap some ((str_eq_iff d digest).0 h)

-- A status other than `open` is that of a row.
status_of_row-found :
    (rows : List HistoryRow)
    → status_of_row (find is_terminal_row rows) ≡ filled_status
    → (row : HistoryRow) × (find is_terminal_row rows ≡ some row)
      × (row.status ≡ some filled_status)
status_of_row-found rows h = elim (Option-cases (find is_terminal_row rows)) [
  | inl e ↦ absurd (open_only (subst (λ o. status_of_row o ≡ filled_status) e h))
  | inr (row, e) ↦ (row, e, of_row row.status (subst (λ o. status_of_row o ≡ filled_status) e h))
]
  where
    open_only : status_of_row none ≡ filled_status → ⊥
    open_only k = cc

    of_row :
        (o : Option OrderOutcomeStatus)
        → (elim o [ none ↦ open_status | some status ↦ status ]) ≡ filled_status
        → o ≡ some filled_status
    of_row none k = cc
    of_row (some s) k = ap some k

shown :
    (history : History) (digest : String) (cursor : Option String) (page : HistoryPage)
    → history cursor ≡ some page
    → (to_outcome (filter (carries digest) page.items)).status ≡ filled_status
    → IsShown history digest filled_status
unfolding to_outcome
shown history digest cursor page e h =
    let (row, found, status) = status_of_row-found (filter (carries digest) page.items) h in
    record {
      cursor = cursor;
      page = page;
      row = row;
      on_page = e;
      in_page = found;
      carries_digest = carries-digest digest row (
          All-find (λ r. carries digest r ≡ true) is_terminal_row _ row
            (filter-All (carries digest) page.items) found);
      has_status = status;
    }

settled-injective : {a b : OrderOutcome} → settled a ≡ settled b → a ≡ b
settled-injective h = cc h

module _ (history : History) (digest : String) (since : ℕ) (o : OrderOutcome)
    (s : o.status ≡ filled_status) where
  follow-IsShown :
      (rest : Option String → Search) (more : Bool) (next : Option String)
      → ((c : Option String) → rest c ≡ settled o → IsShown history digest filled_status)
      → follow rest more next ≡ settled o
      → IsShown history digest filled_status
  follow-IsShown rest false next again k = cc
  follow-IsShown rest true none again k = cc
  follow-IsShown rest true (some next) again k = again (some next) k

  unless_before : (b : Bool) (t : Search) → (if b then no_answer else t) ≡ settled o → t ≡ settled o
  unless_before true t k = cc
  unless_before false t k = k

  rows_answer-IsShown :
      (rest : Option String → Search) (cursor : Option String) (page : HistoryPage)
      (rows : List HistoryRow)
      → ((c : Option String) → rest c ≡ settled o → IsShown history digest filled_status)
      → history cursor ≡ some page
      → filter (carries digest) page.items ≡ rows
      → rows_answer rest since page rows ≡ settled o
      → IsShown history digest filled_status
  rows_answer-IsShown rest cursor page (row ∷ rows) again e f k =
      shown history digest cursor page e (
        subst (λ rs. (to_outcome rs).status ≡ filled_status) (sym f)
          (subst (λ t. t.status ≡ filled_status) (settled-injective (sym k)) s))
  rows_answer-IsShown rest cursor page [] again e f k =
      follow-IsShown rest page.has_more page.next_cursor again
        (unless_before (is_before (oldest_timestamp page.items) since) _ k)

  page_answer-IsShown :
      (rest : Option String → Search) (cursor : Option String) (p : Option HistoryPage)
      → ((c : Option String) → rest c ≡ settled o → IsShown history digest filled_status)
      → history cursor ≡ p
      → page_answer rest digest since p ≡ settled o
      → IsShown history digest filled_status
  page_answer-IsShown rest cursor none again e k = cc
  page_answer-IsShown rest cursor (some page) again e k =
      rows_answer-IsShown rest cursor page (filter (carries digest) page.items) again e refl k

  outcome_from-IsShown :
      (pages : ℕ) (cursor : Option String)
      → outcome_from pages history digest since cursor ≡ settled o
      → IsShown history digest filled_status
  unfolding outcome_from
  outcome_from-IsShown zero cursor h = cc
  outcome_from-IsShown (suc pages) cursor h =
      page_answer-IsShown (outcome_from pages history digest since) cursor (history cursor)
        (λ c k. outcome_from-IsShown pages c k) refl h

-- When the search tells that an order was filled, a page of the history holds a row that carries the
-- digest of the transaction and has that status.
pub outcome_of-IsShown :
    (history : History) (digest : String) (since : ℕ) (o : OrderOutcome)
    → outcome_of history digest since ≡ settled o
    → o.status ≡ filled_status
    → IsShown history digest filled_status
unfolding outcome_of
outcome_of-IsShown history digest since o h s =
    outcome_from-IsShown history digest since o s max_history_pages none h
