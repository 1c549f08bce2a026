-- ===== src/Runner/Reconcile.antt =====
-- src/runner/reconcile.ts: what became of a transaction and of its orders. The chain and the
-- indexer are not part of the program: their answers are arguments.
pub mod Evidence
use waterx_agent.Prelude.{
  ℕ, zero, suc, ◌+◌, String, Bool, true, false, not, ◌&&◌, List, [], ◌∷◌, map, Option, none, some,
  ltb, ◌==◌, if◌then◌else◌, find, any, filter, str_eq,
}
use waterx_agent.Runner.Types.{OrderOutcomeStatus, open_status}
use waterx_agent.Runner.Stops.{Position, OrderResponse}

-- What `getTransaction` answers for a digest.
pub data Lookup : Type 0 where
  executed : Lookup
  failed_transaction : String → Lookup
  not_found : Lookup
  lookup_broke : String → Lookup

pub data LandedVerdict : Type 0 where
  landed : LandedVerdict
  aborted : String → LandedVerdict
  never_landed : LandedVerdict
  unknown : LandedVerdict

-- `didLand`. `now - submittedAt < settleMs` is written without the subtraction.
unfoldable pub did_land : Lookup → (submitted_at settle_ms now : ℕ) → LandedVerdict
did_land executed submitted_at settle_ms now = landed
did_land (failed_transaction reason) submitted_at settle_ms now = aborted reason
did_land (lookup_broke reason) submitted_at settle_ms now = unknown
did_land not_found submitted_at settle_ms now =
    if ltb now (settle_ms + submitted_at) then unknown else never_landed

pub record OrderOutcome : Type 0 where
  pub order_ids : List ℕ
  pub status : OrderOutcomeStatus

pub record HistoryRow : Type 0 where
  pub id : ℕ
  pub tx_digest : Option String
  pub status : Option OrderOutcomeStatus
  pub timestamp : Option ℕ

pub record HistoryPage : Type 0 where
  pub items : List HistoryRow
  pub next_cursor : Option String
  pub has_more : Bool

abbrev pub max_history_pages : ℕ
max_history_pages = 20

abbrev pub is_terminal_row : HistoryRow → Bool
is_terminal_row row = elim row.status [ none ↦ false | some open_status ↦ false | some _ ↦ true ]

abbrev pub status_of_row : Option HistoryRow → OrderOutcomeStatus
status_of_row none = open_status
status_of_row (some row) = elim row.status [ none ↦ open_status | some status ↦ status ]

-- `toOutcome`
unfoldable pub to_outcome : List HistoryRow → OrderOutcome
to_outcome rows = record {
  order_ids = map (λ row. row.id) rows;
  status = status_of_row (find is_terminal_row rows);
}

abbrev older : Option ℕ → Option ℕ → Option ℕ
older none found = found
older (some t) none = some t
older (some t) (some oldest) = if ltb t oldest then some t else some oldest

-- The loop of `oldestTimestamp`.
abbrev oldest_from : Option ℕ → List HistoryRow → Option ℕ
oldest_from oldest [] = oldest
oldest_from oldest (row ∷ rows) = oldest_from (older row.timestamp oldest) rows

abbrev pub oldest_timestamp : List HistoryRow → Option ℕ
oldest_timestamp = oldest_from none

abbrev pub carries : String → HistoryRow → Bool
carries digest row = elim row.tx_digest [ none ↦ false | some d ↦ str_eq d digest ]

abbrev pub is_before : Option ℕ → ℕ → Bool
is_before none bound = false
is_before (some t) bound = ltb t bound

-- How `outcomeOf` ends: with an outcome, with `undefined`, or by throwing at the cap or because a
-- read failed.
pub data Search : Type 0 where
  settled : OrderOutcome → Search
  no_answer : Search
  gave_up_paging : Search
  read_failed : Search

-- A page by its cursor; `none` is a request that failed.
abbrev pub History : Type 0
History = Option String → Option HistoryPage

-- On to the next page, if there is one.
abbrev pub follow : (Option String → Search) → (has_more : Bool) → Option String → Search
follow rest false cursor = no_answer
follow rest true none = no_answer
follow rest true (some next) = rest (some next)

-- What a page answers, for its rows that carry the digest.
abbrev pub rows_answer : (Option String → Search) → ℕ → HistoryPage → List HistoryRow → Search
rows_answer rest submitted_at page (row ∷ rows) = settled (to_outcome (row ∷ rows))
rows_answer rest submitted_at page [] =
    if is_before (oldest_timestamp page.items) submitted_at
    then no_answer
    else follow rest page.has_more page.next_cursor

-- One round of the loop, for the page that was read; `rest` is the loop from another page on.
abbrev pub page_answer : (Option String → Search) → String → ℕ → Option HistoryPage → Search
page_answer rest digest submitted_at none = read_failed
page_answer rest digest submitted_at (some page) =
    rows_answer rest submitted_at page (filter (carries digest) page.items)

-- The loop of `outcomeOf`, over the pages that may still be read.
unfoldable pub outcome_from : ℕ → History → String → ℕ → Option String → Search
outcome_from zero history digest submitted_at cursor = gave_up_paging
outcome_from (suc pages) history digest submitted_at cursor =
    page_answer (outcome_from pages history digest submitted_at) digest submitted_at
      (history cursor)

unfoldable pub outcome_of : History → String → ℕ → Search
unfolding outcome_from
outcome_of history digest submitted_at =
    outcome_from max_history_pages history digest submitted_at none

abbrev pub is_position : String → ℕ → Position → Bool
is_position ticker id p = str_eq p.ticker ticker && p.id == id

abbrev is_order : String → ℕ → OrderResponse → Bool
is_order ticker id o = str_eq o.ticker ticker && o.id == id

unfoldable pub position_gone : List Position → String → ℕ → Bool
position_gone positions ticker id = not (any (is_position ticker id) positions)

unfoldable pub order_gone : List OrderResponse → String → ℕ → Bool
order_gone orders ticker id = not (any (is_order ticker id) orders)
