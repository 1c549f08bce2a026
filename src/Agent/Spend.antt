-- ===== src/Agent/Spend.antt =====
-- src/agent/spend.ts: the spend ledger, a file of JSON lines.
pub mod Restart
use waterx_agent.Prelude.{
  String, List, [], ◌∷◌, ◌++◌, Option, none, some, Number, nan, infinite, neg_infinite, finite,
  zero_number, ◌+ᴺ◌, is_finite, if◌then◌else◌, get_or_else,
}
use waterx_agent.Policy.Gate.{SpendRecord}

-- What a line holds, as `JSON.parse` reads it: nothing but blanks of JSON, no JSON, a value that is no object, or an
-- object with the fields that have the type wanted of them.
pub data Line : Type 0 where
  blank torn other_value : Line
  object :
      (at : Option Number) (action account_id : Option String) (collateral : Option Number) → Line

-- The lines that end in a line feed, and the text behind the last of them, if there is any. A crash
-- in an append can leave some.
pub record Ledger : Type 0 where
  pub lines : List Line
  pub rest : Option Line

pub data SpendFile : Type 0 where
  missing unreadable : SpendFile
  holds : Ledger → SpendFile

pub record SpendEntry : Type 0 where
  pub at : Number
  pub action : String
  pub account_id : String
  pub collateral : Number

-- `JSON.stringify(record)`: a number that is not finite is written as `null`.
abbrev pub written_number : Number → Option Number
written_number (finite a) = some (finite a)
written_number _ = none

unfoldable pub line_of : SpendRecord → Number → Line
line_of r now =
    object (written_number now) (some r.action) (some r.account_id) (written_number r.collateral)

-- Text behind the last line feed and the text appended to it are one line. It is no JSON, unless the
-- text is blanks of JSON, which `JSON.parse` skips.
abbrev pub appended : Option Line → Line → Line
appended none l = l
appended (some blank) l = l
appended (some rest) l = torn

-- `recordSpend`, where the append succeeds.
unfoldable pub record_spend : SpendRecord → (now : Number) → SpendFile → SpendFile
unfolding line_of
record_spend r now missing = holds (record { lines = line_of r now ∷ []; rest = none })
record_spend r now unreadable = unreadable
record_spend r now (holds f) =
    holds (record { lines = f.lines ++ (appended f.rest (line_of r now) ∷ []); rest = none })

-- The entry of a line, if `readSpend` keeps it.
unfoldable pub entry_of : Line → Option SpendEntry
entry_of (object at action account_id (some amount)) =
    if is_finite amount
    then some (record {
      at = get_or_else at zero_number;
      action = get_or_else action "unknown";
      account_id = get_or_else account_id "unknown";
      collateral = amount;
    })
    else none
entry_of _ = none

abbrev pub and_entry : Option SpendEntry → List SpendEntry → List SpendEntry
and_entry none entries = entries
and_entry (some e) entries = e ∷ entries

unfoldable pub entries_of : List Line → List SpendEntry
entries_of [] = []
entries_of (l ∷ ls) = and_entry (entry_of l) (entries_of ls)

abbrev pub with_rest : List Line → Option Line → List Line
with_rest ls none = ls
with_rest ls (some l) = ls ++ (l ∷ [])

-- `readSpend`
unfoldable pub read_spend : SpendFile → Option (List SpendEntry)
unfolding entries_of
read_spend missing = some []
read_spend unreadable = none
read_spend (holds f) = some (entries_of (with_rest f.lines f.rest))

-- `entries.reduce((total, entry) => total + entry.collateral, total)`
unfoldable pub reduce_total : Number → List SpendEntry → Number
reduce_total total [] = total
reduce_total total (e ∷ entries) = reduce_total (total +ᴺ e.collateral) entries

abbrev pub total_of : Option (List SpendEntry) → Option Number
total_of none = none
total_of (some entries) = some (reduce_total zero_number entries)

-- `spentTotal`
unfoldable pub spent_total : SpendFile → Option Number
unfolding read_spend reduce_total
spent_total file = total_of (read_spend file)
