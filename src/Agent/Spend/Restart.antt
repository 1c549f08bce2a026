-- ===== src/Agent/Spend/Restart.antt =====
-- src/agent/spend.ts and src/policy.ts: the ledger on disk and the gate's count stay one number, so
-- a gate that is built after a crash starts where the last one stopped.
use waterx_agent.Prelude.{
  ℕ, String, Bool, true, List, [], ◌∷◌, ◌++◌, Option, none, some, Number, nan, infinite,
  neg_infinite, finite, zero_number, ◌+ᴺ◌, neg_number, is_finite, ◌≡◌, ◌≢◌, refl, sym, ◌∙◌, length,
  All, All-find, All-filter, subst, not, amount-finite, neg_number-finite, text_join,
}
use waterx_agent.Policy.Intent.{WriteIntent}
use waterx_agent.Policy.Gate.{Gate, PolicyMode, done, fresh_gate, new_gate, SpendRecord, commits}
use waterx_agent.Policy.Gate.Accepts.{IsAmountIn, new_gate-done, refusal_of-IsAmountIn}
use waterx_agent.Policy.Scope.{PolicyScope}
use waterx_agent.Policy.Permits.{waits_for}
use waterx_agent.Policy.Calls.{Call, step, run}
use waterx_agent.Policy.Calls.Counts.{
  writes_of, told, Counted, nothing, adds, takes, Waiting, same, fewer, one_more,
}
use waterx_agent.Policy.Calls.Counts.Steps.{step-CountMove}
use waterx_agent.Agent.Spend.{
  blank, torn, other_value, object, Line, SpendFile, missing, unreadable, holds, SpendEntry,
  line_of, record_spend, entry_of, entries_of, and_entry, read_spend, reduce_total, spent_total,
}

-- The file after the meter's records, the latest of which stands first.
abbrev pub written : (clock : ℕ → Number) → SpendFile → List SpendRecord → SpendFile
written clock file [] = file
written clock file (r ∷ rs) = record_spend r (clock (length rs)) (written clock file rs)

-- The file ends in a line feed, or there is none yet.
abbrev pub IsWhole : SpendFile → Type 0
IsWhole missing = Unit
IsWhole unreadable = ⊥
IsWhole (holds f) = f.rest ≡ none

entries_of-append : (ls ms : List Line) → entries_of (ls ++ ms) ≡ entries_of ls ++ entries_of ms
unfolding entries_of
entries_of-append [] ms = refl
entries_of-append (l ∷ ls) ms = rw (entries_of-append ls ms) (kept (entry_of l) ls ms)
  where
    kept :
        (o : Option SpendEntry) (ls ms : List Line)
        → and_entry o (entries_of ls ++ entries_of ms)
          ≡ and_entry o (entries_of ls) ++ entries_of ms
    kept none ls ms = refl
    kept (some e) ls ms = refl

reduce_total-append :
    (t : Number) (es fs : List SpendEntry)
    → reduce_total t (es ++ fs) ≡ reduce_total (reduce_total t es) fs
unfolding reduce_total
reduce_total-append t [] fs = refl
reduce_total-append t (e ∷ es) fs = reduce_total-append (t +ᴺ e.collateral) es fs

entry_of-line_of :
    (r : SpendRecord) (now : Number)
    → is_finite r.collateral ≡ true
    → (e : SpendEntry) × (entry_of (line_of r now) ≡ some e) × (e.collateral ≡ r.collateral)
unfolding entry_of line_of
entry_of-line_of r now f = number r.collateral f
  where
    number :
        (n : Number)
        → is_finite n ≡ true
        → (e : SpendEntry) × (entry_of (line_of (record r { collateral = n }) now) ≡ some e)
          × (e.collateral ≡ n)
    number (finite a) f = (_, refl, refl)
    number nan f = cc
    number infinite f = cc
    number neg_infinite f = cc

-- The total of lines to which a record's line is added.
line_total :
    (ls : List Line) (r : SpendRecord) (now : Number)
    → is_finite r.collateral ≡ true
    → reduce_total zero_number (entries_of (ls ++ (line_of r now ∷ [])))
      ≡ reduce_total zero_number (entries_of ls) +ᴺ r.collateral
unfolding entries_of reduce_total
line_total ls r now f =
    let (e, is_entry, same_amount) = entry_of-line_of r now f in
    rw
      (
        entries_of-append ls (line_of r now ∷ []),
        is_entry,
        reduce_total-append zero_number (entries_of ls) (e ∷ []),
        same_amount,
      )
      refl

-- A finite amount that is appended to a whole file is added to its total.
record_spend-total :
    (r : SpendRecord) (now total : Number) (file : SpendFile)
    → IsWhole file
    → is_finite r.collateral ≡ true
    → spent_total file ≡ some total
    → IsWhole (record_spend r now file)
      × (spent_total (record_spend r now file) ≡ some (total +ᴺ r.collateral))
unfolding record_spend spent_total read_spend
record_spend-total r now total unreadable w f h = absurd w
record_spend-total r now total missing w f h = (refl, cc (line_total [] r now f))
record_spend-total r now total (holds file) w f h = whole file.lines file.rest w h
  where
    whole :
        (ls : List Line) (rest : Option Line)
        → rest ≡ none
        → spent_total (holds (record { lines = ls; rest = rest })) ≡ some total
        → IsWhole (record_spend r now (holds (record { lines = ls; rest = rest })))
          × (spent_total (record_spend r now (holds (record { lines = ls; rest = rest })))
              ≡ some (total +ᴺ r.collateral))
    whole ls (some l) n h = cc
    whole ls none n h = (refl, cc (line_total ls r now f, h))

entries_of-torn : (ls : List Line) → entries_of (ls ++ (torn ∷ [])) ≡ entries_of ls
unfolding entries_of entry_of
entries_of-torn [] = refl
entries_of-torn (l ∷ ls) = rw (entries_of-torn ls) refl

-- An amount that is recorded behind text that a cut append left, and that is not just blanks, is
-- not in the total, whatever amount it is; the total is that of the lines before the cut text.
pub torn_ledger_loses_spend :
    (ls : List Line) (cut : Line) (r : SpendRecord) (now : Number)
    → cut ≢ blank
    → spent_total (record_spend r now (holds (record { lines = ls; rest = some cut })))
      ≡ spent_total (holds (record { lines = ls; rest = none }))
unfolding record_spend spent_total read_spend
torn_ledger_loses_spend ls blank r now n = absurd (n refl)
torn_ledger_loses_spend ls torn r now n = rw (entries_of-torn ls) refl
torn_ledger_loses_spend ls other_value r now n = rw (entries_of-torn ls) refl
torn_ledger_loses_spend ls (object at action account_id collateral) r now n =
    rw (entries_of-torn ls) refl

-- The file that the meter writes has the gate's count as its total.
pub record IsAccounted (clock : ℕ → Number) (file : SpendFile) (g : Gate) : Type 0 where
  pub metered : g.has_meter ≡ true
  pub whole : IsWhole (written clock file g.spends)
  pub total : spent_total (written clock file g.spends) ≡ some g.cumulative_collateral
  pub builds_measured : All (λ b. IsAmountIn (commits b.intent)) g.builds

told-record :
    (g : Gate) (c : Call) (i : WriteIntent) (action : String) (amount : Number)
    → g.has_meter ≡ true
    → writes_of c ≡ true
    → told (writes_of c) g i action amount
      ≡ record { action = action; account_id = i.account_id; collateral = amount } ∷ g.spends
told-record g c i action amount m w = rw (m, w) refl

module _ (clock : ℕ → Number) (file : SpendFile) where
  -- The gate's count and the file move together.
  moved :
      (g h : Gate) (r : SpendRecord)
      → IsAccounted clock file g
      → is_finite r.collateral ≡ true
      → h.has_meter ≡ g.has_meter
      → h.cumulative_collateral ≡ g.cumulative_collateral +ᴺ r.collateral
      → h.spends ≡ r ∷ g.spends
      → All (λ b. IsAmountIn (commits b.intent)) h.builds
      → IsAccounted clock file h
  moved g h r v f m c s b =
      let (w, t) =
        record_spend-total r (clock (length g.spends)) g.cumulative_collateral
          (written clock file g.spends) v.whole f v.total in
      record { metered = m ∙ v.metered; whole = rw s w; total = rw (s, c) t; builds_measured = b }

  step-IsAccounted :
      (digest_of : String → String) (g : Gate) (c : Call)
      → writes_of c ≡ true
      → IsAccounted clock file g
      → IsAccounted clock file (step digest_of g c)
  step-IsAccounted digest_of g c w v =
      let m = step-CountMove digest_of g c in
      accounted (step digest_of g c) m.same_meter (waiting_measured _ m.waiting) m.counted
    where
      waiting_measured :
          (h : Gate) → Waiting g h → All (λ b. IsAmountIn (commits b.intent)) h.builds
      waiting_measured h (same e) = rw e v.builds_measured
      waiting_measured h (fewer k e) =
          rw e (All-filter _ (λ b. not (waits_for k b)) _ v.builds_measured)
      waiting_measured h (one_more k i options now r e) =
          rw e (refusal_of-IsAmountIn g i options now r, v.builds_measured)

      accounted :
          (h : Gate)
          → h.has_meter ≡ g.has_meter
          → All (λ b. IsAmountIn (commits b.intent)) h.builds
          → Counted c g h
          → IsAccounted clock file h
      accounted h m b (nothing x y) = record {
        metered = m ∙ v.metered;
        whole = rw y v.whole;
        total = rw (y, x) v.total;
        builds_measured = b;
      }
      accounted h m b (adds i options now amount a e k x y) =
          moved g h (record { action = i.action; account_id = i.account_id; collateral = amount }) v
            (amount-finite amount (subst IsAmountIn k (refusal_of-IsAmountIn g i options now e))) m
            x (y ∙ told-record g c i i.action amount v.metered w) b
      accounted h m b (takes k d amount f e x y) =
          moved g h
            (record {
              action = text_join (d.intent.action ∷ ":released" ∷ []);
              account_id = d.intent.account_id;
              collateral = neg_number amount;
            })
            v
            (neg_number-finite amount (
              subst IsAmountIn e (
                All-find (λ j. IsAmountIn (commits j.intent)) (waits_for k) _ d v.builds_measured
                  f)))
            m x
            (y
              ∙ told-record g c d.intent (text_join (d.intent.action ∷ ":released" ∷ []))
                  (neg_number amount) v.metered w)
            b

  run-IsAccounted :
      (digest_of : String → String) (g : Gate) (past : List Call)
      → All (λ c. writes_of c ≡ true) past
      → IsAccounted clock file g
      → IsAccounted clock file (run digest_of g past)
  unfolding run
  run-IsAccounted digest_of g [] w v = v
  run-IsAccounted digest_of g (c ∷ past) w v =
      step-IsAccounted digest_of (run digest_of g past) c w.0
        (run-IsAccounted digest_of g past w.1 v)

  fresh_gate-IsAccounted :
      (mode : PolicyMode) (scope : Option PolicyScope) (n : Number)
      → IsWhole file
      → spent_total file ≡ some n
      → IsAccounted clock file (fresh_gate mode scope (some n))
  fresh_gate-IsAccounted mode scope n w t = record {
    metered = refl;
    whole = w;
    total = t;
    builds_measured = tt;
  }

  -- A gate is built with the total of a ledger that ends in a line feed. After any calls in which
  -- the meter's writes succeed, failed builds included, the total of the ledger on disk is the
  -- gate's count. So the gate of the next process starts with the count that this one ends with.
  pub restart_keeps_count :
      (digest_of : String → String) (mode : PolicyMode) (scope : Option PolicyScope)
      (signing : Bool) (n : Number) (g : Gate) (past : List Call)
      → IsWhole file
      → spent_total file ≡ some n
      → new_gate mode scope signing (some n) ≡ done g
      → All (λ c. writes_of c ≡ true) past
      → spent_total (written clock file (run digest_of g past).spends)
        ≡ some (run digest_of g past).cumulative_collateral
  restart_keeps_count digest_of mode scope signing n g past w t built ok =
      let e = (new_gate-done mode scope signing (some n) g built).1 in
      (run-IsAccounted digest_of g past ok
        (subst (IsAccounted clock file) (sym e) (fresh_gate-IsAccounted mode scope n w t))).total
