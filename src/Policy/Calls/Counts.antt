-- ===== src/Policy/Calls/Counts.antt =====
-- src/policy.ts: what one call does to the count, to what the meter has written, and to the builds.
pub mod Steps
use waterx_agent.Prelude.{
  ℕ, suc, ◌≡◌, refl, String, Bool, true, false, List, ◌∷◌, Option, none, some, Number, find, filter,
  if◌then◌else◌, not, ◌&&◌, if_both, Option-cases, inl, inr, ◌+ᴺ◌, neg_number, text_join, [],
}
use waterx_agent.Policy.Intent.{WriteIntent, fingerprint_intent}
use waterx_agent.Policy.Gate.{
  Gate, Permit, Building, SpendRecord, AuthorizeOptions, PolicyRefusal, Outcome, done, refused,
  ledger_failed, authorize, count, issue, commit, commits, refusal_of,
}
use waterx_agent.Policy.Permits.{
  is_permit, delete_permit, waits_for, stop_waiting, awaited, begin_build, release, bind_free, bind,
  rethrown, built_with, end_build, objection, take_permit, consume,
}
use waterx_agent.Policy.Calls.{Call, authorizes, begins, ends, consumes, step, asks_for}

-- Whether the meter's write succeeds in the call, if the call writes.
abbrev pub writes_of : Call → Bool
writes_of (authorizes i options now writes) = writes
writes_of (begins i options now writes) = writes
writes_of (ends id built writes) = writes
writes_of (consumes id i bytes) = true

-- What the meter has written, once it was told an amount.
abbrev pub told : Bool → Gate → WriteIntent → String → Number → List SpendRecord
told writes g i action amount =
    if g.has_meter && writes
    then record { action = action; account_id = i.account_id; collateral = amount } ∷ g.spends
    else g.spends

pub data Counted (c : Call) (g h : Gate) : Type 0 where
  nothing : h.cumulative_collateral ≡ g.cumulative_collateral → h.spends ≡ g.spends → Counted c g h
  adds :
      (i : WriteIntent) (options : AuthorizeOptions) (now amount : Number)
      → asks_for c ≡ some (i, options, now)
      → refusal_of g i options now ≡ none
      → commits i ≡ some amount
      → h.cumulative_collateral ≡ g.cumulative_collateral +ᴺ amount
      → h.spends ≡ told (writes_of c) g i i.action amount
      → Counted c g h
  takes :
      (k : ℕ) (b : Building) (amount : Number)
      → find (waits_for k) g.builds ≡ some b
      → commits b.intent ≡ some amount
      → h.cumulative_collateral ≡ g.cumulative_collateral +ᴺ neg_number amount
      → h.spends
        ≡ told
            (writes_of c)
            g
            b.intent
            (text_join (b.intent.action ∷ ":released" ∷ []))
            (neg_number amount)
      → Counted c g h

pub data Waiting (g h : Gate) : Type 0 where
  same : h.builds ≡ g.builds → Waiting g h
  fewer : (k : ℕ) → h.builds ≡ filter (λ b. not (waits_for k b)) g.builds → Waiting g h
  one_more :
      (k : ℕ) (i : WriteIntent) (options : AuthorizeOptions) (now : Number)
      → refusal_of g i options now ≡ none
      → h.builds ≡ record { permit = k; intent = i } ∷ g.builds
      → Waiting g h

pub record CountMove (c : Call) (g h : Gate) : Type 0 where
  pub same_mode : h.mode ≡ g.mode
  pub same_scope : h.scope ≡ g.scope
  pub same_meter : h.has_meter ≡ g.has_meter
  pub counted : Counted c g h
  pub waiting : Waiting g h
