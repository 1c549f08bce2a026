-- ===== src/Policy/Examples.antt =====
-- Runs of the gate (src/policy.ts) and of the spend ledger (src/agent/spend.ts), and the theorems
-- at them.
use waterx_agent.Prelude.{
  true, false, ℕ, ◌≡◌, refl, ◌↔◌, String, List, [], ◌∷◌, ◌++◌, none, some, Number, finite, pos,
  find, ◌+ᴺ◌, ◌+ℤ◌, IsAtMost, ℕ_discrete, arith, neg_number, neg_ℤ,
}
use waterx_agent.Policy.Intent.{
  WriteIntent, fingerprint_intent, field_values, defined, is_exit, Fingerprint-discrete,
  String-discrete, decided,
}
use waterx_agent.Policy.Intent.Injective.{IsPrintable, fingerprint_intent-injective}
use waterx_agent.Policy.Scope.{
  PolicyScope, is_owner_only_action, stateless_scope_violations, has_unmeasurable,
  is_scope_complete,
}
use waterx_agent.Policy.Scope.Limits.{IsInScope, stateless_scope_violations-IsInScope}
use waterx_agent.Policy.Gate.{
  Gate, Permit, read_only, delegated_auto, AuthorizeOptions, done, refused, no_permit, build_failed,
  commits, count, issue, new_permit, fresh_gate, new_gate, live_refusal, scope_refusal, refusal_of,
  authorize,
}
use waterx_agent.Policy.Gate.Accepts.{IsBelowCeilings}
use waterx_agent.Policy.Gate.Permitted.{delegated_permit}
use waterx_agent.Policy.Permits.{
  is_permit, awaited, begin_build, release, bind, built_with, end_build, objection, consume,
}
use waterx_agent.Policy.Calls.{Call, begins, ends, consumes, step, run}
use waterx_agent.Policy.Calls.Ceiling.{ceiling_holds}
use waterx_agent.Policy.Calls.Vouched.{IsAsked, IsBuilt}
use waterx_agent.Policy.Calls.Consumed.{consume_is_vouched}
use waterx_agent.Policy.Calls.Once.{consumed_once}
use waterx_agent.Policy.Calls.ReadOnly.{read_only_signs_nothing}
use waterx_agent.Policy.Calls.GivenBack.{counted, given_back, failed_build_gives_back}
use waterx_agent.Agent.Spend.{missing, read_spend, reduce_total, spent_total}
use waterx_agent.Agent.Spend.Restart.{written, restart_keeps_count}

abbrev scope : PolicyScope
scope = record {
  accounts = "A" ∷ [];
  markets = none;
  sides = none;
  max_collateral_per_order = finite (pos 100);
  max_open_collateral = finite (pos 200);
  max_cumulative_collateral = finite (pos 300);
  max_leverage = finite (pos 10);
  max_slippage_percent = finite (pos 2);
  not_after = finite (pos 9000);
}

abbrev pub open_50 : WriteIntent
open_50 = record {
  action = "openPosition";
  account_id = "A";
  increases_exposure = true;
  ticker = some "BTC";
  side = none;
  collateral = some (finite (pos 50));
  collateral_raw = none;
  leverage = some (finite (pos 5));
  slippage_percent = none;
  reduce_only = none;
  size_raw = none;
  trigger_price_raw = none;
  delegate_address = none;
  position_id = none;
  order_id = none;
  acceptable_price_raw = none;
  is_stop_order = none;
  legs = none;
  moves_funds_in = none;
  asset_type = none;
  recipient = none;
  alias = none;
  delegate_permissions = none;
  delegate_base_permissions = none;
  delegate_expires_at_ms = none;
  request_id = none;
  amount_raw = none;
}

abbrev options : AuthorizeOptions
options = record { confirm = false; open_collateral = some (finite (pos 20)) }

abbrev gate : Gate
gate = fresh_gate delegated_auto (some scope) (some (finite (pos 0)))

-- The digest of bytes is the bytes.
abbrev digest : String → String
digest bytes = bytes

gate-built : new_gate delegated_auto (some scope) true (some (finite (pos 0))) ≡ done gate
unfolding new_gate is_scope_complete
gate-built = refl

-- A build that fails, and one that comes back; the latest call stands first.
abbrev calls : List Call
calls =
    ends 1 (some "bytes") true
    ∷ begins open_50 options (finite (pos 20)) true
    ∷ ends 0 none true
    ∷ begins open_50 options (finite (pos 10)) true
    ∷ []

ceiling_holds_example : IsAtMost (run digest gate calls).cumulative_collateral (finite (pos 300))
ceiling_holds_example =
    ceiling_holds digest scope true (finite (pos 0)) gate calls gate-built
      (300, 0, omega arith, refl) (ground arith)

permit-consumed : (consume digest (run digest gate calls) 1 open_50 "bytes").1 ≡ done tt
unfolding run step begin_build end_build built_with bind release awaited authorize refusal_of
    scope_refusal live_refusal stateless_scope_violations is_owner_only_action has_unmeasurable
    is_exit count issue consume objection Fingerprint-discrete String-discrete decided
    fingerprint_intent field_values defined ℕ_discrete ◌+ᴺ◌ ◌+ℤ◌ neg_number neg_ℤ
permit-consumed = refl

consume_is_vouched_example :
    IsAsked digest gate calls 1 (fingerprint_intent open_50) × IsBuilt digest gate calls 1 "bytes"
consume_is_vouched_example =
    consume_is_vouched digest gate calls 1 open_50 "bytes" refl permit-consumed

consumed_once_example :
    (consume digest
      (run digest gate (calls ++ (consumes 1 open_50 "bytes" ∷ calls)))
      1
      open_50
      "bytes").1
    ≡ refused no_permit
consumed_once_example =
    consumed_once digest gate calls calls 1 open_50 open_50 "bytes" "bytes" refl permit-consumed

read_only-built : new_gate read_only none false none ≡ done (fresh_gate read_only none none)
unfolding new_gate
read_only-built = refl

read_only_signs_nothing_example :
    (consume digest (run digest (fresh_gate read_only none none) calls) 1 open_50 "bytes").1
    ≡ refused no_permit
read_only_signs_nothing_example =
    read_only_signs_nothing digest none false none (fresh_gate read_only none none) calls 1 open_50
      "bytes" read_only-built

open_50-accepted : refusal_of gate open_50 options (finite (pos 10)) ≡ none
unfolding refusal_of scope_refusal live_refusal stateless_scope_violations is_owner_only_action
    has_unmeasurable is_exit ◌+ᴺ◌ ◌+ℤ◌
open_50-accepted = refl

failed_build_gives_back_example :
    let r =
      end_build digest (begin_build gate open_50 options (finite (pos 10)) true).0 0 none true in
    (r.0.cumulative_collateral
      ≡ given_back (counted (finite (pos 0)) (commits open_50)) (commits open_50))
    × (find (is_permit 0) r.0.permits ≡ none)
    × (r.1 ≡ refused build_failed)
failed_build_gives_back_example =
    failed_build_gives_back digest gate open_50 options (finite (pos 10)) open_50-accepted

open_50-permitted :
    (authorize gate open_50 options (finite (pos 10)) true).1 ≡ done (new_permit 0 open_50)
unfolding authorize refusal_of scope_refusal live_refusal stateless_scope_violations
    is_owner_only_action has_unmeasurable is_exit count issue ◌+ᴺ◌ ◌+ℤ◌
open_50-permitted = refl

delegated_permit_example :
    (is_owner_only_action "openPosition" ≡ false)
    × IsInScope open_50 scope (finite (pos 10))
    × ((amount : Number)
        → commits open_50 ≡ some amount
        → IsBelowCeilings (finite (pos 0)) scope (some (finite (pos 20))) amount)
    × (◌≡◌ {A = Permit} (new_permit 0 open_50) (new_permit 0 open_50))
delegated_permit_example =
    delegated_permit gate scope open_50 options (finite (pos 10)) true (new_permit 0 open_50) refl
      refl open_50-permitted

open_50-IsPrintable : IsPrintable open_50
unfolding IsPrintable
open_50-IsPrintable = ground arith

fingerprint_intent-injective_example : open_50 ≡ open_50
fingerprint_intent-injective_example =
    fingerprint_intent-injective open_50 open_50 open_50-IsPrintable open_50-IsPrintable refl

stateless_scope_violations-IsInScope_example :
    (stateless_scope_violations open_50 scope (finite (pos 10)) ≡ [])
    ↔ IsInScope open_50 scope (finite (pos 10))
stateless_scope_violations-IsInScope_example =
    stateless_scope_violations-IsInScope open_50 scope (finite (pos 10))

abbrev clock : ℕ → Number
clock n = finite (pos n)

no_file-total : spent_total missing ≡ some (finite (pos 0))
unfolding spent_total read_spend reduce_total
no_file-total = refl

restart_keeps_count_example :
    spent_total (written clock missing (run digest gate calls).spends)
    ≡ some (run digest gate calls).cumulative_collateral
restart_keeps_count_example =
    restart_keeps_count clock missing digest delegated_auto (some scope) true (finite (pos 0)) gate
      calls tt no_file-total gate-built (refl, (refl, (refl, (refl, tt))))
