-- ===== src/Policy/Gate.antt =====
-- src/policy.ts, `PolicyGate`. A call of `authorizeAndBuild` waits for its build between two steps,
-- so it is two operations here, and other calls may come between them.
pub mod Accepts
pub mod Permitted
use waterx_agent.Prelude.{
  ℕ, suc, String, Bool, true, false, not, ◌&&◌, ◌||◌, List, [], ◌∷◌, Option, none, some, Number,
  is_finite, gtb_number, zero_number, ◌+ᴺ◌, if◌then◌else◌, get_or_else, is_some,
}
use waterx_agent.Policy.Intent.{WriteIntent, Fingerprint, fingerprint_intent, is_exit}
use waterx_agent.Policy.Scope.{
  PolicyScope, Violation, is_owner_only_action, stateless_scope_violations, is_unmetered,
  has_unmeasurable, is_scope_complete,
}

pub data PolicyMode : Type 0 where
  read_only interactive delegated_auto : PolicyMode

-- A permit is an object, known by its identity.
pub record Permit : Type 0 where
  pub id : ℕ
  pub action : String
  pub fingerprint : Fingerprint
  pub bound_to : Option String

-- What the meter is told.
pub record SpendRecord : Type 0 where
  pub action : String
  pub account_id : String
  pub collateral : Number

-- A call of `authorizeAndBuild` that waits for its build.
pub record Building : Type 0 where
  pub permit : ℕ
  pub intent : WriteIntent

-- `spends` is what the meter has written. `next_permit` stands for the identity of a new object.
pub record Gate : Type 0 where
  pub mode : PolicyMode
  pub scope : Option PolicyScope
  pub cumulative_collateral : Number
  pub has_meter : Bool
  pub spends : List SpendRecord
  pub permits : List Permit
  pub builds : List Building
  pub next_permit : ℕ

pub data PolicyRefusal : Type 0 where
  no_scope incomplete_scope owner_key : PolicyRefusal
  unmeasurable policy_is_read_only unconfirmed owner_only : PolicyRefusal
  out_of_scope : Violation → PolicyRefusal
  open_not_measured open_unusable open_ceiling cumulative_ceiling : PolicyRefusal
  no_permit already_bound other_intent never_bound other_bytes : PolicyRefusal
  ledger_failed build_failed : PolicyRefusal

pub data Outcome (A : Type 0) : Type 0 where
  done : A → Outcome A
  refused : PolicyRefusal → Outcome A

pub record AuthorizeOptions : Type 0 where
  pub confirm : Bool
  pub open_collateral : Option Number

-- A gate that has authorized nothing. `spent` is the meter's, if there is one.
abbrev pub fresh_gate : PolicyMode → Option PolicyScope → Option Number → Gate
fresh_gate mode scope spent = record {
  mode = mode;
  scope = scope;
  cumulative_collateral = get_or_else spent zero_number;
  has_meter = is_some spent;
  spends = [];
  permits = [];
  builds = [];
  next_permit = 0;
}

-- What the constructor refuses.
abbrev pub construction_refusal : PolicyMode → Option PolicyScope → Bool → Option PolicyRefusal
construction_refusal delegated_auto none signing_as_delegate = some no_scope
construction_refusal delegated_auto (some s) signing_as_delegate =
    if not (is_scope_complete s)
    then some incomplete_scope
    else if not signing_as_delegate
    then some owner_key
    else none
construction_refusal interactive scope signing_as_delegate = none
construction_refusal read_only scope signing_as_delegate = none

abbrev pub unless_refused : {A : Type 0} → Option PolicyRefusal → A → Outcome A
unless_refused none a = done a
unless_refused (some r) a = refused r

-- The constructor.
unfoldable pub new_gate : PolicyMode → Option PolicyScope → Bool → Option Number → Outcome Gate
new_gate mode scope signing_as_delegate spent =
    unless_refused (construction_refusal mode scope signing_as_delegate)
      (fresh_gate mode scope spent)

-- The ceilings of `assertInScope` that read live state, for an intent that commits `amount`.
unfoldable pub live_refusal : Number → PolicyScope → Option Number → Number → Option PolicyRefusal
live_refusal cumulative s measured amount = elim measured [
  | none ↦ some open_not_measured
  | some opened ↦
      if not (is_finite opened) || gtb_number zero_number opened
      then some open_unusable
      else if gtb_number (opened +ᴺ amount) s.max_open_collateral
      then some open_ceiling
      else if gtb_number (cumulative +ᴺ amount) s.max_cumulative_collateral
      then some cumulative_ceiling
      else none
]

-- The part of `assertInScope` behind the stateless rules.
abbrev pub metered_refusal :
    Number → PolicyScope → WriteIntent → Option Number → Option PolicyRefusal
metered_refusal cumulative s i measured =
    if is_unmetered i
    then none
    else elim i.collateral [ none ↦ none | some amount ↦ live_refusal cumulative s measured amount ]

-- `settled[0]` comes first, then the rest.
abbrev pub first_refusal : List Violation → Option PolicyRefusal → Option PolicyRefusal
first_refusal (violation ∷ others) rest = some (out_of_scope violation)
first_refusal [] rest = rest

-- `assertInScope`
unfoldable pub scope_refusal :
    Number → PolicyScope → WriteIntent → AuthorizeOptions → Number → Option PolicyRefusal
unfolding live_refusal
scope_refusal cumulative s i options now =
    first_refusal (stateless_scope_violations i s now)
      (metered_refusal cumulative s i options.open_collateral)

abbrev pub mode_refusal :
    PolicyMode
    → Option PolicyScope
    → Number
    → WriteIntent
    → AuthorizeOptions
    → Number
    → Option PolicyRefusal
mode_refusal read_only scope cumulative i options now = some policy_is_read_only
mode_refusal interactive scope cumulative i options now =
    if options.confirm then none else some unconfirmed
mode_refusal delegated_auto scope cumulative i options now =
    if is_owner_only_action i.action
    then some owner_only
    else elim scope [ none ↦ some no_scope | some s ↦ scope_refusal cumulative s i options now ]

-- What `authorize` decides before it changes anything.
unfoldable pub refusal_of : Gate → WriteIntent → AuthorizeOptions → Number → Option PolicyRefusal
unfolding scope_refusal
refusal_of g i options now =
    if has_unmeasurable i
    then some unmeasurable
    else mode_refusal g.mode g.scope g.cumulative_collateral i options now

-- What an intent commits: its collateral, unless its action is an exit.
abbrev pub commits : WriteIntent → Option Number
commits i = if is_exit i.action then none else i.collateral

-- Counts an amount, and tells the meter. `writes` says whether the meter's write succeeds; the
-- amount is counted either way.
unfoldable pub count : Gate → WriteIntent → String → Number → (writes : Bool) → Gate
count g i action amount writes = record g {
  cumulative_collateral = g.cumulative_collateral +ᴺ amount;
  spends =
      if g.has_meter && writes
      then record { action = action; account_id = i.account_id; collateral = amount } ∷ g.spends
      else g.spends;
}

abbrev pub new_permit : ℕ → WriteIntent → Permit
new_permit id i = record {
  id = id;
  action = i.action;
  fingerprint = fingerprint_intent i;
  bound_to = none;
}

unfoldable pub issue : Gate → WriteIntent → Gate × Outcome Permit
issue g i =
    let permit : Permit = new_permit g.next_permit i in
    (record g { permits = permit ∷ g.permits; next_permit = suc g.next_permit }, done permit)

-- The commitment and the permit, once nothing refuses.
abbrev pub commit : Gate → WriteIntent → Bool → Option Number → Gate × Outcome Permit
commit g i writes none = issue g i
commit g i writes (some amount) =
    if g.has_meter && not writes
    then (count g i i.action amount writes, refused ledger_failed)
    else issue (count g i i.action amount writes) i

-- `authorize`
unfoldable pub authorize :
    Gate → WriteIntent → AuthorizeOptions → (now : Number) → (writes : Bool) → Gate × Outcome Permit
unfolding refusal_of count issue
authorize g i options now writes = elim (refusal_of g i options now) [
  | some refusal ↦ (g, refused refusal)
  | none ↦ commit g i writes (commits i)
]
