-- ===== src/Verify/Arguments/Bound.antt =====
-- A call that `checkArguments` lets pass: every parameter that the ABI names is bound, or free.
use waterx_agent.Prelude.{
  ℕ, String, List, [], ◌∷◌, Option, none, some, ◌==◌, length, ◌≡◌, refl, All, ==_iff,
}
use waterx_agent.Policy.Intent.{WriteIntent}
use waterx_agent.Verify.Transaction.{MoveCall, Decoded, call_at}
use waterx_agent.Verify.Deployment.{Deployment}
use waterx_agent.Verify.Bindings.{Binding, BindingTable, bindings}
use waterx_agent.Verify.Host.{Host, AbiEntry}
use waterx_agent.Verify.Arguments.{
  binding_for, check_binding, check_params, check_call_arguments, check_arguments,
}
use waterx_agent.Verify.Arguments.Holds.{Holds}
use waterx_agent.Verify.Arguments.Checked.{binding-Holds}
use waterx_agent.Verify.Refusal.{check_each_sound, numbered, if-elsewhere, wrong_arity}

module _ (h : Host) (d : Deployment) (t : Decoded) (intent : WriteIntent)
    (overrides : BindingTable) where
  -- A parameter has a binding, and the argument in its place is what that asks for.
  abbrev pub IsBoundParam : MoveCall → AbiEntry → BindingTable → ℕ × String → Type 0
  IsBoundParam c abi table (i, name) =
      (b : Binding) × (binding_for overrides table name ≡ some b) × Holds h d t intent c abi i b

  pub record IsBoundCall (entrypoint : String) (i : ℕ) : Type 0 where
    pub call : MoveCall
    pub abi : AbiEntry
    pub table : BindingTable
    pub called : call_at t i ≡ some call
    pub declared : h.abi entrypoint ≡ some abi
    pub tabled : bindings entrypoint ≡ some table
    pub arity : length call.arguments ≡ length abi.types
    pub params : All (IsBoundParam call abi table) (numbered 0 abi.params)

  param_bound :
      (c : MoveCall) (abi : AbiEntry) (table : BindingTable) (i : ℕ) (name : String)
      (b : Option Binding)
      → binding_for overrides table name ≡ b
      → check_binding h d t intent c abi i b ≡ none
      → IsBoundParam c abi table (i, name)
  unfolding check_binding
  param_bound c abi table i name none p k = absurd (cc)
  param_bound c abi table i name (some b) p k = (b, p, binding-Holds h d t intent c abi i b k)

  params_bound :
      (c : MoveCall) (abi : AbiEntry) (table : BindingTable) (places : List (ℕ × String))
      → All
          (λ (i, name).
            check_binding h d t intent c abi i (binding_for overrides table name) ≡ none)
          places
      → All (IsBoundParam c abi table) places
  params_bound c abi table [] k = tt
  params_bound c abi table ((i, name) ∷ places) k =
      (param_bound c abi table i name _ refl k.0, params_bound c abi table places k.1)

  bound_by :
      (entrypoint : String) (i : ℕ) (c : MoveCall) (abi : Option AbiEntry)
      (table : Option BindingTable)
      → call_at t i ≡ some c
      → h.abi entrypoint ≡ abi
      → bindings entrypoint ≡ table
      → check_params h d t intent overrides c abi table ≡ none
      → IsBoundCall entrypoint i
  unfolding check_params
  bound_by entrypoint i c none table p q r k = absurd (cc)
  bound_by entrypoint i c (some abi) none p q r k = absurd (cc)
  bound_by entrypoint i c (some abi) (some table) p q r k =
      let (same, each) = if-elsewhere (length c.arguments == length abi.types) _ wrong_arity k in
      record {
        call = c;
        abi = abi;
        table = table;
        called = p;
        declared = q;
        tabled = r;
        arity = (==_iff _ _).0 same;
        params = params_bound c abi table (numbered 0 abi.params) (check_each_sound _ _ each);
      }

  call_bound :
      (entrypoint : String) (i : ℕ) (c : Option MoveCall)
      → call_at t i ≡ c
      → check_call_arguments h d t intent overrides entrypoint c ≡ none
      → IsBoundCall entrypoint i
  unfolding check_call_arguments
  call_bound entrypoint i none p k = absurd (cc)
  call_bound entrypoint i (some c) p k = bound_by entrypoint i c _ _ p refl refl k

  pub arguments-IsBoundCall :
      (entrypoint : String) (i : ℕ)
      → check_arguments h d t intent overrides entrypoint i ≡ none
      → IsBoundCall entrypoint i
  unfolding check_arguments
  arguments-IsBoundCall entrypoint i k = call_bound entrypoint i (call_at t i) refl k
