-- ===== src/Verify/Transaction.antt =====
-- src/chain/verify.ts: a decoded transaction, as far as the checks read it, and its arguments.
-- Decoding is the Sui library's.
use waterx_agent.Prelude.{ℕ, String, Bool, List, Option, none, some, get_elem?}

abbrev pub Bytes : Type 0
Bytes = List ℕ

pub data Argument : Type 0 where
  input : ℕ → Argument
  result : ℕ → Argument
  nested_result : ℕ → ℕ → Argument
  gas_coin : Argument

pub record MoveCall : Type 0 where
  pub package_id : String
  pub module_name : String
  pub function : String
  pub type_arguments : List String
  pub arguments : List Argument

-- A command of another kind carries its kind and every argument that its payload holds.
pub data Command : Type 0 where
  move_call : MoveCall → Command
  make_move_vec : List Argument → Command
  other_command : String → List Argument → Command

pub record Withdrawal : Type 0 where
  pub max_amount_u64 : Option String
  pub balance : Option String
  pub from_sender : Bool

-- An input of another kind carries its kind.
pub data Input : Type 0 where
  pure : Bytes → Input
  shared_object : String → Input
  funds_withdrawal : Withdrawal → Input
  other_input : String → Input

pub record Decoded : Type 0 where
  pub commands : List Command
  pub inputs : List Input
  pub sender : Option String
  pub gas_owner : Option String

abbrev pub call_of : Option Command → Option MoveCall
call_of (some (move_call c)) = some c
call_of _ = none

-- `data.commands[index]?.MoveCall`
abbrev pub call_at : Decoded → ℕ → Option MoveCall
call_at d i = call_of (get_elem? d.commands i)

-- `argumentsOf`
abbrev pub arguments_of : Command → List Argument
arguments_of (move_call c) = c.arguments
arguments_of (make_move_vec elements) = elements
arguments_of (other_command kind arguments) = arguments

abbrev pub pure_input : Option Input → Option Bytes
pure_input (some (pure bytes)) = some bytes
pure_input _ = none

abbrev pub pure_argument : Decoded → Option Argument → Option Bytes
pure_argument d (some (input i)) = pure_input (get_elem? d.inputs i)
pure_argument d _ = none

-- `pureAt`
abbrev pub pure_at : Decoded → List Argument → ℕ → Option Bytes
pure_at d args i = pure_argument d (get_elem? args i)
