-- ===== src/Verify/Reach.antt =====
-- src/chain/verify.ts: `reachableFrom`, the walk from a call to all that its arguments come from.
pub mod Ends
use waterx_agent.Prelude.{
  ℕ, zero, suc, String, Bool, true, false, ◌&&◌, ◌||◌, List, [], ◌∷◌, ◌++◌, Option, none, some,
  ◌==◌, if◌then◌else◌, str_eq, get_elem?, length,
}
use waterx_agent.Verify.Text.{Text, codes, eq_text, normalize_package}
use waterx_agent.Verify.Transaction.{
  Argument, input, result, nested_result, gas_coin, MoveCall, Command, move_call, Input, pure,
  Decoded, arguments_of, pure_input, Bytes,
}
use waterx_agent.Verify.Bindings.{order_arg_constructor}
use waterx_agent.Verify.Arguments.{name_of}

pub record Walk : Type 0 where
  pub inputs : List Bytes
  pub constructors : List ℕ
  pub seen : List ℕ

abbrev pub member : ℕ → List ℕ → Bool
member i [] = false
member i (j ∷ js) = i == j || member i js

abbrev pub is_of_package : Option Text → MoveCall → Bool
is_of_package none c = true
is_of_package (some p) c = eq_text (normalize_package (codes c.package_id)) p

-- A call of the order's constructor, in its package where the deployment names that.
unfoldable pub is_constructor : Option Text → Command → Bool
unfolding name_of eq_text normalize_package
is_constructor p (move_call c) = str_eq (name_of c) order_arg_constructor && is_of_package p c
is_constructor p _ = false

abbrev pub add_input : Option Bytes → Walk → Walk
add_input none w = w
add_input (some bytes) w = record w { inputs = w.inputs ++ (bytes ∷ []) }

abbrev pub mark : ℕ → Walk → Walk
mark i w = record w { seen = i ∷ w.seen }

unfoldable pub note_constructor : Option Text → ℕ → Command → Walk → Walk
unfolding is_constructor
note_constructor p i command w =
    if is_constructor p command then record w { constructors = w.constructors ++ (i ∷ []) } else w

abbrev pub nothing_seen : Walk
nothing_seen = record { inputs = []; constructors = []; seen = [] }

abbrev pub and_then : Option Walk → (Walk → Option Walk) → Option Walk
and_then none k = none
and_then (some w) k = k w

module _ (t : Decoded) (p : Option Text) where
  -- The arguments in order, where `walk` walks to a command.
  unfoldable pub walk_arguments : (ℕ → Walk → Option Walk) → List Argument → Walk → Option Walk
  walk_arguments walk [] w = some w
  walk_arguments walk (input i ∷ rest) w =
      walk_arguments walk rest (add_input (pure_input (get_elem? t.inputs i)) w)
  walk_arguments walk (result i ∷ rest) w = and_then (walk i w) (walk_arguments walk rest)
  walk_arguments walk (nested_result i j ∷ rest) w = and_then (walk i w) (walk_arguments walk rest)
  walk_arguments walk (gas_coin ∷ rest) w = walk_arguments walk rest w

  unfoldable pub visit : (ℕ → Walk → Option Walk) → ℕ → Option Command → Walk → Option Walk
  unfolding walk_arguments note_constructor
  visit walk i none w = some w
  visit walk i (some command) w =
      walk_arguments walk (arguments_of command) (note_constructor p i command w)

  -- `walk`. Fuel bounds the depth of the calls; `none` is that it ran out.
  unfoldable pub walk : ℕ → ℕ → Walk → Option Walk
  unfolding visit
  walk zero i w = none
  walk (suc fuel) i w =
      let deeper = visit (walk fuel) i (get_elem? t.commands i) (mark i w) in
      if member i w.seen then some w else deeper

  -- One more than the commands is enough.
  abbrev pub walked : ℕ → Option Walk
  walked i = walk (suc (length t.commands)) i nothing_seen

abbrev walk_or : Option Walk → Walk → Walk
walk_or none w = w
walk_or (some v) w = v

-- `reachableFrom`
unfoldable pub reachable_from : Decoded → Option Text → ℕ → Walk
unfolding walk
reachable_from t p i = walk_or (walked t p i) nothing_seen
