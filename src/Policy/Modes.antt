-- ===== src/Policy/Modes.antt =====
-- src/policy.ts: the ranking of the modes, `narrowOnly`, `policyChoices` and `nextAfterAdoption`.
use waterx_agent.Prelude.{
  ℕ, Bool, true, false, not, ◌&&◌, List, [], ◌∷◌, Option, none, some, ltb, if◌then◌else◌, ◌≡◌, refl,
}
use waterx_agent.Policy.Gate.{PolicyMode, read_only, interactive, delegated_auto}

-- `RANK`
abbrev pub rank_of : PolicyMode → ℕ
rank_of read_only = 0
rank_of interactive = 1
rank_of delegated_auto = 2

abbrev pub policy_modes : List PolicyMode
policy_modes = read_only ∷ interactive ∷ delegated_auto ∷ []

-- `narrowOnly`: no result where it throws.
unfoldable pub narrow_only : (configured override : PolicyMode) → Option PolicyMode
narrow_only configured override =
    if ltb (rank_of configured) (rank_of override) then none else some override

-- The commands that the choices and `nextAfterAdoption` name, as data in place of their text.
pub data Command : Type 0 where
  sets : PolicyMode → (with_yes : Bool) → Command
  writes_limits shows_policy shows_next : Command

pub record PolicyChoice : Type 0 where
  pub mode : PolicyMode
  pub current : Bool
  pub requires_command : Option Command
  pub widens : Bool
  pub command : Command

abbrev pub is_mode : PolicyMode → PolicyMode → Bool
is_mode read_only read_only = true
is_mode interactive interactive = true
is_mode delegated_auto delegated_auto = true
is_mode _ _ = false

abbrev pub choice_of : PolicyMode → (has_scope : Bool) → PolicyMode → PolicyChoice
choice_of current has_scope mode =
    let widens = ltb (rank_of current) (rank_of mode) in
    record {
      mode = mode;
      current = is_mode mode current;
      requires_command =
          if is_mode mode delegated_auto && not has_scope then some writes_limits else none;
      widens = widens;
      command = sets mode widens;
    }

-- `policyChoices`
unfoldable pub policy_choices : PolicyMode → (has_scope : Bool) → List PolicyChoice
policy_choices current has_scope =
    choice_of current has_scope read_only
    ∷ choice_of current has_scope interactive
    ∷ choice_of current has_scope delegated_auto
    ∷ []

-- `nextAfterAdoption`
unfoldable pub next_after_adoption : PolicyMode → Command
next_after_adoption read_only = shows_policy
next_after_adoption _ = shows_next

-- Under interactive, a choice to sign without a person asks for a confirmation, and for a scope.
widening_choice :
    policy_choices interactive false
    ≡ record {
      mode = read_only;
      current = false;
      requires_command = none;
      widens = false;
      command = sets read_only false;
    }
      ∷ record {
        mode = interactive;
        current = true;
        requires_command = none;
        widens = false;
        command = sets interactive false;
      }
      ∷ record {
        mode = delegated_auto;
        current = false;
        requires_command = some writes_limits;
        widens = true;
        command = sets delegated_auto true;
      }
      ∷ []
unfolding policy_choices
widening_choice = refl
