-- ===== src/Policy/Calls.antt =====
-- src/policy.ts, `PolicyGate`: any sequence of calls on one gate, a build's two steps apart.
pub mod Moves
pub mod GivenBack
pub mod ReadOnly
pub mod Ceiling
pub mod Counts
pub mod Vouched
pub mod Consumed
pub mod Once
use waterx_agent.Prelude.{ℕ, String, Bool, List, [], ◌∷◌, Option, none, some, Number}
use waterx_agent.Policy.Intent.{WriteIntent}
use waterx_agent.Policy.Gate.{Gate, AuthorizeOptions, authorize}
use waterx_agent.Policy.Permits.{begin_build, end_build, consume}

-- `writes` says whether the meter's write succeeds in the call.
pub data Call : Type 0 where
  authorizes begins :
      (intent : WriteIntent) (options : AuthorizeOptions) (now : Number) (writes : Bool) → Call
  ends : (permit : ℕ) (built : Option String) (writes : Bool) → Call
  consumes : (permit : ℕ) (intent : WriteIntent) (bytes : String) → Call

unfoldable pub step : (digest_of : String → String) → Gate → Call → Gate
step digest_of g (authorizes i options now writes) = (authorize g i options now writes).0
step digest_of g (begins i options now writes) = (begin_build g i options now writes).0
step digest_of g (ends id built writes) = (end_build digest_of g id built writes).0
step digest_of g (consumes id i bytes) = (consume digest_of g id i bytes).0

-- The gate after the calls, the latest of which stands first.
unfoldable pub run : (digest_of : String → String) → Gate → List Call → Gate
run digest_of g [] = g
run digest_of g (c ∷ past) = step digest_of (run digest_of g past) c

-- The intent that a call asks a permit for.
abbrev pub asks_for : Call → Option (WriteIntent × AuthorizeOptions × Number)
asks_for (authorizes i options now writes) = some (i, options, now)
asks_for (begins i options now writes) = some (i, options, now)
asks_for _ = none

-- The bytes that a call brings from the build.
abbrev pub brings : Call → Option (ℕ × String)
brings (ends id (some bytes) writes) = some (id, bytes)
brings _ = none
