-- ===== src/Runner/Failures.antt =====
-- src/errors.ts (`WaterXApiError.retryable`) and the classification of errors in
-- src/runner/runner.ts (`isPermanentClientError`).
use Prim.Native.Char.{code}
use waterx_agent.Prelude.{ℕ, String, Bool, true, false, not, ◌||◌, ◌&&◌, List, [], ◌∷◌, leb, ◌==◌}
use waterx_agent.Runner.Types.{Failure, policy_failure, api_failure, other_failure}

-- `ErrorCode.SponsorshipRequiredForDelegate`
abbrev pub sponsorship_required_for_delegate : ℕ
sponsorship_required_for_delegate = 6003

-- `WaterXApiError.retryable`
unfoldable pub retryable : (code status : ℕ) → Bool
retryable code status = leb 500 status || code == sponsorship_required_for_delegate

-- The code points of a text.
abbrev pub codes : String → List ℕ
codes String.[] = []
codes (String.◌∷◌ c s) = code c ∷ codes s

-- `\w`
abbrev is_word : ℕ → Bool
is_word c =
    (leb b'a' c && leb c b'z')
    || (leb b'A' c && leb c b'Z')
    || (leb b'0' c && leb c b'9')
    || c == b'_'

-- Nothing, or no word character, comes next: `\b` behind a word.
abbrev at_boundary : List ℕ → Bool
at_boundary [] = true
at_boundary (c ∷ s) = not (is_word c)

-- `s.startsWith(p)`
abbrev pub is_prefix : List ℕ → List ℕ → Bool
is_prefix [] s = true
is_prefix (p ∷ ps) [] = false
is_prefix (p ∷ ps) (c ∷ s) = p == c && is_prefix ps s

-- `/^p\b/.test(s)`
abbrev pub is_word_prefix : List ℕ → List ℕ → Bool
is_word_prefix [] s = at_boundary s
is_word_prefix (p ∷ ps) [] = false
is_word_prefix (p ∷ ps) (c ∷ s) = p == c && is_word_prefix ps s

-- `s.includes(p)`
abbrev pub is_infix : List ℕ → List ℕ → Bool
is_infix p [] = is_prefix p []
is_infix p (c ∷ s) = is_prefix p (c ∷ s) || is_infix p s

unfoldable pub is_permanent_message : List ℕ → Bool
is_permanent_message m =
    is_infix (codes "ECrossingLimitOrder") m
    || is_word_prefix (codes "No open position") m
    || is_word_prefix (codes "No resting order") m
    || is_word_prefix (codes "Unknown market") m
    || is_infix (codes "is not tradeable") m

unfoldable pub is_permanent_client_error : Failure → Bool
unfolding is_permanent_message
is_permanent_client_error (policy_failure m) = true
is_permanent_client_error (api_failure code status m) = is_permanent_message (codes m)
is_permanent_client_error (other_failure m) = is_permanent_message (codes m)

-- The two tests of the `catch` in `submit`: is this refusal final?
unfoldable pub is_final : Failure → Bool
unfolding retryable is_permanent_client_error
is_final (policy_failure m) = is_permanent_client_error (policy_failure m)
is_final (api_failure code status m) =
    not (retryable code status) || is_permanent_client_error (api_failure code status m)
is_final (other_failure m) = is_permanent_client_error (other_failure m)
