-- ===== src/Units/Raw.antt =====
-- What goes to the backend is exactly the amount that was written, within the width.
use waterx_agent.Prelude.{ℕ, ◌≤◌, some, ◌≡◌}
use waterx_agent.Verify.Text.{Text}
use waterx_agent.Units.{Amount, text_of, numeral}
use waterx_agent.Units.Exact.{IsExactly}

-- The amount has a text that is a decimal of few enough places, and the answer is the numeral of its
-- units, which fit.
abbrev pub IsRaw : (decimals max one : ℕ) → Amount → Text → Type 0
IsRaw decimals max one amount t =
    (s : Text) × (n : ℕ) × (text_of one amount ≡ some s)
    × IsExactly decimals s n
    × (n ≤ max)
    × (t ≡ numeral n)
