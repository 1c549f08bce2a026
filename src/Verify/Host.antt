-- ===== src/Verify/Host.antt =====
-- What the checks of src/chain/verify.ts take from elsewhere: the Sui library's decoder, Node's text
-- decoder, and the generated tables of src/chain/abi.generated.ts and of the recorded layouts.
use waterx_agent.Prelude.{ℕ, String, List, [], Option, none, some}
use waterx_agent.Verify.Text.{Text}
use waterx_agent.Verify.Transaction.{Decoded, Bytes}

pub record AbiEntry : Type 0 where
  pub pkg : String
  pub params : List String
  pub types : List (Option String)

pub record Host : Type 0 where
  pub decode : String → Option Decoded
  pub utf8 : Bytes → Text
  pub abi : String → Option AbiEntry
  pub known_functions : Text → Option (List ℕ)
  pub uncaptured : List String
  pub one : ℕ

-- `ABI[entrypoint]?.pkg ?? ""`
abbrev pub pkg_of : Option AbiEntry → String
pkg_of none = ""
pkg_of (some e) = e.pkg

abbrev pub params_of : Option AbiEntry → List String
params_of none = []
params_of (some e) = e.params
