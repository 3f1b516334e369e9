-- ===== src/Diagnostic/Data.antt =====
-- The diagnostics and the source texts of include/cc1/Basic/Diagnostic.hpp.
use tensorium_cc.Prelude.{
  ℕ, Option, none, some, List, [], ◌∷◌, if◌then◌else◌, Bytes, String, str_eq,
}

pub data DiagnosticLevel : Type 0 where
  note warning error fatal : DiagnosticLevel

pub record Diagnostic : Type 0 where
  pub level : DiagnosticLevel
  pub filename : String
  pub line : ℕ
  pub col : ℕ
  pub message : Bytes
  pub length : ℕ

pub record SourceText : Type 0 where
  pub text : Bytes
  pub line_starts : List ℕ

unfoldable pub find_source : String → List (String × SourceText) → Option SourceText
find_source name [] = none
find_source name ((other, text) ∷ rest) =
    if str_eq other name then some text else find_source name rest
