-- ===== src/Preprocessor/State.antt =====
-- The members of class Preprocessor (include/cc1/Lex/Preprocessor.hpp), and how its methods end.
use tensorium_cc.Prelude.{
  ℕ, Bool, true, false, ◌&&◌, ◌||◌, not, Option, none, some, List, [], ◌∷◌, if◌then◌else◌, Bytes,
  String, codes, same_bytes,
}
use tensorium_cc.Location.{SourceLoc}
use tensorium_cc.Diagnostic.{DiagnosticEngine, error, report}
use tensorium_cc.LangOptions.{LangOptions, is_c89}
use tensorium_cc.Numeral.{Conversion}
use tensorium_cc.Sources.{FilePointer, SourceManager, Contents}
use tensorium_cc.Preprocessor.{PpToken}

pub record Macro : Type 0 where
  pub function_like : Bool
  pub variadic : Bool
  pub parameters : List Bytes
  pub replacement : List PpToken

-- What the standard library and the file system do for the preprocessor: the path of a header in the
-- directory of a file or in a named one, whether a regular file stands there, what a file holds, the
-- canonical name of a path, and std::stod.
pub record System : Type 0 where
  pub beside : String → Bytes → String
  pub inside : Bytes → Bytes → String
  pub is_regular_file : String → Bool
  pub read : String → Contents
  pub key : String → String
  pub stod : Bytes → Conversion

-- The members that the constructor sets and nothing changes.
pub record Setting : Type 0 where
  pub main : FilePointer
  pub options : LangOptions
  pub include_dirs : List Bytes
  pub date : Bytes
  pub time : Bytes
  pub system : System

-- The other members. The diagnostic engine is the one that `sources` reports to as well.
pub record State : Type 0 where
  pub sources : SourceManager
  pub macros : List (Bytes × Macro)
  pub once : List String
  pub visited : List String
  pub output : List PpToken
  pub end : SourceLoc
  pub cursor : ℕ
  pub expansions : ℕ
  pub ran : Bool

-- How a method ends: it returns true, with what it computed; it returns false; it reads a vector out of
-- range; or it is not through when the fuel is spent.
pub data Outcome (A : Type 0) : Type 0 where
  ok : A → State → Outcome A
  failed : State → Outcome A
  out_of_range : Outcome A
  out_of_fuel : Outcome A

infixl 5 ◌>>=◌
abbrev pub ◌>>=◌ : {A B : Type 0} → Outcome A → (A → State → Outcome B) → Outcome B
ok a p >>= f = f a p
failed p >>= f = failed p
out_of_range >>= f = out_of_range
out_of_fuel >>= f = out_of_fuel

-- `_diag`.
abbrev pub engine : State → DiagnosticEngine
engine p = p.sources.diagnostics

abbrev pub with_engine : DiagnosticEngine → State → State
with_engine d p = record p { sources = record p.sources { diagnostics = d } }

-- `_diag.error(at, message)`.
unfoldable pub report_at : SourceLoc → Bytes → State → State
report_at at message p = with_engine (report error at message 1 (engine p)) p

-- The same, followed by `return false`.
abbrev pub fail : {A : Type 0} → SourceLoc → Bytes → State → Outcome A
fail at message p = failed (report_at at message p)

-- The map `_macros`.
unfoldable pub find_macro : Bytes → List (Bytes × Macro) → Option Macro
find_macro name [] = none
find_macro name ((other, m) ∷ rest) = if same_bytes other name then some m else find_macro name rest

unfoldable pub put_macro : Bytes → Macro → List (Bytes × Macro) → List (Bytes × Macro)
put_macro name m [] = (name, m) ∷ []
put_macro name m ((other, n) ∷ rest) =
    if same_bytes other name then (other, m) ∷ rest else (other, n) ∷ put_macro name m rest

unfoldable pub erase_macro : Bytes → List (Bytes × Macro) → List (Bytes × Macro)
erase_macro name [] = []
erase_macro name ((other, n) ∷ rest) =
    if same_bytes other name then rest else (other, n) ∷ erase_macro name rest

-- Whether a vector of names, or a hide set, holds a name.
unfoldable pub member : Bytes → List Bytes → Bool
member name [] = false
member name (other ∷ rest) = same_bytes other name || member name rest

unfoldable pub is_predefined : LangOptions → Bytes → Bool
is_predefined options name =
    same_bytes name (codes "__FILE__")
    || same_bytes name (codes "__LINE__")
    || same_bytes name (codes "__DATE__")
    || same_bytes name (codes "__TIME__")
    || same_bytes name (codes "__STDC__")
    || same_bytes name (codes "__STDC_HOSTED__")
    || same_bytes name (codes "__STDC_VERSION__") && not (is_c89 options.std)

abbrev pub present : {A : Type 0} → Option A → Bool
present none = false
present (some a) = true

unfoldable pub is_defined : LangOptions → State → Bytes → Bool
is_defined options p name = is_predefined options name || present (find_macro name p.macros)
