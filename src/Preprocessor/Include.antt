-- ===== src/Preprocessor/Include.antt =====
-- `include` of lib/Lex/Preprocessor.cpp.
pub mod Returns
use tensorium_cc.Prelude.{
  ℕ, ◌-◌, Bool, true, false, not, ◌&&◌, ◌||◌, Option, none, some, List, [], ◌∷◌, ◌++◌, ◌==◌,
  if◌then◌else◌, length, take, drop, leb, Bytes, String, codes,
}
use tensorium_cc.Location.{SourceLoc}
use tensorium_cc.Sources.{SourceFile, FilePointer, SourceManager, load}
use tensorium_cc.Preprocessor.{PpToken, PpTokenKind}
use tensorium_cc.Preprocessor.State.{
  System, State, Setting, Outcome, ok, failed, out_of_range, out_of_fuel, ◌>>=◌, fail,
}
use tensorium_cc.Preprocessor.Define.{is, is_empty, first_is, named}
use tensorium_cc.Preprocessor.Expand.{expand}

abbrev pub names_file : PpToken → Bool
names_file t = elim t.kind [ PpTokenKind.header ↦ true | PpTokenKind.string ↦ true | _ ↦ false ]

-- Whether the arguments are expanded.
abbrev pub is_computed : List PpToken → Bool
is_computed [] = false
is_computed (t ∷ ts) = not (names_file t) && not (is t "<")

-- The header that the arguments name, and whether in quotes.
pub data Header : Type 0 where
  header : Bool → Bytes → Header
  no_header beyond : Header

-- The name between the marks of a token. `beyond` is the first byte of an empty text.
unfoldable pub marked : Bytes → Header
marked [] = beyond
marked (c ∷ text) = header (c == b'"') (take (length (c ∷ text) - 2) text)

-- The texts up to the last token, which is `>`. The flag says that the token is the first.
unfoldable pub up_to_close : Bool → List PpToken → Option Bytes
up_to_close first [] = none
up_to_close first (t ∷ []) = if is t ">" then some [] else none
up_to_close first (t ∷ next ∷ ts) = elim (up_to_close false (next ∷ ts)) [
  | none ↦ none
  | some more ↦ some ((if not first && t.leading_space then b' ' ∷ [] else []) ++ t.text ++ more)
]

abbrev pub bracketed : Option Bytes → Header
bracketed none = no_header
bracketed (some text) = header false text

unfoldable pub header_of : List PpToken → Header
header_of [] = no_header
header_of (t ∷ []) = if names_file t then marked t.text else no_header
header_of (t ∷ u ∷ []) = no_header
header_of (t ∷ u ∷ v ∷ ts) =
    if is t "<" then bracketed (up_to_close true (u ∷ v ∷ ts)) else no_header

-- The paths to try, and the first that a regular file stands at.
unfoldable pub inside_each : System → List Bytes → Bytes → List String
inside_each system [] name = []
inside_each system (directory ∷ more) name =
    system.inside directory name ∷ inside_each system more name

unfoldable pub candidates : Setting → SourceFile → Bool → Bytes → List String
candidates set file quoted name =
    (if quoted then set.system.beside file.filename name ∷ [] else [])
    ++ inside_each set.system set.include_dirs name

unfoldable pub first_regular : System → List String → Option String
first_regular system [] = none
first_regular system (path ∷ more) =
    if system.is_regular_file path then some path else first_regular system more

abbrev with_sources : SourceManager → State → State
with_sources sources p = record p { sources = sources }

module _ (set : Setting) (process : FilePointer → SourceLoc → State → Outcome Unit) where
  -- `included && process(...)`.
  unfoldable pub process_loaded :
      SourceLoc → State → Option FilePointer × SourceManager → Outcome Unit
  process_loaded loc p (none, sources) = failed (with_sources sources p)
  process_loaded loc p (some file, sources) = process file loc (with_sources sources p)

  unfoldable pub load_found : SourceLoc → Bytes → Option String → State → Outcome Unit
  load_found loc name none p = fail loc (named "include file '" name "' not found") p
  load_found loc name (some path) p =
      process_loaded loc p (load set.system.key set.system.read path loc p.sources)

  unfoldable pub include_header : SourceFile → SourceLoc → Header → State → Outcome Unit
  include_header file loc beyond p = out_of_range
  include_header file loc no_header p =
      fail loc (codes "expected a quoted or angle-bracket filename after #include") p
  include_header file loc (header quoted name) p =
      if is_empty name
      then fail loc (codes "empty include filename") p
      else load_found loc name (first_regular set.system (candidates set file quoted name)) p

  -- `process` is the call of that method at one level deeper.
  unfoldable pub include : SourceFile → List PpToken → SourceLoc → State → Outcome Unit
  include file arguments loc p = elim (is_computed arguments) [
    | false ↦ include_header file loc (header_of arguments) p
    | true ↦ expand set arguments p >>= λ ts q. include_header file loc (header_of ts) q
  ]
