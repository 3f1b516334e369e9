-- ===== src/Preprocessor/Tokenize.antt =====
-- The loop of `tokenize` of lib/Lex/Preprocessor.cpp, and the tokens that it appends.
pub mod Widths
pub mod Cover
pub mod Lexed
pub mod Within
use tensorium_cc.Prelude.{
  ℕ, zero, suc, Bool, true, false, ◌&&◌, none, List, [], ◌∷◌, ◌++◌, if◌then◌else◌, take, Bytes,
  String, codes, same_bytes,
}
use tensorium_cc.Location.{SourceLoc, unset}
use tensorium_cc.Diagnostic.{DiagnosticEngine, error, report}
use tensorium_cc.Preprocessor.{PpToken, PpTokenKind}
use tensorium_cc.Preprocessor.Normalize.{Input}
use tensorium_cc.Preprocessor.Scan.{Piece, line_break, blank, token, broken, piece}

-- The tokens, the arguments of the call of `error` that ends the loop, or an access of
-- `input.locations` out of range.
pub data Scanned : Type 0 where
  scanned : List PpToken → Scanned
  halted : SourceLoc → String → ℕ → Scanned
  beyond : Scanned

abbrev pub is_within : Scanned → Bool
is_within beyond = false
is_within _ = true

-- `tokens.push_back(t)`, in front of what the rest of the loop appends.
abbrev pub append_token : PpToken → Scanned → Scanned
append_token t (scanned ts) = scanned (t ∷ ts)
append_token t (halted at message n) = halted at message n
append_token t beyond = beyond

-- `input.locations[i]`. An `Input` has a location for every byte.
abbrev pub first_place : List SourceLoc → SourceLoc
first_place [] = unset
first_place (at ∷ places) = at

-- A token that only has a kind, a spelling and a location.
abbrev pub plain_token : PpTokenKind → Bytes → SourceLoc → PpToken
plain_token kind text at = record {
  kind = kind;
  text = text;
  loc = at;
  leading_space = false;
  spelling_locations = [];
  hide_set = [];
  original_spelling = [];
  expansion_loc = unset;
}

-- The digraphs stand for other punctuators.
unfoldable pub canonical : Bytes → Bytes
canonical spelling =
    if same_bytes spelling (codes "%:")
    then codes "#"
    else if same_bytes spelling (codes "%:%:")
    then codes "##"
    else if same_bytes spelling (codes "<%")
    then codes "{"
    else if same_bytes spelling (codes "%>")
    then codes "}"
    else if same_bytes spelling (codes "<:")
    then codes "["
    else if same_bytes spelling (codes ":>")
    then codes "]"
    else spelling

abbrev pub spelled : PpTokenKind → Bytes → Bytes
spelled PpTokenKind.punct spelling = canonical spelling
spelled _ spelling = spelling

abbrev pub literal_places : PpTokenKind → List SourceLoc → List SourceLoc
literal_places PpTokenKind.string places = places
literal_places PpTokenKind.character places = places
literal_places _ places = []

-- The token of a kind, a spelling and the locations of its bytes.
unfoldable pub scanned_token : PpTokenKind → Bytes → List SourceLoc → Bool → PpToken
scanned_token kind spelling places space =
    record (plain_token kind (spelled kind spelling) (first_place places)) {
      leading_space = space;
      spelling_locations = literal_places kind places;
      original_spelling = if same_bytes (spelled kind spelling) spelling then [] else spelling;
    }

-- Whether the tokens of the line so far are `#` and `include`.
unfoldable pub after_include : List PpToken → Bool
after_include (a ∷ b ∷ []) = same_bytes a.text (codes "#") && same_bytes b.text (codes "include")
after_include _ = false

abbrev pub pred : ℕ → ℕ
pred zero = zero
pred (suc n) = n

-- The loop. The number is how far `i` is ahead, `line` what `tokens` holds from `lineStart` on.
unfoldable pub tokenize_from :
    (allow_line_comments : Bool)
    → ℕ
    → (space : Bool) → (line : List PpToken) → Bytes
    → List SourceLoc
    → Scanned
tokenize_from allow ahead space line [] places = scanned []
tokenize_from allow ahead space line (c ∷ s) [] = beyond
tokenize_from allow (suc ahead) space line (c ∷ s) (at ∷ places) =
    tokenize_from allow ahead space line s places
tokenize_from allow zero space line (c ∷ s) (at ∷ places) =
    elim (piece allow (after_include line) c s) [
      | line_break ↦
          append_token (plain_token PpTokenKind.newline (c ∷ []) at)
            (tokenize_from allow 0 false [] s places)
      | blank n ↦ tokenize_from allow (pred n) true line s places
      | token kind n ↦
          let t = scanned_token kind (take n (c ∷ s)) (take n (at ∷ places)) space in
          append_token t (tokenize_from allow (pred n) false (line ++ (t ∷ [])) s places)
      | broken message n ↦ halted at message n
    ]

abbrev pub reported : DiagnosticEngine → Scanned → List PpToken × DiagnosticEngine
reported diagnostics (scanned tokens) = (tokens, diagnostics)
reported diagnostics (halted at message n) = ([], report error at (codes message) n diagnostics)
reported diagnostics beyond = ([], diagnostics)

-- What the loop finds in an input.
unfoldable pub scan_input : (allow_line_comments : Bool) → Input → Scanned
scan_input allow input = tokenize_from allow 0 false [] input.text input.locations

-- The callers look at `is_within` first.
unfoldable pub tokenize_input :
    (allow_line_comments : Bool) → Input → DiagnosticEngine → List PpToken × DiagnosticEngine
tokenize_input allow input diagnostics = reported diagnostics (scan_input allow input)
