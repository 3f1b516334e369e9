-- ===== src/Preprocessor/Normalize.antt =====
-- `Input` and `normalize` of lib/Lex/Preprocessor.cpp: line ends become '\n', and a backslash before a
-- line end disappears with it.
pub mod Phases
use tensorium_cc.Prelude.{
  ℕ, zero, suc, ◌-◌, Bool, true, false, ◌&&◌, ◌||◌, some, List, [], ◌∷◌, ◌==◌, if◌then◌else◌, Bytes,
}
use tensorium_cc.Location.{SourceLoc, next_u32}
use tensorium_cc.Sources.{SourceFile}

pub record Input : Type 0 where
  pub text : Bytes
  pub locations : List SourceLoc
  pub end : SourceLoc

abbrev pub line_end : ℕ → Bool
line_end c = c == b'\n' || c == b'\r'

-- `++loc.line; loc.col = 1;` and `++loc.col;`.
abbrev pub next_line : SourceLoc → SourceLoc
next_line loc = record loc { line = next_u32 loc.line; col = 1 }

abbrev pub next_col : SourceLoc → SourceLoc
next_col loc = record loc { col = next_u32 loc.col }

-- `locations.push_back(loc)` and `text += c`, in front of what the rest of the loop appends.
abbrev pub emit : SourceLoc → ℕ → Input → Input
emit loc c more = record more { text = c ∷ more.text; locations = loc ∷ more.locations }

-- Whether a text begins with "\r\n", how many bytes a line end in front takes, and a backslash with
-- its line end, if they stand in front.
unfoldable pub is_crlf : Bytes → Bool
is_crlf (c ∷ d ∷ s) = c == b'\r' && d == b'\n'
is_crlf _ = false

abbrev pub line_end_width : Bytes → ℕ
line_end_width s = if is_crlf s then 2 else 1

unfoldable pub splice_width : Bytes → ℕ
splice_width (c ∷ d ∷ s) = if c == b'\\' && line_end d then suc (line_end_width (d ∷ s)) else 0
splice_width _ = 0

-- The loop, at location `loc`. The number is how far `i` is ahead.
unfoldable pub normalize_from : ℕ → SourceLoc → Bytes → Input
normalize_from ahead loc [] = record { text = []; locations = []; end = loc }
normalize_from (suc ahead) loc (c ∷ s) = normalize_from ahead loc s
normalize_from zero loc (c ∷ s) = elim (splice_width (c ∷ s)) [
  | suc more ↦ normalize_from more (next_line loc) s
  | zero ↦ elim (line_end c) [
    | true ↦ emit loc b'\n' (normalize_from (line_end_width (c ∷ s) - 1) (next_line loc) s)
    | false ↦ emit loc c (normalize_from 0 (next_col loc) s)
  ]
]

-- `loc` at the start.
abbrev pub file_start : SourceFile → SourceLoc
file_start file = record { filename = some file.filename; line = 1; col = 1 }

unfoldable pub normalize : SourceFile → Input
normalize file = normalize_from 0 (file_start file) file.content
