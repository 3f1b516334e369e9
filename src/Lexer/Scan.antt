-- ===== src/Lexer/Scan.antt =====
-- The moving part of the lexer's state and its steps: `cur`, `look`, `advance`, `loc` of
-- lib/Lex/Lexer.cpp. `rest` is `_src` from `_pos` on.
pub mod Reads
pub mod Over
use tensorium_cc.Prelude.{
  ℕ, ◌+◌, Bool, Option, none, some, List, [], ◌∷◌, ◌==◌, if◌then◌else◌, get_elem?, get_or, Bytes,
  String,
}
use tensorium_cc.Location.{SourceLoc, next_u32}

pub record Scan : Type 0 where
  pub rest : Bytes
  pub pos : ℕ
  pub line : ℕ
  pub col : ℕ

-- What stays fixed while a source is lexed.
pub record Source : Type 0 where
  pub filename : Option String
  pub allow_line_comments : Bool
  pub source_locations : List SourceLoc

-- Past the end both give '\0'.
unfoldable pub cur : Scan → ℕ
cur s = get_or s.rest 0 0

unfoldable pub look : Scan → ℕ → ℕ
look s offset = get_or s.rest offset 0

-- `advance` where `_src` from `_pos` on is known.
unfoldable pub advance_over : Bytes → Scan → Scan
advance_over [] s = record s { pos = s.pos + 1; col = next_u32 s.col }
advance_over (c ∷ cs) s =
    if c == b'\n'
    then record { rest = cs; pos = s.pos + 1; line = next_u32 s.line; col = 1 }
    else record { rest = cs; pos = s.pos + 1; line = s.line; col = next_u32 s.col }

unfoldable pub advance : Scan → Scan
advance s = advance_over s.rest s

unfoldable pub loc : Source → Scan → SourceLoc
loc src s = elim (get_elem? src.source_locations s.pos) [
  | some l ↦ l
  | none ↦ record { filename = src.filename; line = s.line; col = s.col }
]

-- `while (p(cur())) s += advance();`, for a `p` that '\0' fails: the bytes and the state behind.
unfoldable pub eat_over : (ℕ → Bool) → Bytes → Scan → Bytes × Scan
eat_over p [] s = ([], s)
eat_over p (c ∷ cs) s =
    let more = eat_over p cs (advance_over (c ∷ cs) s) in
    if p c then (c ∷ more.0, more.1) else ([], s)

unfoldable pub eat : (ℕ → Bool) → Scan → Bytes × Scan
eat p s = eat_over p s.rest s
