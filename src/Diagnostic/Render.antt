-- ===== src/Diagnostic/Render.antt =====
-- `render` of lib/Basic/Diagnostic.cpp: the bytes that it writes.
pub mod Caret
pub mod Numbers
use Prim.Native.Nat.{max, min}
use tensorium_cc.Prelude.{
  ℕ, zero, suc, ◌+◌, ◌-◌, ◌/◌, ◌%◌, ◌++◌, Bool, true, false, not, ◌&&◌, ◌||◌, Option, none, some,
  List, [], ◌∷◌, ltb, ◌==◌, if◌then◌else◌, length, get_elem?, take, drop, Bytes, String, codes,
}
use tensorium_cc.Diagnostic.Data.{
  DiagnosticLevel, note, warning, error, fatal, Diagnostic, SourceText, find_source,
}

-- `std::string(n, c)`.
abbrev pub repeat : ℕ → ℕ → Bytes
repeat zero c = []
repeat (suc n) c = c ∷ repeat n c

-- `std::to_string`, with as many rounds as the number, in front of `ds`.
unfoldable pub decimal_over : ℕ → ℕ → Bytes → Bytes
decimal_over zero n ds = ds
decimal_over (suc fuel) n ds =
    let digits = (b'0' + n % 10) ∷ ds in
    let more = decimal_over fuel (n / 10) digits in if n / 10 == 0 then digits else more

unfoldable pub to_string : ℕ → Bytes
to_string n = decimal_over (suc n) n []

-- `levelName` and `levelColor`.
abbrev pub level_name : DiagnosticLevel → Bytes
level_name error = codes "error"
level_name fatal = codes "fatal error"
level_name warning = codes "warning"
level_name note = codes "note"

-- The escape byte and the rest of an ANSI sequence.
abbrev pub ansi : String → Bytes
ansi text = 27 ∷ codes text

abbrev pub level_color : DiagnosticLevel → Bytes
level_color error = ansi "[1;31m"
level_color fatal = ansi "[1;31m"
level_color warning = ansi "[1;35m"
level_color note = ansi "[1;36m"

-- `displayed`, `caret` and `highlightEnd` of the loop.
pub record Shown : Type 0 where
  pub displayed : Bytes
  pub caret : ℕ
  pub highlight_end : ℕ

-- What a byte of the source adds to the line that is shown.
unfoldable pub shown_byte : Bytes → ℕ → Bytes
shown_byte displayed c =
    if c == b'\t'
    then displayed ++ repeat (8 - length displayed % 8) b' '
    else displayed ++ ((if ltb c 32 || c == 127 then b'?' else c) ∷ [])

-- The loop over the bytes of the line, from byte `i` on.
unfoldable pub show_over : (column span : ℕ) → ℕ → Bytes → Shown → Shown
show_over column span i [] s = s
show_over column span i (c ∷ cs) s =
    let next = shown_byte s.displayed c in
    show_over column span (i + 1) cs (record {
      displayed = next;
      caret = if i == column then length s.displayed else s.caret;
      highlight_end = if i + 1 == column + span then length next else s.highlight_end;
    })

-- The line as it is shown, with the places of the caret and of the end of what is marked.
unfoldable pub show_line : (column span : ℕ) → Bytes → Shown
show_line column span line =
    let s =
      show_over column span 0 line (record { displayed = []; caret = 0; highlight_end = 0 }) in
    record s { caret = if column == length line then length s.displayed else s.caret }

abbrev pub marked_width : ℕ → Shown → ℕ
marked_width span s = if span == 0 then 1 else s.highlight_end - s.caret

-- The bytes up to the end of the line.
unfoldable pub until_line_end : Bytes → Bytes
until_line_end [] = []
until_line_end (c ∷ cs) = if c == b'\r' || c == b'\n' then [] else c ∷ until_line_end cs

unfoldable pub excerpt : Bool → Diagnostic → Bytes → Bytes
excerpt use_color d line =
    let column = min (d.col - 1) (length line) in
    let span = min d.length (length line - column) in
    let s = show_line column span line in
    let number = to_string d.line in
    let gutter = max 5 (length number) in
    repeat (gutter - length number) b' '
    ++ number
    ++ codes " | "
    ++ s.displayed
    ++ codes "\n"
    ++ repeat gutter b' '
    ++ codes " | "
    ++ repeat s.caret b' '
    ++ (if use_color then ansi "[1;32m" else [])
    ++ codes "^"
    ++ repeat (marked_width span s - 1) b'~'
    ++ (if use_color then ansi "[0m" else [])
    ++ codes "\n"

-- The message's line.
unfoldable pub headline : Bool → Diagnostic → Bytes
headline use_color d =
    let bold = if use_color then ansi "[1m" else [] in
    let reset = if use_color then ansi "[0m" else [] in
    bold
    ++ codes d.filename
    ++ (if d.line == 0
        then []
        else codes ":"
          ++ to_string d.line
          ++ (if d.col == 0 then [] else codes ":" ++ to_string d.col))
    ++ codes ": "
    ++ reset
    ++ (if use_color then level_color d.level else [])
    ++ level_name d.level
    ++ codes ": "
    ++ reset
    ++ bold
    ++ d.message
    ++ reset
    ++ codes "\n"

unfoldable pub source_lines : Bool → Diagnostic → Option SourceText → Bytes
source_lines use_color d none = []
source_lines use_color d (some entry) =
    if d.line == 0 || d.col == 0 then [] else elim (get_elem? entry.line_starts (d.line - 1)) [
      | none ↦ []
      | some start ↦ excerpt use_color d (until_line_end (drop start entry.text))
    ]

unfoldable pub render : Bool → List (String × SourceText) → Diagnostic → Bytes
render use_color sources d =
    headline use_color d ++ source_lines use_color d (find_source d.filename sources)
