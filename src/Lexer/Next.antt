-- ===== src/Lexer/Next.antt =====
-- `next`, `peek`, `tokenizeAll` and the state of a `Lexer` (lib/Lex/Lexer.cpp,
-- include/cc1/Lex/Lexer.hpp).
use tensorium_cc.Prelude.{
  codes, ℕ, zero, suc, ◌&&◌, ◌||◌, Bool, true, false, List, none, [], ◌∷◌, ◌==◌, if◌then◌else◌,
  length, Bytes,
}
use tensorium_cc.Location.{SourceLoc}
use tensorium_cc.Diagnostic.{DiagnosticEngine, error, report}
use tensorium_cc.Numeral.{Conversion}
use tensorium_cc.Token.{TokenKind, Token, make_token, is_eof, is_error}
use tensorium_cc.Lexer.Bytes.{is_digit, is_ident_start}
use tensorium_cc.Lexer.Scan.{Scan, Source, cur, look, loc}
use tensorium_cc.Lexer.Outcome.{Lexed, lexed, failed}
use tensorium_cc.Lexer.Space.{skipped, unterminated, at_end, skip_white_space_and_comments}
use tensorium_cc.Lexer.Ident.{lex_ident}
use tensorium_cc.Lexer.Number.{lex_number}
use tensorium_cc.Lexer.Literal.{lex_char, lex_string}
use tensorium_cc.Lexer.Punct.{lex_punct}

pub record Lexer : Type 0 where
  pub source : Source
  pub scan : Scan
  pub has_peek : Bool
  pub peek_tok : Token
  pub diagnostics : DiagnosticEngine

abbrev pub or_one : ℕ → ℕ
or_one zero = 1
or_one (suc n) = suc n

-- The constructor. The default token of `_peekTok` is of kind ERROR.
unfoldable pub new_lexer : Bytes → Source → DiagnosticEngine → SourceLoc → Lexer
new_lexer text src diagnostics start = record {
  source = src;
  scan = record { rest = text; pos = 0; line = or_one start.line; col = or_one start.col };
  has_peek = false;
  peek_tok = make_token TokenKind.error [] (record { filename = none; line = 0; col = 0 });
  diagnostics = diagnostics;
}

-- The part of `next` behind the skipped space.
unfoldable pub lex_token : (Bytes → Conversion) → Source → Scan → Lexed
lex_token stod src s =
    if at_end s.rest
    then lexed (make_token TokenKind.end_of_file [] (loc src s)) s
    else if is_ident_start (cur s)
    then lex_ident src s
    else if is_digit (cur s) || cur s == b'.' && is_digit (look s 1)
    then lex_number stod src s
    else if cur s == b'\''
    then lex_char src s
    else if cur s == b'"'
    then lex_string src s
    else lex_punct src s

unfoldable pub scan_token : (Bytes → Conversion) → Source → Scan → Lexed
scan_token stod src s = elim (skip_white_space_and_comments src s) [
  | skipped t ↦ lex_token stod src t
  | unterminated start t ↦ failed "unterminated block comment" start 2 t
]

-- A failure goes through `Error`, which reports it and makes a token of kind ERROR.
unfoldable pub settle : Lexer → Lexed → Token × Lexer
settle lx (lexed t s) = (t, record lx { scan = s })
settle lx (failed message at n s) = (
  make_token TokenKind.error [] at,
  record lx { scan = s; diagnostics = report error at (codes message) n lx.diagnostics },
)

unfoldable pub next : (Bytes → Conversion) → Lexer → Token × Lexer
next stod lx =
    if lx.has_peek
    then (lx.peek_tok, record lx { has_peek = false })
    else settle lx (scan_token stod lx.source lx.scan)

unfoldable pub remember : Token × Lexer → Token × Lexer
remember (t, lx) = (t, record lx { peek_tok = t; has_peek = true })

unfoldable pub peek : (Bytes → Conversion) → Lexer → Token × Lexer
peek stod lx = if lx.has_peek then (lx.peek_tok, lx) else remember (next stod lx)

-- The loop of `tokenizeAll`.
unfoldable pub tokenize : (Bytes → Conversion) → ℕ → Lexer → List Token × Lexer
tokenize stod zero lx = ([], lx)
tokenize stod (suc fuel) lx =
    let (t, after) = next stod lx in
    let more = tokenize stod fuel after in
    if is_eof t || is_error t then (t ∷ [], after) else (t ∷ more.0, more.1)

-- A token that neither ends the input nor is an error takes a byte, or is the one peeked at.
unfoldable pub tokenize_all : (Bytes → Conversion) → Lexer → List Token × Lexer
tokenize_all stod lx = tokenize stod (suc (suc (length lx.scan.rest))) lx
