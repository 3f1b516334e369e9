-- ===== src/Lexer/Space.antt =====
-- `skipWhiteSpaceAndComments` of lib/Lex/Lexer.cpp.
use tensorium_cc.Prelude.{
  ℕ, zero, suc, ◌&&◌, not, Bool, true, false, [], ◌∷◌, ◌==◌, if◌then◌else◌, get_or, length, Bytes,
}
use tensorium_cc.Location.{SourceLoc}
use tensorium_cc.Lexer.Bytes.{is_space}
use tensorium_cc.Lexer.Scan.{Scan, Source, cur, look, advance_over, advance, loc, eat}

pub data Skipped : Type 0 where
  skipped : Scan → Skipped
  unterminated : SourceLoc → Scan → Skipped

-- One round of the loop goes on, ends it, or returns the error with the comment's location.
pub data Round : Type 0 where
  again : Scan → Round
  stop : Scan → Round
  open_comment : SourceLoc → Scan → Round

abbrev pub at_end : Bytes → Bool
at_end [] = true
at_end (c ∷ cs) = false

unfoldable pub in_line : ℕ → Bool
in_line c = not (c == b'\n') && not (c == b'\r')

-- The loop of a block comment, behind its opening: whether it closed.
unfoldable pub block_over : Bytes → Scan → Bool × Scan
block_over [] s = (false, s)
block_over (c ∷ cs) s =
    let inner = advance_over (c ∷ cs) s in
    let more = block_over cs inner in
    if c == b'*' && get_or cs 0 0 == b'/' then (true, advance inner) else more

abbrev pub closed_or : SourceLoc → Bool × Scan → Round
closed_or start (true, s) = again s
closed_or start (false, s) = open_comment start s

unfoldable pub block_comment : Source → Scan → Round
block_comment src s =
    let inner = advance (advance s) in closed_or (loc src s) (block_over inner.rest inner)

unfoldable pub skip_round : Source → Scan → Round
skip_round src s =
    if at_end s.rest
    then stop s
    else if is_space (cur s)
    then again (advance s)
    else if src.allow_line_comments && cur s == b'/' && look s 1 == b'/'
    then again (eat in_line s).1
    else if cur s == b'/' && look s 1 == b'*'
    then block_comment src s
    else stop s

-- What follows a round.
unfoldable pub go_on : (Scan → Skipped) → Round → Skipped
go_on rest (again t) = rest t
go_on rest (stop t) = skipped t
go_on rest (open_comment start t) = unterminated start t

unfoldable pub skip : Source → ℕ → Scan → Skipped
skip src zero s = skipped s
skip src (suc fuel) s = go_on (skip src fuel) (skip_round src s)

-- Each round takes a byte at least, so the fuel is more than the rounds.
unfoldable pub skip_white_space_and_comments : Source → Scan → Skipped
skip_white_space_and_comments src s = skip src (suc (length s.rest)) s
