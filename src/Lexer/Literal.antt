-- ===== src/Lexer/Literal.antt =====
-- `lexChar` and `lexString` of lib/Lex/Lexer.cpp.
pub mod RoundTrip
pub mod Chars
use tensorium_cc.Prelude.{
  ℕ, ◌-◌, ◌||◌, Bool, Option, none, some, [], ◌∷◌, ◌==◌, if◌then◌else◌, take, Bytes, String,
}
use tensorium_cc.Location.{SourceLoc}
use tensorium_cc.Token.{TokenKind, char_val, make_token}
use tensorium_cc.Lexer.Scan.{Scan, Source, cur, advance_over, advance, loc}
use tensorium_cc.Lexer.Outcome.{Lexed, lexed, failed}

-- The `switch` behind a backslash, the same in both methods.
unfoldable pub escape_value : ℕ → Option ℕ
escape_value c =
    if c == b'n'
    then some b'\n'
    else if c == b't'
    then some b'\t'
    else if c == b'r'
    then some b'\r'
    else if c == b'0'
    then some 0
    else if c == b'\\'
    then some b'\\'
    else if c == b'\''
    then some b'\''
    else if c == b'"'
    then some b'"'
    else none

-- The end of `lexChar`: `text` and `value` are its locals.
unfoldable pub close_char : SourceLoc → Bytes → ℕ → Scan → Lexed
close_char at text value t =
    if cur t == b'\''
    then lexed (record (make_token TokenKind.char_lit text at) { payload = char_val value })
        (advance t)
    else failed "unterminated character literal" at 1 t

-- Behind the `switch`, whose `default` returns an error. The backslash stands at `s`.
unfoldable pub after_backslash : Source → SourceLoc → Scan → Scan → Option ℕ → Lexed
after_backslash src at s e none = failed "invalid escape sequence" (loc src s) 2 e
after_backslash src at s e (some value) = close_char at (b'\\' ∷ cur e ∷ []) value (advance e)

unfoldable pub escaped_char : Source → SourceLoc → Scan → Lexed
escaped_char src at s = let e = advance s in after_backslash src at s e (escape_value (cur e))

unfoldable pub lex_char : Source → Scan → Lexed
lex_char src s =
    let t = advance s in
    if cur t == 0 || cur t == b'\n'
    then failed "unterminated character literal" (loc src s) 1 t
    else if cur t == b'\\'
    then escaped_char src (loc src s) t
    else close_char (loc src s) (cur t ∷ []) (cur t) (advance t)

-- The loop of `lexString` ends in front of the closing quote with the value in `s`, or returns an
-- error.
pub data StringBody : Type 0 where
  body : Bytes → Scan → StringBody
  broken : String → SourceLoc → ℕ → Scan → StringBody

abbrev pub add_byte : ℕ → StringBody → StringBody
add_byte c (body value t) = body (c ∷ value) t
add_byte c (broken m l n t) = broken m l n t

-- Behind a backslash the third argument is the location of that backslash. An end of the input is
-- '\0' to the `switch`; elsewhere it stops the loop, and the test behind it returns the error.
unfoldable pub string_over : Source → SourceLoc → Option SourceLoc → Bytes → Scan → StringBody
string_over src at none [] s = broken "unterminated string literal" at 1 s
string_over src at (some escape) [] s = broken "invalid escape sequence" escape 2 s
string_over src at none (c ∷ cs) s =
    let t = advance_over (c ∷ cs) s in
    let escaped = string_over src at (some (loc src s)) cs t in
    let plain = string_over src at none cs t in
    if c == b'"'
    then body [] s
    else if c == 0 || c == b'\n'
    then broken "unterminated string literal" at 1 s
    else if c == b'\\'
    then escaped
    else add_byte c plain
string_over src at (some escape) (c ∷ cs) s =
    let more = string_over src at none cs (advance_over (c ∷ cs) s) in
    elim (escape_value c) [
      | some value ↦ add_byte value more
      | none ↦ broken "invalid escape sequence" escape 2 s
    ]

unfoldable pub string_token : SourceLoc → Scan → StringBody → Lexed
string_token at start (body value t) =
    lexed
      (record (make_token TokenKind.string_lit (take (t.pos - start.pos) start.rest) at) {
        str_val = value;
      })
      (advance t)
string_token at start (broken m l n t) = failed m l n t

unfoldable pub lex_string : Source → Scan → Lexed
lex_string src s =
    let start = advance s in
    string_token (loc src s) start (string_over src (loc src s) none start.rest start)
