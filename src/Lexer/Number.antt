-- ===== src/Lexer/Number.antt =====
-- `lexNumber` of lib/Lex/Lexer.cpp. `std::stod` is a parameter: a double is its bit pattern.
pub mod Decimal
use tensorium_cc.Prelude.{
  ℕ, ◌-◌, ◌^◌, ◌&&◌, ◌||◌, Bool, true, false, [], ◌∷◌, ◌++◌, ◌==◌, if◌then◌else◌, length, Bytes,
}
use tensorium_cc.Location.{SourceLoc}
use tensorium_cc.Token.{TokenKind, Payload, int_val, float_val, make_token}
use tensorium_cc.Numeral.{Conversion, converted, invalid_argument, out_of_range, string_to}
use tensorium_cc.Lexer.Bytes.{is_digit, is_xdigit}
use tensorium_cc.Lexer.Scan.{Scan, Source, cur, look, advance, loc, eat}
use tensorium_cc.Lexer.Outcome.{Lexed, lexed, failed}

-- The locals `s` and `isFloat` beside the state.
pub record Numeric : Type 0 where
  pub text : Bytes
  pub is_float : Bool
  pub at : Scan

-- `s += advance();`
unfoldable pub push_one : Numeric → Numeric
push_one n = record n { text = n.text ++ (cur n.at ∷ []); at = advance n.at }

unfoldable pub push_while : (ℕ → Bool) → Numeric → Numeric
push_while p n = let (more, t) = eat p n.at in record n { text = n.text ++ more; at = t }

abbrev pub floating : Numeric → Numeric
floating n = record n { is_float = true }

unfoldable pub hexadecimal : Numeric → Numeric
hexadecimal n = push_while is_xdigit (push_one (push_one n))

unfoldable pub fraction : Numeric → Numeric
fraction n = if cur n.at == b'.' then push_while is_digit (push_one (floating n)) else n

unfoldable pub sign : Numeric → Numeric
sign n = if cur n.at == b'+' || cur n.at == b'-' then push_one n else n

unfoldable pub exponent : Numeric → Numeric
exponent n =
    if cur n.at == b'e' || cur n.at == b'E'
    then push_while is_digit (sign (push_one (floating n)))
    else n

-- The text whose length is `numericLength`.
unfoldable pub numeric : Scan → Numeric
numeric s =
    let start : Numeric = record { text = []; is_float = false; at = s } in
    if cur s == b'0' && (look s 1 == b'x' || look s 1 == b'X')
    then hexadecimal start
    else exponent (fraction (push_while is_digit start))

unfoldable pub is_suffix : ℕ → Bool
is_suffix c = c == b'u' || c == b'U' || c == b'l' || c == b'L' || c == b'f' || c == b'F'

abbrev pub max_int64 : ℕ
max_int64 = 2 ^ 63 - 1

-- The `try` block, on what the conversion of the first `used` bytes of `text` gives.
unfoldable pub number_token :
    TokenKind → (ℕ → Payload) → ℕ → Bytes → SourceLoc → Scan → Conversion → Lexed
number_token kind value used text at t (converted v consumed) =
    if consumed == used
    then lexed (record (make_token kind text at) { payload = value v }) t
    else failed "invalid numeric literal" at (length text) t
number_token kind value used text at t invalid_argument =
    failed "invalid numeric literal" at (length text) t
number_token kind value used text at t out_of_range =
    failed "numeric literal is out of range" at (length text) t

unfoldable pub lex_number : (Bytes → Conversion) → Source → Scan → Lexed
lex_number stod src s =
    let n = numeric s in
    let whole = push_while is_suffix n in
    if n.is_float
    then number_token TokenKind.float_lit float_val (length n.text) whole.text (loc src s) whole.at
        (stod n.text)
    else number_token TokenKind.int_lit int_val (length n.text) whole.text (loc src s) whole.at
        (string_to max_int64 n.text)
