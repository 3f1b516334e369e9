-- ===== src/Tests/Lexing.antt =====
-- Runs of lib/Lex/Lexer.cpp.
use tensorium_cc.Prelude.{false, ◌≡◌, refl, true, List, [], ◌∷◌, some, codes, String, Bytes}
use mathlib.Core.List.{map}
use tensorium_cc.Prelude.{same_bytes, length}
use tensorium_cc.Location.{unset}
use tensorium_cc.Token.{Token, TokenKind}
use tensorium_cc.Lexer.Scan.{Source}
use tensorium_cc.Numeral.{Conversion, converted}
use tensorium_cc.Diagnostic.{line_starts_from, put_source, add_source, new_engine, report}
use tensorium_cc.Token.{ordinal, same_kind}
use tensorium_cc.Numeral.{digit_value, scan_digits, in_range, has_hex_prefix, string_to}
use tensorium_cc.Lexer.Bytes.{
  is_space, is_digit, is_alpha, is_alnum, is_xdigit, is_ident, is_ident_start,
}
use tensorium_cc.Lexer.Scan.{cur, look, advance_over, advance, loc, eat_over, eat}
use tensorium_cc.Lexer.Space.{
  in_line, block_over, block_comment, skip_round, go_on, skip, skip_white_space_and_comments,
}
use tensorium_cc.Lexer.Ident.{keywords, find_keyword, ident_kind, lex_ident}
use tensorium_cc.Lexer.Number.{
  push_one, push_while, hexadecimal, fraction, sign, exponent, numeric, is_suffix, number_token,
  lex_number,
}
use tensorium_cc.Lexer.Literal.{
  escape_value, close_char, after_backslash, escaped_char, lex_char, string_over, string_token,
  lex_string,
}
use tensorium_cc.Lexer.Punct.{
  take_one, take_two, take_three, lex_dot, lex_hash, lex_plus, lex_minus, lex_star, lex_slash,
  lex_percent, lex_ampersand, lex_bar, lex_caret, lex_bang, lex_equals, lex_less, lex_greater,
  lex_punct,
}
use tensorium_cc.Lexer.Next.{
  new_lexer, lex_token, scan_token, settle, next, remember, tokenize, tokenize_all,
}

abbrev pub file : Source
file = record { filename = some "a.c"; allow_line_comments = true; source_locations = [] }

-- A `stod` that reads every text whole, as 0.0.
abbrev pub whole_stod : Bytes → Conversion
whole_stod text = converted 0 (length text)

-- Opens the whole lexer.
run_lexer : String → List Token
unfolding same_bytes line_starts_from put_source add_source new_engine report ordinal same_kind
    digit_value scan_digits in_range has_hex_prefix string_to is_space is_digit is_alpha is_alnum
    is_xdigit is_ident is_ident_start cur look advance_over advance loc eat_over eat in_line
    block_over block_comment skip_round go_on skip skip_white_space_and_comments keywords
    find_keyword ident_kind lex_ident push_one push_while hexadecimal fraction sign exponent numeric
    is_suffix number_token lex_number escape_value close_char after_backslash escaped_char lex_char
    string_over string_token lex_string take_one take_two take_three lex_dot lex_hash lex_plus
    lex_minus lex_star lex_slash lex_percent lex_ampersand lex_bar lex_caret lex_bang lex_equals
    lex_less lex_greater lex_punct new_lexer lex_token scan_token settle next remember tokenize
    tokenize_all
run_lexer text =
    (tokenize_all whole_stod
      (new_lexer (codes text) file (new_engine false "a.c" (codes text)) unset)).0

kinds : String → List TokenKind
unfolding run_lexer
kinds text = map (λ (t : Token). t.kind) (run_lexer text)

kinds_sample : kinds "int x = 0x1F<<=/* c */ 'a';" ≡ (
    TokenKind.kw_int ∷ TokenKind.ident ∷ TokenKind.assign ∷ TokenKind.int_lit
    ∷ TokenKind.lshift_assign ∷ TokenKind.char_lit ∷ TokenKind.semicolon ∷ TokenKind.end_of_file
    ∷ [])
unfolding kinds
kinds_sample = refl
