-- ===== src/Tests/LexerTheorems.antt =====
-- The theorems about lib/Lex/Lexer.cpp at concrete inputs.
use tensorium_cc.Prelude.{◌≡◌, refl, false, Option, some, [], ◌∷◌, codes, String, Bytes, arith}
use tensorium_cc.Location.{unset}
use tensorium_cc.Token.{TokenKind, int_val, make_token}
use tensorium_cc.Diagnostic.{SourceText, find_source, add_source, new_engine}
use tensorium_cc.Lexer.Bytes.{is_digit, is_ident}
use tensorium_cc.Lexer.Scan.{loc}
use tensorium_cc.Lexer.Scan.Over.{over}
use tensorium_cc.Lexer.Outcome.{lexed}
use tensorium_cc.Lexer.Space.{skip_white_space_and_comments}
use tensorium_cc.Lexer.Ident.{ident_kind, lex_ident}
use tensorium_cc.Lexer.Ident.Keywords.{Classified, lex_ident-Every}
use tensorium_cc.Lexer.Number.{is_suffix, lex_number}
use tensorium_cc.Lexer.Number.Decimal.{lex_number-decimal}
use tensorium_cc.Lexer.Literal.{lex_char, lex_string}
use tensorium_cc.Lexer.Literal.RoundTrip.{string_literal, lex_string-escape}
use tensorium_cc.Lexer.Literal.Chars.{char_literal, lex_char-escape}
use tensorium_cc.Lexer.Punct.{lex_punct}
use tensorium_cc.Lexer.Punct.Table.{punctuators, took}
use tensorium_cc.Lexer.Punct.Longest.{Longest, lex_punct-Longest}
use tensorium_cc.Lexer.Next.{Lexer, next, peek, tokenize_all}
use tensorium_cc.Lexer.Progress.Blank.{IsSettled, skip_white_space_and_comments-IsSettled}
use tensorium_cc.Lexer.Progress.Tokens.{EndsOnce, tokenize_all-EndsOnce}
use tensorium_cc.Lexer.Progress.Positions.{beginning, StandsAt, tokenize_all-StandsAt, next-peek}
use tensorium_cc.Lexer.Progress.Lines.{AllFound, tokenize_all-line_starts}
use tensorium_cc.Preprocessor.Predefined.{quote_rest, quote}
use tensorium_cc.Preprocessor.Predefined.Quoted.{inside, lex_string-quote}
use tensorium_cc.Tests.Lexing.{file, whole_stod}

abbrev line_two : Bytes
line_two = codes "/* a */\n x += 42 ;"

abbrev lexer : Lexer
lexer = record {
  source = file;
  scan = beginning line_two;
  has_peek = false;
  peek_tok = make_token TokenKind.error [] unset;
  diagnostics = new_engine false "a.c" line_two;
}

tokenize_all-EndsOnce_example : EndsOnce (tokenize_all whole_stod lexer).0
tokenize_all-EndsOnce_example = tokenize_all-EndsOnce whole_stod lexer

tokenize_all-StandsAt_example : StandsAt line_two (tokenize_all whole_stod lexer).1.scan
tokenize_all-StandsAt_example = tokenize_all-StandsAt whole_stod lexer line_two refl (omega arith)

tokenize_all-line_starts_example :
    (entry : SourceText) × (find_source "a.c"
        (add_source "a.c" line_two (new_engine false "b.c" [])).sources
      ≡ some entry)
    × AllFound whole_stod file line_two entry.line_starts (tokenize_all whole_stod lexer).0
tokenize_all-line_starts_example =
    tokenize_all-line_starts whole_stod lexer line_two "a.c" (new_engine false "b.c" []) refl refl
      refl (omega arith) refl

skip_white_space_and_comments-IsSettled_example :
    IsSettled file (beginning line_two) (skip_white_space_and_comments file (beginning line_two))
skip_white_space_and_comments-IsSettled_example =
    skip_white_space_and_comments-IsSettled file (beginning line_two)

next-peek_example :
    ((peek whole_stod lexer).0 ≡ (next whole_stod lexer).0)
    × (next whole_stod (peek whole_stod lexer).1 ≡ (
      (next whole_stod lexer).0,
      record (next whole_stod lexer).1 { peek_tok = (next whole_stod lexer).0; has_peek = false },
    ))
next-peek_example = next-peek whole_stod lexer

lex_punct-Longest_example :
    (found : Option (String × TokenKind)) × (lex_punct file (beginning (codes "<<=1"))
      ≡ took (loc file (beginning (codes "<<=1"))) (beginning (codes "<<=1")) found)
    × Longest punctuators (codes "<<=1") found
lex_punct-Longest_example = lex_punct-Longest file (beginning (codes "<<=1"))

lex_ident-Every_example :
    (lex_ident file (beginning (codes "while("))
      ≡ lexed
          (make_token
            (ident_kind (codes "while"))
            (codes "while")
            (loc file (beginning (codes "while("))))
          (over (codes "while") (codes "(") (beginning (codes "while("))))
    × Classified (codes "while") (ident_kind (codes "while"))
unfolding is_ident
lex_ident-Every_example =
    lex_ident-Every file (beginning (codes "while(")) (codes "while") (codes "(")
      (refl, (refl, (refl, (refl, (refl, tt))))) refl refl

lex_number-decimal_example :
    lex_number whole_stod file (beginning (codes "42;"))
    ≡ lexed
        (record (make_token TokenKind.int_lit (codes "42") (loc file (beginning (codes "42;")))) {
          payload = int_val 42;
        })
        (over (codes "42") (codes ";") (beginning (codes "42;")))
unfolding is_digit is_suffix
lex_number-decimal_example =
    lex_number-decimal whole_stod file (beginning (codes "42;")) b'4' (codes "2") (codes ";") refl
      (refl, (refl, tt)) refl refl

abbrev quoted : Bytes
quoted = b'a' ∷ b'"' ∷ 0 ∷ b'\n' ∷ []

lex_string-escape_example :
    lex_string file (beginning (codes "\"a\\\"\\0\\n\"+"))
    ≡ lexed
        (string_literal quoted
          (codes "a\\\"\\0\\n")
          (loc file (beginning (codes "\"a\\\"\\0\\n\"+"))))
        (over (codes "\"a\\\"\\0\\n\"") (codes "+") (beginning (codes "\"a\\\"\\0\\n\"+")))
lex_string-escape_example =
    lex_string-escape file quoted (codes "+") (beginning (codes "\"a\\\"\\0\\n\"+")) refl

abbrev path : Bytes
path = codes "a\t\"\\"

lex_string-quote_example :
    lex_string file (beginning (codes "\"a\\t\\\"\\\\\";"))
    ≡ lexed
        (string_literal path (inside path) (loc file (beginning (codes "\"a\\t\\\"\\\\\";"))))
        (over (quote path) (codes ";") (beginning (codes "\"a\\t\\\"\\\\\";")))
unfolding quote quote_rest
lex_string-quote_example =
    lex_string-quote file path (codes ";") (beginning (codes "\"a\\t\\\"\\\\\";"))
      (refl, (refl, (refl, (refl, _)))) refl

lex_char-escape_example :
    lex_char file (beginning (codes "'\\n' "))
    ≡ lexed
        (char_literal b'\n' (loc file (beginning (codes "'\\n' "))))
        (over (codes "'\\n'") (codes " ") (beginning (codes "'\\n' ")))
lex_char-escape_example = lex_char-escape file b'\n' (codes " ") (beginning (codes "'\\n' ")) refl
