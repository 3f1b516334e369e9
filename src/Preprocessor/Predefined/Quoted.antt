-- ===== src/Preprocessor/Predefined/Quoted.antt =====
-- What `quote` of lib/Lex/Preprocessor.cpp writes is a string literal of lib/Lex/Lexer.cpp.
use mathlib.Core.List.{append_assoc}
use tensorium_cc.Prelude.{
  ℕ, ◌≡◌, refl, sym, ap, ◌∙◌, true, false, ◌||◌, some, [], ◌∷◌, ◌++◌, ◌==◌, if_ind, or_false, Bytes,
  arith,
}
use tensorium_cc.Lexer.Scan.{Scan, Source, loc}
use tensorium_cc.Lexer.Scan.Over.{over}
use tensorium_cc.Lexer.Outcome.{lexed}
use tensorium_cc.Lexer.Literal.{escape_value, lex_string}
use tensorium_cc.Lexer.Literal.RoundTrip.{
  Written, AllWritten, done, more, as_itself, behind_backslash, means, string_literal,
  lex_string-AllWritten,
}
use tensorium_cc.Preprocessor.Predefined.{escaped, quote_rest, quote}

abbrev pub NoNul : Bytes → Type 0
NoNul [] = Unit
NoNul (c ∷ text) = (c == 0) ≡ false × NoNul text

-- `quote` without its marks.
abbrev pub inside : Bytes → Bytes
inside [] = []
inside (c ∷ text) = escaped c ++ inside text

quote_rest-inside : (text : Bytes) → quote_rest text ≡ inside text ++ (b'"' ∷ [])
unfolding quote_rest
quote_rest-inside [] = refl
quote_rest-inside (c ∷ text) =
    ap (◌++◌ (escaped c)) (quote_rest-inside text)
    ∙ sym (append_assoc (escaped c) (inside text) (b'"' ∷ []))

mark-escape : (c : ℕ) → (c == b'\\' || c == b'"') ≡ true → escape_value c ≡ some c
unfolding escape_value
mark-escape c h = ground arith

escaped-Written : (c : ℕ) → (c == 0) ≡ false → Written c (escaped c)
unfolding escape_value
escaped-Written c z =
    if_ind (Written c) (c == b'\n') (λ h. behind_backslash b'n' (means b'\n' c h))
      λ n.
        if_ind (Written c) (c == b'\r') (λ h. behind_backslash b'r' (means b'\r' c h))
          λ r.
            if_ind (Written c) (c == b'\t') (λ h. behind_backslash b't' (means b'\t' c h))
              λ t.
                if_ind (Written c) (c == b'\\' || c == b'"')
                  (λ h. behind_backslash c (mark-escape c h))
                  λ h. let (b, q) = or_false (c == b'\\') (c == b'"') h in as_itself q b n z

inside-AllWritten : (text : Bytes) → NoNul text → AllWritten text (inside text)
inside-AllWritten [] h = done
inside-AllWritten (c ∷ text) (h, hs) = more (escaped-Written c h) (inside-AllWritten text hs)

-- A text without NUL that the preprocessor quotes, as it does for __FILE__, __DATE__ and __TIME__, is
-- read back by `lexString` as one STRING_LIT whose value is the text, at the place of its opening
-- quote, and the lexer stands behind the closing quote.
pub lex_string-quote :
    (src : Source) (text rest : Bytes) (s : Scan)
    → NoNul text
    → s.rest ≡ quote text ++ rest
    → lex_string src s
      ≡ lexed (string_literal text (inside text) (loc src s)) (over (quote text) rest s)
unfolding quote
lex_string-quote src text rest s h e =
    lex_string-AllWritten src text (inside text) rest s (inside-AllWritten text h) (
      e
      ∙ ap (λ q. b'"' ∷ (q ++ rest)) (quote_rest-inside text)
      ∙ ap (◌∷◌ b'"') (append_assoc (inside text) (b'"' ∷ []) rest))
    ∙ ap (λ q. lexed (string_literal text (inside text) (loc src s)) (over (b'"' ∷ q) rest s))
        (sym (quote_rest-inside text))
