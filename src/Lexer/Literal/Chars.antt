-- ===== src/Lexer/Literal/Chars.antt =====
-- A character literal that is written with the escapes of lib/Lex/Lexer.cpp is read back.
use tensorium_cc.Prelude.{
  ℕ, ◌≡◌, refl, ap, ◌∙◌, ◌||◌, Bool, false, some, [], ◌∷◌, ◌++◌, ◌==◌, if◌then◌else◌, if_ind, Bytes,
}
use tensorium_cc.Location.{SourceLoc}
use tensorium_cc.Token.{Token, TokenKind, char_val, make_token}
use tensorium_cc.Lexer.Scan.{Scan, Source, cur, advance, loc}
use tensorium_cc.Lexer.Scan.Over.{over, over-append, advance-over}
use tensorium_cc.Lexer.Outcome.{lexed, failed}
use tensorium_cc.Lexer.Literal.{escape_value, close_char, after_backslash, escaped_char, lex_char}
use tensorium_cc.Lexer.Literal.RoundTrip.{means}

-- What must not stand for itself between single quotes.
abbrev pub escape_char : ℕ → Bytes
escape_char c =
    if c == b'\''
    then b'\\' ∷ b'\'' ∷ []
    else if c == b'\\'
    then b'\\' ∷ b'\\' ∷ []
    else if c == b'\n'
    then b'\\' ∷ b'n' ∷ []
    else if c == 0
    then b'\\' ∷ b'0' ∷ []
    else c ∷ []

abbrev pub char_literal : ℕ → SourceLoc → Token
char_literal c at = record (make_token TokenKind.char_lit (escape_char c) at) {
  payload = char_val c;
}

third_branch {ℓ} :
    {A : Type ℓ} (a b : Bool) (x y : A) {z : A}
    → a ≡ false
    → b ≡ false
    → (if a then x else if b then y else z) ≡ z
third_branch a b x y ha hb = rw (ha, hb)

module _ (src : Source) (rest : Bytes) (s : Scan) where
  -- `lexChar` reads `word` between quotes as the value `c`.
  abbrev ReadsChar : ℕ → Bytes → Type 0
  ReadsChar c word =
      s.rest ≡ b'\'' ∷ (word ++ (b'\'' ∷ rest))
      → lex_char src s
        ≡ lexed (record (make_token TokenKind.char_lit word (loc src s)) { payload = char_val c })
            (over (b'\'' ∷ (word ++ (b'\'' ∷ []))) rest s)

  ReadsChar-plain :
      (c : ℕ)
      → (c == b'\'') ≡ false
      → (c == b'\\') ≡ false
      → (c == b'\n') ≡ false
      → (c == 0) ≡ false
      → ReadsChar c (c ∷ [])
  unfolding lex_char close_char cur
  ReadsChar-plain c q b n z e =
      let at = loc src s in
      let start = over (b'\'' ∷ []) (c ∷ b'\'' ∷ rest) s in
      let end = over (c ∷ []) (b'\'' ∷ rest) start in
      ap
        (λ t.
          if cur t == 0 || cur t == b'\n'
          then failed "unterminated character literal" at 1 t
          else if cur t == b'\\'
          then escaped_char src at t
          else close_char at (cur t ∷ []) (cur t) (advance t))
        (advance-over b'\'' (c ∷ b'\'' ∷ rest) s e)
      ∙ third_branch (c == 0 || c == b'\n') (c == b'\\')
          (failed "unterminated character literal" at 1 start) (escaped_char src at start)
          (rw (z, n)) b
      ∙ ap (close_char at (c ∷ []) c) (advance-over c (b'\'' ∷ rest) start refl)
      ∙ ap (lexed (record (make_token TokenKind.char_lit (c ∷ []) at) { payload = char_val c })) (
          advance-over b'\'' rest end refl
          ∙ ap (over (b'\'' ∷ []) rest)
              (over-append (b'\'' ∷ []) (c ∷ []) (b'\'' ∷ rest) (c ∷ b'\'' ∷ rest) s)
          ∙ over-append (b'\'' ∷ c ∷ []) (b'\'' ∷ []) rest (b'\'' ∷ rest) s)

  escaped_char-value :
      (at : SourceLoc) (t : Scan) (e c : ℕ)
      → escape_value e ≡ some c
      → cur (advance t) ≡ e
      → escaped_char src at t ≡ close_char at (b'\\' ∷ e ∷ []) c (advance (advance t))
  unfolding escaped_char after_backslash
  escaped_char-value at t e c h at_e =
      ap (after_backslash src at t (advance t)) (ap escape_value at_e ∙ h)
      ∙ ap (λ k. close_char at (b'\\' ∷ k ∷ []) c (advance (advance t))) at_e

  ReadsChar-escaped : (e c : ℕ) → escape_value e ≡ some c → ReadsChar c (b'\\' ∷ e ∷ [])
  unfolding lex_char close_char cur
  ReadsChar-escaped e c h eq =
      let at = loc src s in
      let start = over (b'\'' ∷ []) (b'\\' ∷ e ∷ b'\'' ∷ rest) s in
      let mid = over (b'\\' ∷ []) (e ∷ b'\'' ∷ rest) start in
      let end = over (e ∷ []) (b'\'' ∷ rest) mid in
      let at_mid = advance-over b'\\' (e ∷ b'\'' ∷ rest) start refl in
      ap
        (λ t.
          if cur t == 0 || cur t == b'\n'
          then failed "unterminated character literal" at 1 t
          else if cur t == b'\\'
          then escaped_char src at t
          else close_char at (cur t ∷ []) (cur t) (advance t))
        (advance-over b'\'' (b'\\' ∷ e ∷ b'\'' ∷ rest) s eq)
      ∙ escaped_char-value at start e c h (ap cur at_mid)
      ∙ ap (λ t. close_char at (b'\\' ∷ e ∷ []) c (advance t)) at_mid
      ∙ ap (close_char at (b'\\' ∷ e ∷ []) c) (advance-over e (b'\'' ∷ rest) mid refl)
      ∙ ap
          (lexed
            (record (make_token TokenKind.char_lit (b'\\' ∷ e ∷ []) at) { payload = char_val c }))
          (advance-over b'\'' rest end refl
            ∙ ap (λ t. over (b'\'' ∷ []) rest (over (e ∷ []) (b'\'' ∷ rest) t))
                (over-append (b'\'' ∷ []) (b'\\' ∷ []) (e ∷ b'\'' ∷ rest) (b'\\' ∷ e ∷ b'\'' ∷ rest)
                  s)
            ∙ ap (over (b'\'' ∷ []) rest)
                (over-append (b'\'' ∷ b'\\' ∷ []) (e ∷ []) (b'\'' ∷ rest) (e ∷ b'\'' ∷ rest) s)
            ∙ over-append (b'\'' ∷ b'\\' ∷ e ∷ []) (b'\'' ∷ []) rest (b'\'' ∷ rest) s)

-- Every byte, written between single quotes as itself or with the escape that it needs, is read back
-- by `lexChar` as one CHAR_LIT of that value, at the place of its opening quote, and the lexer
-- stands behind the closing quote.
pub lex_char-escape :
    (src : Source) (c : ℕ) (rest : Bytes) (s : Scan)
    → s.rest ≡ b'\'' ∷ (escape_char c ++ (b'\'' ∷ rest))
    → lex_char src s
      ≡ lexed (char_literal c (loc src s)) (over (b'\'' ∷ (escape_char c ++ (b'\'' ∷ []))) rest s)
unfolding escape_value
lex_char-escape src c rest s =
    let P = ReadsChar src rest s c in
    if_ind P (c == b'\'') (λ h. ReadsChar-escaped src rest s b'\'' c (means b'\'' c h))
      λ q.
        if_ind P (c == b'\\') (λ h. ReadsChar-escaped src rest s b'\\' c (means b'\\' c h))
          λ b.
            if_ind P (c == b'\n') (λ h. ReadsChar-escaped src rest s b'n' c (means b'\n' c h))
              λ n.
                if_ind P (c == 0) (λ h. ReadsChar-escaped src rest s b'0' c (means 0 c h))
                  (λ z. ReadsChar-plain src rest s c q b n z)
