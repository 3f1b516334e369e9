-- ===== src/Lexer/Punct/Table.antt =====
-- The table of the punctuators that `lexPunct` of lib/Lex/Lexer.cpp knows, and `lexPunct` by it.
use tensorium_cc.Prelude.{
  ℕ, zero, suc, ◌+◌, ◌≡◌, refl, sym, ap, ◌∙◌, inl, inr, ◌&&◌, Bool, true, false, Option, none, some,
  List, [], ◌∷◌, ◌==◌, ==_iff, if◌then◌else◌, Bool-cases, length, get_or, Bytes, String, codes,
  arith,
}
use tensorium_cc.Location.{SourceLoc}
use tensorium_cc.Token.{TokenKind, make_token}
use tensorium_cc.Lexer.Scan.{Scan, Source, cur, look, advance, loc}
use tensorium_cc.Lexer.Outcome.{Lexed, lexed, failed}
use tensorium_cc.Lexer.Punct.{
  take_one, take_two, take_three, lex_dot, lex_hash, lex_plus, lex_minus, lex_star, lex_slash,
  lex_percent, lex_ampersand, lex_bar, lex_caret, lex_bang, lex_equals, lex_less, lex_greater,
  lex_punct,
}

-- The punctuators of C that the lexer knows, the longest first.
abbrev pub punctuators : List (String × TokenKind)
punctuators =
    ("...", TokenKind.ellipsis)
    ∷ ("<<=", TokenKind.lshift_assign)
    ∷ (">>=", TokenKind.rshift_assign)
    ∷ ("##", TokenKind.hashhash)
    ∷ ("++", TokenKind.plusplus)
    ∷ ("+=", TokenKind.plus_assign)
    ∷ ("--", TokenKind.minusminus)
    ∷ ("-=", TokenKind.minus_assign)
    ∷ ("->", TokenKind.arrow)
    ∷ ("*=", TokenKind.mul_assign)
    ∷ ("/=", TokenKind.div_assign)
    ∷ ("%=", TokenKind.mod_assign)
    ∷ ("&&", TokenKind.ampamp)
    ∷ ("&=", TokenKind.amp_assign)
    ∷ ("||", TokenKind.pipepipe)
    ∷ ("|=", TokenKind.pipe_assign)
    ∷ ("^=", TokenKind.caret_assign)
    ∷ ("!=", TokenKind.neq)
    ∷ ("==", TokenKind.eq)
    ∷ ("<<", TokenKind.lshift)
    ∷ ("<=", TokenKind.leq)
    ∷ (">>", TokenKind.rshift)
    ∷ (">=", TokenKind.geq)
    ∷ ("(", TokenKind.l_paren)
    ∷ (")", TokenKind.r_paren)
    ∷ ("{", TokenKind.l_brace)
    ∷ ("}", TokenKind.r_brace)
    ∷ ("[", TokenKind.l_bracket)
    ∷ ("]", TokenKind.r_bracket)
    ∷ (";", TokenKind.semicolon)
    ∷ (":", TokenKind.colon)
    ∷ (",", TokenKind.comma)
    ∷ ("?", TokenKind.question)
    ∷ ("~", TokenKind.tilde)
    ∷ (".", TokenKind.dot)
    ∷ ("#", TokenKind.hash)
    ∷ ("+", TokenKind.plus)
    ∷ ("-", TokenKind.minus)
    ∷ ("*", TokenKind.mul)
    ∷ ("/", TokenKind.div)
    ∷ ("%", TokenKind.modulo)
    ∷ ("&", TokenKind.amp)
    ∷ ("|", TokenKind.pipe)
    ∷ ("^", TokenKind.caret)
    ∷ ("!", TokenKind.bang)
    ∷ ("=", TokenKind.assign)
    ∷ ("<", TokenKind.lt)
    ∷ (">", TokenKind.gt)
    ∷ []

-- The input begins with `word`, at an offset. No punctuator holds the byte 0 that stands behind the
-- end of the input.
abbrev pub begins : Bytes → ℕ → Bytes → Bool
begins [] i input = true
begins (c ∷ cs) i input = get_or input i 0 == c && begins cs (i + 1) input

-- The first entry of a table that three bytes begin with.
abbrev pub begins_three : Bytes → ℕ → ℕ → ℕ → Bool
begins_three [] c d e = true
begins_three (x ∷ xs) c d e = c == x && begins_three xs d e 0

abbrev pub first_of_table : List (String × TokenKind) → ℕ → ℕ → ℕ → Option (String × TokenKind)
first_of_table [] c d e = none
first_of_table ((word, kind) ∷ rest) c d e =
    if begins_three (codes word) c d e then some (word, kind) else first_of_table rest c d e

unfoldable pub longest : ℕ → ℕ → ℕ → Option (String × TokenKind)
longest = first_of_table punctuators

abbrev pub advances : ℕ → Scan → Scan
advances zero s = s
advances (suc n) s = advances n (advance s)

-- The outcome for the punctuator that is found.
abbrev pub took : SourceLoc → Scan → Option (String × TokenKind) → Lexed
took at s none = failed "unknown character" at 1 (advance s)
took at s (some (word, kind)) =
    lexed (make_token kind (codes word) at) (advances (length (codes word)) s)

module _ (at : SourceLoc) (s : Scan) where
  lex_dot-longest : lex_dot at s ≡ took at s (longest b'.' (look s 1) (look s 2))
  unfolding lex_dot longest take_one take_two take_three
  lex_dot-longest = ground arith

  lex_hash-longest : lex_hash at s ≡ took at s (longest b'#' (look s 1) (look s 2))
  unfolding lex_hash longest take_one take_two take_three
  lex_hash-longest = ground arith

  lex_plus-longest : lex_plus at s ≡ took at s (longest b'+' (look s 1) (look s 2))
  unfolding lex_plus longest take_one take_two take_three
  lex_plus-longest = ground arith

  lex_minus-longest : lex_minus at s ≡ took at s (longest b'-' (look s 1) (look s 2))
  unfolding lex_minus longest take_one take_two take_three
  lex_minus-longest = ground arith

  lex_star-longest : lex_star at s ≡ took at s (longest b'*' (look s 1) (look s 2))
  unfolding lex_star longest take_one take_two take_three
  lex_star-longest = ground arith

  lex_slash-longest : lex_slash at s ≡ took at s (longest b'/' (look s 1) (look s 2))
  unfolding lex_slash longest take_one take_two take_three
  lex_slash-longest = ground arith

  lex_percent-longest : lex_percent at s ≡ took at s (longest b'%' (look s 1) (look s 2))
  unfolding lex_percent longest take_one take_two take_three
  lex_percent-longest = ground arith

  lex_ampersand-longest : lex_ampersand at s ≡ took at s (longest b'&' (look s 1) (look s 2))
  unfolding lex_ampersand longest take_one take_two take_three
  lex_ampersand-longest = ground arith

  lex_bar-longest : lex_bar at s ≡ took at s (longest b'|' (look s 1) (look s 2))
  unfolding lex_bar longest take_one take_two take_three
  lex_bar-longest = ground arith

  lex_caret-longest : lex_caret at s ≡ took at s (longest b'^' (look s 1) (look s 2))
  unfolding lex_caret longest take_one take_two take_three
  lex_caret-longest = ground arith

  lex_bang-longest : lex_bang at s ≡ took at s (longest b'!' (look s 1) (look s 2))
  unfolding lex_bang longest take_one take_two take_three
  lex_bang-longest = ground arith

  lex_equals-longest : lex_equals at s ≡ took at s (longest b'=' (look s 1) (look s 2))
  unfolding lex_equals longest take_one take_two take_three
  lex_equals-longest = ground arith

  lex_less-longest : lex_less at s ≡ took at s (longest b'<' (look s 1) (look s 2))
  unfolding lex_less longest take_one take_two take_three
  lex_less-longest = ground arith

  lex_greater-longest : lex_greater at s ≡ took at s (longest b'>' (look s 1) (look s 2))
  unfolding lex_greater longest take_one take_two take_three
  lex_greater-longest = ground arith

-- The branch of one byte in the `switch`.
at_byte :
    (at : SourceLoc) (s : Scan) (c k d e : ℕ) {x y : Lexed}
    → x ≡ took at s (longest k d e)
    → ((c == k) ≡ false → y ≡ took at s (longest c d e))
    → (if c == k then x else y) ≡ took at s (longest c d e)
at_byte at s c k d e here other = elim (Bool-cases (c == k)) [
  | inl h ↦ rw h (here ∙ ap (λ n. took at s (longest n d e)) (sym ((==_iff c k).0 h)))
  | inr h ↦ rw h (other h)
]

longest-none :
    (c d e : ℕ)
    → (c == b'(') ≡ false
    → (c == b')') ≡ false
    → (c == b'{') ≡ false
    → (c == b'}') ≡ false
    → (c == b'[') ≡ false
    → (c == b']') ≡ false
    → (c == b';') ≡ false
    → (c == b':') ≡ false
    → (c == b',') ≡ false
    → (c == b'?') ≡ false
    → (c == b'~') ≡ false
    → (c == b'.') ≡ false
    → (c == b'#') ≡ false
    → (c == b'+') ≡ false
    → (c == b'-') ≡ false
    → (c == b'*') ≡ false
    → (c == b'/') ≡ false
    → (c == b'%') ≡ false
    → (c == b'&') ≡ false
    → (c == b'|') ≡ false
    → (c == b'^') ≡ false
    → (c == b'!') ≡ false
    → (c == b'=') ≡ false
    → (c == b'<') ≡ false
    → (c == b'>') ≡ false
    → longest c d e ≡ none
unfolding longest
longest-none c d e h0 h1 h2 h3 h4 h5 h6 h7 h8 h9 h10 h11 h12 h13 h14 h15 h16 h17 h18 h19 h20 h21 h22
      h23 h24 =
    rw (
      h0, h1, h2, h3, h4, h5, h6, h7, h8, h9, h10, h11, h12, h13, h14, h15, h16, h17, h18, h19, h20,
      h21, h22, h23, h24,
    )

-- `lexPunct` makes the token of the entry that the table of punctuators gives for the input, and
-- reports an unknown character where no entry fits.
pub lex_punct-table :
    (src : Source) (s : Scan)
    → lex_punct src s ≡ took (loc src s) s (longest (cur s) (look s 1) (look s 2))
unfolding lex_punct take_one
lex_punct-table src s =
    let at = loc src s in
    let c = cur s in
    let d = look s 1 in
    let e = look s 2 in
    at_byte at s c b'(' d e (unfold longest in refl) λ h0.
      at_byte at s c b')' d e (unfold longest in refl) λ h1.
        at_byte at s c b'{' d e (unfold longest in refl) λ h2.
          at_byte at s c b'}' d e (unfold longest in refl) λ h3.
            at_byte at s c b'[' d e (unfold longest in refl) λ h4.
              at_byte at s c b']' d e (unfold longest in refl) λ h5.
                at_byte at s c b';' d e (unfold longest in refl) λ h6.
                  at_byte at s c b':' d e (unfold longest in refl) λ h7.
                    at_byte at s c b',' d e (unfold longest in refl) λ h8.
                      at_byte at s c b'?' d e (unfold longest in refl) λ h9.
                        at_byte at s c b'~' d e (unfold longest in refl) λ h10.
                          at_byte at s c b'.' d e (lex_dot-longest at s) λ h11.
                            at_byte at s c b'#' d e (lex_hash-longest at s) λ h12.
                              at_byte at s c b'+' d e (lex_plus-longest at s) λ h13.
                                at_byte at s c b'-' d e (lex_minus-longest at s) λ h14.
                                  at_byte at s c b'*' d e (lex_star-longest at s) λ h15.
                                    at_byte at s c b'/' d e (lex_slash-longest at s) λ h16.
                                      at_byte at s c b'%' d e (lex_percent-longest at s) λ h17.
                                        at_byte at s c b'&' d e (lex_ampersand-longest at s) λ h18.
                                          at_byte at s c b'|' d e (lex_bar-longest at s) λ h19.
                                            at_byte at s c b'^' d e (lex_caret-longest at s) λ h20.
                                              at_byte at s c b'!' d e (lex_bang-longest at s) λ h21.
                                                at_byte at s c b'=' d e (lex_equals-longest at s)
                                                  λ h22.
                                                    at_byte at s c b'<' d e (lex_less-longest at s)
                                                      λ h23.
                                                        at_byte at s c b'>' d e
                                                          (lex_greater-longest at s)
                                                          λ h24. ap (took at s) (
                                                            sym (
                                                            longest-none c d e h0 h1 h2 h3 h4 h5 h6
                                                            h7 h8 h9 h10 h11 h12 h13 h14 h15 h16 h17
                                                            h18 h19 h20 h21 h22 h23 h24))
