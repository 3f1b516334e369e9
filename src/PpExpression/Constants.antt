-- ===== src/PpExpression/Constants.antt =====
-- The constants of a directive: `number`, `character` and the names of lib/Lex/PPExpression.cpp.
use tensorium_cc.Prelude.{
  ℕ, ◌+◌, ◌%◌, ◌≤◌, ◌<◌, ◌≡◌, ◌⊎◌, refl, ap, ◌∙◌, Bool, true, false, not, ◌&&◌, ◌||◌, some, [], ◌∷◌,
  ◌++◌, ltb, leb, ◌==◌, if◌then◌else◌, get_or, Bool-cases, inl, inr, Bytes, same_bytes, arith,
}
use tensorium_cc.Location.{SourceLoc}
use tensorium_cc.Lexer.Bytes.{is_ident_start, is_alpha}
use tensorium_cc.Lexer.Literal.Chars.{escape_char, lex_char-escape}
use tensorium_cc.Preprocessor.{PpToken}
use tensorium_cc.Numeral.{Conversion}
use tensorium_cc.Lexer.Bytes.{is_space, is_digit}
use tensorium_cc.Lexer.Scan.{Scan, Source, cur, look}
use tensorium_cc.Lexer.Space.{stop, go_on, skip_round, skip, skip_white_space_and_comments}
use tensorium_cc.Lexer.Literal.{lex_char}
use tensorium_cc.Lexer.Next.{new_lexer, lex_token, scan_token, settle, next}
use tensorium_cc.PpExpression.State.{State, Value, no_value, fail, skip_token}
use tensorium_cc.PpExpression.Operators.{is}
use tensorium_cc.PpExpression.Numbers.{lower, is_suffix, has_u, suffixed, number}
use tensorium_cc.PpExpression.Parse.{Setting, is_unary, primary, character}
use tensorium_cc.PpExpression.Meaning.{
  SameLetters, no_letters, lower_case, upper_case, Suffix, suffix_u, suffix_l, suffix_ll, suffix_ul,
  suffix_lu, suffix_ull, suffix_llu, no_suffix, max_signed, IsConstant, name, integer_constant,
  character_constant,
}

-- A token that is no operator and no parenthesis.
abbrev pub Plain : Bytes → Type 0
Plain text = is_unary text ≡ false × is text "(" ≡ false

Plain-start :
    (c : ℕ) (cs : Bytes)
    → (c == b'+') ≡ false
    → (c == b'-') ≡ false
    → (c == b'!') ≡ false
    → (c == b'~') ≡ false
    → (c == b'(') ≡ false
    → Plain (c ∷ cs)
unfolding is_unary same_bytes
Plain-start c cs p m n t o = (rw (p, m, n, t), rw o)

Plain-ident_start : (c : ℕ) (cs : Bytes) → is_ident_start c ≡ true → Plain (c ∷ cs)
unfolding is_ident_start is_alpha
Plain-ident_start c cs h =
    Plain-start c cs (ground arith) (ground arith) (ground arith) (ground arith) (ground arith)

lower-SameLetters : (s t : Bytes) → SameLetters s t → lower s ≡ t
unfolding lower
lower-SameLetters _ _ no_letters = refl
lower-SameLetters _ _ (lower_case {c} {s} {t} h more) =
    let plain : (leb b'A' c && leb c b'Z') ≡ false = ground arith in
    rw plain (ap (◌∷◌ c) (lower-SameLetters s t more))
lower-SameLetters _ _ (upper_case {c} {s} {t} h h' more) =
    let letter : (leb b'A' c && leb c b'Z') ≡ true = ground arith in
    rw letter (ap (◌∷◌ (c + 32)) (lower-SameLetters s t more))

-- The two tests of a suffix.
Suffix-tests : (s : Bytes) (u : Bool) → Suffix s u → is_suffix s ≡ true × has_u s ≡ u
unfolding is_suffix has_u same_bytes
Suffix-tests _ _ no_suffix = (refl, refl)
Suffix-tests _ _ suffix_u = (refl, refl)
Suffix-tests _ _ suffix_l = (refl, refl)
Suffix-tests _ _ suffix_ll = (refl, refl)
Suffix-tests _ _ suffix_ul = (refl, refl)
Suffix-tests _ _ suffix_lu = (refl, refl)
Suffix-tests _ _ suffix_ull = (refl, refl)
Suffix-tests _ _ suffix_llu = (refl, refl)

suffixed-value :
    (loc : SourceLoc) (text suffix : Bytes) (n : ℕ) (u : Bool) (s : State)
    → Suffix suffix u
    → (n ≤ max_signed ⊎ (u ≡ true ⊎ get_or text 0 0 ≡ b'0'))
    → suffixed loc text n suffix s
      ≡ (record { bits = n; unsigned_value = u || ltb max_signed n }, s)
unfolding suffixed
suffixed-value loc text suffix n u s h fits =
    let (known, has) = Suffix-tests suffix u h in rw (suffixed, known, has) (go u fits)
  where
    go :
        (w : Bool)
        → (n ≤ max_signed ⊎ (w ≡ true ⊎ get_or text 0 0 ≡ b'0'))
        → ◌≡◌ {A = Value × State}
            (if not w && ltb max_signed n
              then (if not (get_or text 0 0 == b'0')
                  then (no_value, fail loc "integer constant is out of range in #if expression" s)
                  else (record { bits = n; unsigned_value = true }, s))
              else (record { bits = n; unsigned_value = w }, s))
            (record { bits = n; unsigned_value = w || ltb max_signed n }, s)
    go true fits = refl
    go false (inl low) = let small : ltb max_signed n ≡ false = ground arith in rw small refl
    go false (inr (inl u_is)) = cc
    go false (inr (inr octal)) = elim (Bool-cases (ltb max_signed n)) [
      | inl e ↦ rw (e, octal) refl
      | inr e ↦ rw e refl
    ]

pub IsConstant-Plain : (t : PpToken) (v : Value) → IsConstant t v → Plain t.text
IsConstant-Plain t _ (name c cs k e h) = rw e (Plain-ident_start c cs h)
IsConstant-Plain t _ (integer_constant c cs n end k e low high conv spelled suffix fits) =
    rw e
      (Plain-start c cs (ground arith) (ground arith) (ground arith) (ground arith) (ground arith))
IsConstant-Plain t _ (character_constant c k small e) =
    rw e (Plain-start b'\'' _ refl refl refl refl refl)

-- Neither space nor comment begins with a quote.
skip_round-quote :
    (src : Source) (cs : Bytes) (s : Scan) → s.rest ≡ b'\'' ∷ cs → skip_round src s ≡ stop s
unfolding skip_round cur look is_space
skip_round-quote src cs s e = elim (Bool-cases src.allow_line_comments) [
  | inl a ↦ rw (skip_round, cur, look, e, a) refl
  | inr a ↦ rw (skip_round, cur, look, e, a) refl
]

scan_token-quote :
    (stod : Bytes → Conversion) (src : Source) (cs : Bytes) (s : Scan)
    → s.rest ≡ b'\'' ∷ cs
    → scan_token stod src s ≡ lex_char src s
unfolding scan_token skip_white_space_and_comments skip go_on lex_token cur is_ident_start is_alpha
    is_digit
scan_token-quote stod src cs s e =
    let stops = skip_round-quote src cs s e in rw (scan_token, stops, e) refl

character-value :
    (set : Setting) (t : PpToken) (c : ℕ) (s : State)
    → c < 256
    → t.text ≡ b'\'' ∷ (escape_char c ++ (b'\'' ∷ []))
    → character set t s ≡ (record { bits = c; unsigned_value = false }, skip_token s)
unfolding character next new_lexer settle
character-value set t c s small e =
    let src : Source = record {
      filename = t.loc.filename;
      allow_line_comments = set.allow_line_comments;
      source_locations = t.spelling_locations;
    } in
    let start = (new_lexer t.text src s.diagnostics t.loc).scan in
    let read = scan_token-quote set.stod src _ start e ∙ lex_char-escape src c [] start e in
    let byte : c % 256 ≡ c = omega arith in
    rw read (ap (λ (n : ℕ). (record { bits = n; unsigned_value = false }, skip_token s)) byte)

pub primary-IsConstant :
    (set : Setting) (t : PpToken) (v : Value) (s : State)
    → IsConstant t v
    → primary set t.kind t s ≡ some (v, skip_token s)
unfolding primary number
primary-IsConstant set t _ s (name c cs k e h) = ap (λ kind. primary set kind t s) k
primary-IsConstant set t _ s (integer_constant c cs n end k e low high conv spelled suffix fits) =
    let value = suffixed-value set.loc t.text _ n _ s suffix (rw e fits) in
    ap (λ kind. primary set kind t s) k ∙ rw (conv, lower-SameLetters _ _ spelled, value) refl
primary-IsConstant set t _ s (character_constant c k small e) =
    ap (λ kind. primary set kind t s) k ∙ ap some (character-value set t c s small e)
