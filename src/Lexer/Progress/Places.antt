-- ===== src/Lexer/Progress/Places.antt =====
-- The places that lib/Lex/Lexer.cpp gives to its tokens and reports its errors at.
use tensorium_cc.Prelude.{
  ℕ, ◌≡◌, refl, Bool, true, false, ◌&&◌, ◌||◌, Option, none, some, Option-cases, inl, inr, [], ◌∷◌,
  ◌==◌, if◌then◌else◌, if_ind, Bytes, String, zero, suc,
}
use tensorium_cc.Location.{SourceLoc}
use tensorium_cc.Numeral.{Conversion, converted, invalid_argument, out_of_range}
use tensorium_cc.Token.{TokenKind, Payload, make_token}
use tensorium_cc.Lexer.Bytes.{is_ident_start, is_digit}
use tensorium_cc.Lexer.Scan.{Scan, Source, cur, look, advance_over, advance, loc}
use tensorium_cc.Lexer.Scan.Reads.{
  Reads, Reads-refl, Reads-trans, Reads-advance_over, rest-advance_over, Takes-advance, IsLive,
}
use tensorium_cc.Lexer.Outcome.{Lexed, lexed, failed}
use tensorium_cc.Lexer.Space.{
  Skipped, skipped, unterminated, Round, again, stop, open_comment, go_on, at_end, block_comment,
  closed_or, skip_round, skip, skip_white_space_and_comments,
}
use tensorium_cc.Lexer.Bytes.{is_space}
use tensorium_cc.Lexer.Ident.{lex_ident}
use tensorium_cc.Lexer.Number.{number_token, lex_number, numeric}
use tensorium_cc.Lexer.Literal.{
  escape_value, close_char, after_backslash, escaped_char, lex_char, StringBody, body, broken,
  add_byte, string_over, string_token, lex_string,
}
use tensorium_cc.Lexer.Punct.{
  take_one, take_two, take_three, lex_dot, lex_hash, lex_plus, lex_minus, lex_star, lex_slash,
  lex_percent, lex_ampersand, lex_bar, lex_caret, lex_bang, lex_equals, lex_less, lex_greater,
  lex_punct,
}
use tensorium_cc.Lexer.Next.{lex_token}
use tensorium_cc.Lexer.Progress.Space.{IsLive-at_end, RoundReads, skip_round-RoundReads}

-- The token or the error stands at one place.
abbrev At : SourceLoc → Lexed → Type 0
At at (lexed t u) = t.loc ≡ at
At at (failed m l n u) = l ≡ at

At-if : (at : SourceLoc) (b : Bool) (x y : Lexed) → At at x → At at y → At at (if b then x else y)
At-if at true x y hx hy = hx
At-if at false x y hx hy = hy

At-token :
    (kind : TokenKind) (text : Bytes) (at : SourceLoc) (u : Scan)
    → At at (lexed (make_token kind text at) u)
At-token kind text at u = refl

At-failed : (m : String) (at : SourceLoc) (n : ℕ) (u : Scan) → At at (failed m at n u)
At-failed m at n u = refl

ruleset places = (At-if, At-token, At-failed)

At-lex_punct : (src : Source) (s : Scan) → At (loc src s) (lex_punct src s)
unfolding take_one take_two take_three lex_dot lex_hash lex_plus lex_minus lex_star lex_slash
    lex_percent lex_ampersand lex_bar lex_caret lex_bang lex_equals lex_less lex_greater lex_punct
At-lex_punct src s = search places depth 60

At-number_token :
    (kind : TokenKind) (value : ℕ → Payload) (used : ℕ) (text : Bytes) (at : SourceLoc) (t : Scan)
    (c : Conversion)
    → At at (number_token kind value used text at t c)
unfolding number_token
At-number_token kind value used text at t (converted v k) = At-if at (k == used) _ _ refl refl
At-number_token kind value used text at t invalid_argument = refl
At-number_token kind value used text at t out_of_range = refl

At-lex_number :
    (stod : Bytes → Conversion) (src : Source) (s : Scan) → At (loc src s) (lex_number stod src s)
unfolding lex_number
At-lex_number stod src s =
    At-if (loc src s) (numeric s).is_float _ _ (At-number_token _ _ _ _ _ _ _)
      (At-number_token _ _ _ _ _ _ _)

module _ (src : Source) where
  -- A token stands where the method began, an error there or at a place that it has read to.
  abbrev pub Placed : Scan → Lexed → Type 0
  Placed s (lexed t u) = t.loc ≡ loc src s
  Placed s (failed m l n u) = (v : Scan) × Reads s v × (l ≡ loc src v)

  Placed-At : (s : Scan) (r : Lexed) → At (loc src s) r → Placed s r
  Placed-At s (lexed t u) h = h
  Placed-At s (failed m l n u) h = (s, Reads-refl s, h)

  Placed-close_char :
      (s : Scan) (text : Bytes) (value : ℕ) (t : Scan)
      → Placed s (close_char (loc src s) text value t)
  unfolding close_char
  Placed-close_char s text value t =
      if_ind (Placed s) (cur t == b'\'') (λ _. refl) (λ _. (s, Reads-refl s, refl))

  Placed-after_backslash :
      (s t e : Scan) (o : Option ℕ) → Reads s t → Placed s (after_backslash src (loc src s) t e o)
  unfolding after_backslash
  Placed-after_backslash s t e none r = (t, r, refl)
  Placed-after_backslash s t e (some value) r = Placed-close_char s _ value (advance e)

  Placed-lex_char : (s : Scan) → IsLive s → Placed s (lex_char src s)
  unfolding lex_char escaped_char
  Placed-lex_char s live =
      let t = advance s in
      if_ind (Placed s) (cur t == 0 || cur t == b'\n') (λ _. (s, Reads-refl s, refl))
        λ _.
          if_ind (Placed s) (cur t == b'\\')
            (λ _. Placed-after_backslash s t (advance t) _ (Takes-advance s live).reads)
            (λ _. Placed-close_char s _ _ (advance t))

  -- The error of the loop of `lexString` behind `s`.
  abbrev PlacedBody : Scan → StringBody → Type 0
  PlacedBody s (body value t) = Unit
  PlacedBody s (broken m l n t) = (v : Scan) × Reads s v × (l ≡ loc src v)

  PlacedBody-add_byte :
      (s : Scan) (c : ℕ) (b : StringBody) → PlacedBody s b → PlacedBody s (add_byte c b)
  PlacedBody-add_byte s c (body value t) h = h
  PlacedBody-add_byte s c (broken m l n t) h = h

  -- The place of an open escape.
  abbrev PlacedEscape : Scan → Option SourceLoc → Type 0
  PlacedEscape s none = Unit
  PlacedEscape s (some l) = (v : Scan) × Reads s v × (l ≡ loc src v)

  PlacedBody-string_over :
      (s : Scan) (escape : Option SourceLoc) (cs : Bytes) (t : Scan)
      → t.rest ≡ cs
      → Reads s t
      → PlacedEscape s escape
      → PlacedBody s (string_over src (loc src s) escape cs t)
  unfolding string_over
  PlacedBody-string_over s none [] t e r h = (s, Reads-refl s, refl)
  PlacedBody-string_over s (some l) [] t e r h = h
  PlacedBody-string_over s none (c ∷ cs) t e r h =
      let P = PlacedBody s in
      let u = advance_over (c ∷ cs) t in
      let behind = Reads-trans r (Reads-advance_over c cs t e) in
      let rest = rest-advance_over c cs t in
      if_ind P (c == b'"') (λ _. _)
        λ _.
          if_ind P (c == 0 || c == b'\n') (λ _. (s, Reads-refl s, refl))
            λ _.
              if_ind P (c == b'\\')
                (λ _. PlacedBody-string_over s (some (loc src t)) cs u rest behind (t, r, refl))
                (λ _. PlacedBody-add_byte s c _ (PlacedBody-string_over s none cs u rest behind _))
  PlacedBody-string_over s (some l) (c ∷ cs) t e r h = elim (Option-cases (escape_value c)) [
    | inl n ↦ rw (n, string_over) h
    | inr (v, v_is) ↦
        rw (v_is, string_over)
          (PlacedBody-add_byte s v _ (
            PlacedBody-string_over s none cs (advance_over (c ∷ cs) t) (rest-advance_over c cs t)
              (Reads-trans r (Reads-advance_over c cs t e)) _))
  ]

  Placed-string_token :
      (s start : Scan) (b : StringBody)
      → PlacedBody s b
      → Placed s (string_token (loc src s) start b)
  unfolding string_token
  Placed-string_token s start (body value t) h = refl
  Placed-string_token s start (broken m l n t) h = h

  Placed-lex_string : (s : Scan) → IsLive s → Placed s (lex_string src s)
  unfolding lex_string
  Placed-lex_string s live = Placed-string_token s (advance s) _ (
      PlacedBody-string_over s none (advance s).rest (advance s) refl (Takes-advance s live).reads
        _)

  pub lex_token-Placed : (stod : Bytes → Conversion) (s : Scan) → Placed s (lex_token stod src s)
  unfolding lex_token lex_ident
  lex_token-Placed stod s =
      let P = Placed s in
      if_ind P (at_end s.rest) (λ _. refl)
        λ h.
          let live = IsLive-at_end s h in
          if_ind P (is_ident_start (cur s)) (λ _. refl)
            λ _.
              if_ind P (is_digit (cur s) || cur s == b'.' && is_digit (look s 1))
                (λ _. Placed-At s _ (At-lex_number stod src s))
                λ _.
                  if_ind P (cur s == b'\'') (λ _. Placed-lex_char s live)
                    λ _.
                      if_ind P (cur s == b'"') (λ _. Placed-lex_string s live)
                        (λ _. Placed-At s _ (At-lex_punct src s))

  -- An open comment is reported where it begins.
  abbrev PlacedRound : Scan → Round → Type 0
  PlacedRound s (open_comment start t) = start ≡ loc src s
  PlacedRound s _ = Unit

  PlacedRound-closed_or : (s : Scan) (r : Bool × Scan) → PlacedRound s (closed_or (loc src s) r)
  PlacedRound-closed_or s (true, t) = _
  PlacedRound-closed_or s (false, t) = refl

  PlacedRound-skip_round : (s : Scan) → PlacedRound s (skip_round src s)
  unfolding skip_round block_comment
  PlacedRound-skip_round s =
      let P = PlacedRound s in
      if_ind P (at_end s.rest) (λ _. _)
        λ _.
          if_ind P (is_space (cur s)) (λ _. _)
            λ _.
              if_ind P (src.allow_line_comments && cur s == b'/' && look s 1 == b'/') (λ _. _)
                λ _.
                  if_ind P (cur s == b'/' && look s 1 == b'*') (λ _. PlacedRound-closed_or s _)
                    (λ _. _)

  abbrev pub PlacedComment : Scan → Skipped → Type 0
  PlacedComment s (skipped t) = Unit
  PlacedComment s (unterminated start t) = (v : Scan) × Reads s v × (start ≡ loc src v)

  PlacedComment-trans :
      {s t : Scan} (k : Skipped) → Reads s t → PlacedComment t k → PlacedComment s k
  PlacedComment-trans (skipped u) r h = _
  PlacedComment-trans (unterminated start u) r (v, w, e) = (v, Reads-trans r w, e)

  PlacedComment-go_on :
      (s : Scan) (rest : Scan → Skipped) (r : Round)
      → ((t : Scan) → PlacedComment t (rest t))
      → RoundReads s r
      → PlacedRound s r
      → PlacedComment s (go_on rest r)
  unfolding go_on
  PlacedComment-go_on s rest (again t) ih h p = PlacedComment-trans (rest t) h.reads (ih t)
  PlacedComment-go_on s rest (stop t) ih h p = _
  PlacedComment-go_on s rest (open_comment start t) ih h p = (s, Reads-refl s, p)

  PlacedComment-skip : (fuel : ℕ) (s : Scan) → PlacedComment s (skip src fuel s)
  unfolding skip
  PlacedComment-skip zero s = _
  PlacedComment-skip (suc fuel) s =
      PlacedComment-go_on s (skip src fuel) _ (PlacedComment-skip fuel)
        (skip_round-RoundReads src s) (PlacedRound-skip_round s)

  pub skip_white_space_and_comments-PlacedComment :
      (s : Scan) → PlacedComment s (skip_white_space_and_comments src s)
  unfolding skip_white_space_and_comments
  skip_white_space_and_comments-PlacedComment s = PlacedComment-skip _ s
