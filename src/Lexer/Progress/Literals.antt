-- ===== src/Lexer/Progress/Literals.antt =====
-- `lexChar` and `lexString` move over input, by a byte at least.
use tensorium_cc.Prelude.{
  ℕ, ◌≡◌, refl, ◌||◌, Bool, true, false, Option, none, some, [], ◌∷◌, ◌==◌, if_ind, Option-cases,
  inl, inr, Bytes, arith,
}
use tensorium_cc.Location.{SourceLoc}
use tensorium_cc.Lexer.Scan.{Scan, Source, cur, advance_over, advance, loc}
use tensorium_cc.Lexer.Scan.Reads.{
  Reads, Reads-refl, Reads-trans, Reads-advance_over, rest-advance_over, Takes, Takes-trans,
  Takes-advance, IsLive, IsLive-cur, IsLive-nonzero,
}
use tensorium_cc.Lexer.Outcome.{behind}
use tensorium_cc.Lexer.Literal.{
  escape_value, close_char, after_backslash, escaped_char, lex_char, StringBody, body, broken,
  add_byte, string_over, string_token, lex_string,
}

escape_value-nonzero : (c v : ℕ) → escape_value c ≡ some v → (c == 0) ≡ false
unfolding escape_value
escape_value-nonzero c v h = ground arith

Reads-close_char :
    (at : SourceLoc) (text : Bytes) (value : ℕ) (t : Scan)
    → Reads t (behind (close_char at text value t))
unfolding close_char
Reads-close_char at text value t =
    if_ind (λ r. Reads t (behind r)) (cur t == b'\'')
      (λ h. (Takes-advance t (IsLive-cur t b'\'' (omega arith) h)).reads) (λ _. Reads-refl t)

Reads-after_backslash :
    (src : Source) (at : SourceLoc) (s e : Scan) (found : Option ℕ)
    → escape_value (cur e) ≡ found
    → Reads e (behind (after_backslash src at s e found))
unfolding after_backslash
Reads-after_backslash src at s e none h = Reads-refl e
Reads-after_backslash src at s e (some v) h =
    Reads-trans (Takes-advance e (IsLive-nonzero e (escape_value-nonzero (cur e) v h))).reads
      (Reads-close_char at _ v (advance e))

Reads-escaped_char :
    (src : Source) (at : SourceLoc) (s : Scan) → IsLive s → Reads s (behind (escaped_char src at s))
unfolding escaped_char
Reads-escaped_char src at s live =
    Reads-trans (Takes-advance s live).reads
      (Reads-after_backslash src at s (advance s) (escape_value (cur (advance s))) refl)

nonzero_part : (a b : Bool) → a || b ≡ false → a ≡ false
nonzero_part true b h = cc
nonzero_part false b h = refl

pub Takes-lex_char : (src : Source) (s : Scan) → IsLive s → Takes s (behind (lex_char src s))
unfolding lex_char
Takes-lex_char src s live =
    let first = Takes-advance s live in
    let t = advance s in
    if_ind (λ r. Takes s (behind r)) (cur t == 0 || cur t == b'\n') (λ _. first)
      λ some_byte.
        let here = IsLive-nonzero t (nonzero_part _ _ some_byte) in
        if_ind (λ r. Takes s (behind r)) (cur t == b'\\')
          (λ _. Takes-trans first (Reads-escaped_char src _ t here))
          (λ _.
            Takes-trans first
              (Reads-trans (Takes-advance t here).reads (Reads-close_char _ _ _ (advance t))))

abbrev pub body_end : StringBody → Scan
body_end (body value t) = t
body_end (broken m l n t) = t

-- The loop moves over input, and ends in front of a quote if it returns no error.
abbrev IsClosed : StringBody → Type 0
IsClosed (body value t) = (cur t == b'"') ≡ true
IsClosed (broken m l n t) = Unit

abbrev Ends : Scan → StringBody → Type 0
Ends s b = Reads s (body_end b) × IsClosed b

Ends-add_byte : (c : ℕ) {s t : Scan} (b : StringBody) → Reads s t → Ends t b → Ends s (add_byte c b)
Ends-add_byte c (body value u) r e = (Reads-trans r e.0, e.1)
Ends-add_byte c (broken m l n u) r e = (Reads-trans r e.0, tt)

Ends-trans : {s t : Scan} (b : StringBody) → Reads s t → Ends t b → Ends s b
Ends-trans b r e = (Reads-trans r e.0, e.1)

Ends-here :
    (c : ℕ) (cs : Bytes) (s : Scan) → s.rest ≡ c ∷ cs → (c == b'"') ≡ true → Ends s (body [] s)
Ends-here c cs s e h = (Reads-refl s, unfold cur in rw e h)

Ends-string_over :
    (src : Source) (at : SourceLoc) (escape : Option SourceLoc) (cs : Bytes) (s : Scan)
    → s.rest ≡ cs
    → Ends s (string_over src at escape cs s)
unfolding string_over
Ends-string_over src at none [] s e = (Reads-refl s, tt)
Ends-string_over src at (some l) [] s e = (Reads-refl s, tt)
Ends-string_over src at none (c ∷ cs) s e =
    let one = Reads-advance_over c cs s e in
    let t = advance_over (c ∷ cs) s in
    let escaped = Ends-string_over src at (some (loc src s)) cs t (rest-advance_over c cs s) in
    if_ind (Ends s) (c == b'"') (Ends-here c cs s e) λ _.
      if_ind (Ends s) (c == 0 || c == b'\n') (λ _. (Reads-refl s, tt))
        λ _.
          if_ind (Ends s) (c == b'\\') (λ _. Ends-trans _ one escaped)
            (λ _.
              Ends-add_byte c (string_over src at none cs t) one
                (Ends-string_over src at none cs t (rest-advance_over c cs s)))
Ends-string_over src at (some l) (c ∷ cs) s e =
    let t = advance_over (c ∷ cs) s in
    elim (Option-cases (escape_value c)) [
      | inl n ↦ rw (n, string_over) (Reads-refl s, tt)
      | inr (v, v_is) ↦
          rw (v_is, string_over)
            (Ends-add_byte v (string_over src at none cs t) (Reads-advance_over c cs s e)
              (Ends-string_over src at none cs t (rest-advance_over c cs s)))
    ]

Reads-string_token :
    (at : SourceLoc) (start : Scan) (b : StringBody)
    → Ends start b
    → Reads start (behind (string_token at start b))
unfolding string_token
Reads-string_token at start (body value t) e =
    Reads-trans e.0 (Takes-advance t (IsLive-cur t b'"' (omega arith) e.1)).reads
Reads-string_token at start (broken m l n t) e = e.0

pub Takes-lex_string : (src : Source) (s : Scan) → IsLive s → Takes s (behind (lex_string src s))
unfolding lex_string
Takes-lex_string src s live =
    Takes-trans (Takes-advance s live)
      (Reads-string_token _ (advance s) _ (Ends-string_over src _ none _ (advance s) refl))
