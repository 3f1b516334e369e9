-- ===== src/Lexer/Literal/RoundTrip.antt =====
-- A string literal that is written with the escapes of lib/Lex/Lexer.cpp is read back.
use mathlib.Core.Path.{ap₂}
use mathlib.Core.List.{append_assoc}
use tensorium_cc.Prelude.{
  ℕ, ◌-◌, ◌≡◌, refl, sym, ap, ◌∙◌, true, false, none, some, [], ◌∷◌, ◌++◌, ◌==◌, if◌then◌else◌,
  if_ind, ==_iff, length, take, Bytes, arith,
}
use tensorium_cc.Location.{SourceLoc}
use tensorium_cc.Token.{Token, TokenKind, make_token}
use tensorium_cc.Lexer.Scan.{Scan, Source, advance_over, loc}
use tensorium_cc.Lexer.Scan.Over.{over, over-nil, over-append, advance_over-over, advance-over}
use tensorium_cc.Lexer.Outcome.{lexed}
use tensorium_cc.Lexer.Literal.{escape_value, body, add_byte, string_over, string_token, lex_string}

-- What must not stand for itself between double quotes.
abbrev pub escape_byte : ℕ → Bytes
escape_byte c =
    if c == b'"'
    then b'\\' ∷ b'"' ∷ []
    else if c == b'\\'
    then b'\\' ∷ b'\\' ∷ []
    else if c == b'\n'
    then b'\\' ∷ b'n' ∷ []
    else if c == 0
    then b'\\' ∷ b'0' ∷ []
    else c ∷ []

abbrev pub escape : Bytes → Bytes
escape [] = []
escape (c ∷ cs) = escape_byte c ++ escape cs

advance_twice :
    (c e : ℕ) (cs : Bytes) (s : Scan)
    → advance_over (e ∷ cs) (advance_over (c ∷ e ∷ cs) s) ≡ over (c ∷ e ∷ []) cs s
advance_twice c e cs s =
    ap (advance_over (e ∷ cs)) (advance_over-over c (e ∷ cs) s)
    ∙ advance_over-over e cs (over (c ∷ []) (e ∷ cs) s)
    ∙ over-append (c ∷ []) (e ∷ []) cs (e ∷ cs) s

pub means : (k c : ℕ) → (c == k) ≡ true → some k ≡ some c
means k c h = ap some (sym ((==_iff c k).0 h))

-- How a byte of the value can be spelled between double quotes.
pub data Written (c : ℕ) : Bytes → Type 0 where
  as_itself :
      (c == b'"') ≡ false
      → (c == b'\\') ≡ false
      → (c == b'\n') ≡ false
      → (c == 0) ≡ false
      → Written c (c ∷ [])
  behind_backslash : (e : ℕ) → escape_value e ≡ some c → Written c (b'\\' ∷ e ∷ [])

pub data AllWritten : Bytes → Bytes → Type 0 where
  done : AllWritten [] []
  more :
      {c : ℕ} {w value text : Bytes}
      → Written c w
      → AllWritten value text
      → AllWritten (c ∷ value) (w ++ text)

escape_byte-Written : (c : ℕ) → Written c (escape_byte c)
unfolding escape_value
escape_byte-Written c =
    if_ind (Written c) (c == b'"') (λ h. behind_backslash b'"' (means b'"' c h))
      λ q.
        if_ind (Written c) (c == b'\\') (λ h. behind_backslash b'\\' (means b'\\' c h))
          λ b.
            if_ind (Written c) (c == b'\n') (λ h. behind_backslash b'n' (means b'\n' c h))
              λ n.
                if_ind (Written c) (c == 0) (λ h. behind_backslash b'0' (means 0 c h))
                  (λ z. as_itself q b n z)

escape-AllWritten : (value : Bytes) → AllWritten value (escape value)
escape-AllWritten [] = done
escape-AllWritten (c ∷ value) = more (escape_byte-Written c) (escape-AllWritten value)

module _ (src : Source) (at : SourceLoc) where
  -- A byte that stands for itself.
  string_over-plain :
      (c : ℕ) (cs : Bytes) (s : Scan)
      → (c == b'"') ≡ false
      → (c == b'\\') ≡ false
      → (c == b'\n') ≡ false
      → (c == 0) ≡ false
      → string_over src at none (c ∷ cs) s
        ≡ add_byte c (string_over src at none cs (over (c ∷ []) cs s))
  string_over-plain c cs s q b n z = unfold string_over in rw (advance_over-over, q, z, n, b)

  string_over-backslash :
      (cs : Bytes) (s : Scan)
      → string_over src at none (b'\\' ∷ cs) s
        ≡ string_over src at (some (loc src s)) cs (advance_over (b'\\' ∷ cs) s)
  unfolding string_over
  string_over-backslash cs s = refl

  string_over-escape :
      (l : SourceLoc) (e v : ℕ) (cs : Bytes) (s : Scan)
      → escape_value e ≡ some v
      → string_over src at (some l) (e ∷ cs) s
        ≡ add_byte v (string_over src at none cs (advance_over (e ∷ cs) s))
  unfolding string_over
  string_over-escape l e v cs s h = rw (h, string_over)

  -- A backslash and the byte behind it.
  string_over-escaped :
      (e v : ℕ) (cs : Bytes) (s : Scan)
      → escape_value e ≡ some v
      → string_over src at none (b'\\' ∷ e ∷ cs) s
        ≡ add_byte v (string_over src at none cs (over (b'\\' ∷ e ∷ []) cs s))
  string_over-escaped e v cs s h =
      string_over-backslash (e ∷ cs) s
      ∙ string_over-escape (loc src s) e v cs _ h
      ∙ ap (λ t. add_byte v (string_over src at none cs t)) (advance_twice b'\\' e cs s)

  string_over-Written :
      (c : ℕ) (w cs : Bytes) (s : Scan)
      → Written c w
      → string_over src at none (w ++ cs) s ≡ add_byte c (string_over src at none cs (over w cs s))
  string_over-Written c _ cs s (as_itself q b n z) = string_over-plain c cs s q b n z
  string_over-Written c _ cs s (behind_backslash e h) = string_over-escaped e c cs s h

  string_over-AllWritten :
      (value text rest : Bytes) (s : Scan)
      → AllWritten value text
      → s.rest ≡ text ++ (b'"' ∷ rest)
      → string_over src at none (text ++ (b'"' ∷ rest)) s ≡ body value (over text (b'"' ∷ rest) s)
  string_over-AllWritten _ _ rest s done e = unfold string_over in ap (body []) (over-nil s e)
  string_over-AllWritten _ _ rest s (more {c} {w} {value} {text} one all) e =
      let tail = text ++ (b'"' ∷ rest) in
      ap (λ r. string_over src at none r s) (append_assoc w text (b'"' ∷ rest))
      ∙ string_over-Written c w tail s one
      ∙ ap (add_byte c) (string_over-AllWritten value text rest (over w tail s) all refl)
      ∙ ap (body (c ∷ value)) (over-append w text (b'"' ∷ rest) tail s)

-- The scan, the text and the value of a string literal that `escape` wrote.
take-length : (xs ys : Bytes) (n : ℕ) → n ≡ length xs → take n (xs ++ ys) ≡ xs
take-length xs ys n h = rw h (exact xs)
  where
    exact : (zs : Bytes) → take (length zs) (zs ++ ys) ≡ zs
    exact [] = refl
    exact (z ∷ zs) = ap (◌∷◌ z) (exact zs)

abbrev pub string_literal : Bytes → Bytes → SourceLoc → Token
string_literal value text at = record (make_token TokenKind.string_lit text at) { str_val = value }

-- However the bytes of a value are spelled.
pub lex_string-AllWritten :
    (src : Source) (value text rest : Bytes) (s : Scan)
    → AllWritten value text
    → s.rest ≡ b'"' ∷ (text ++ (b'"' ∷ rest))
    → lex_string src s
      ≡ lexed (string_literal value text (loc src s)) (over (b'"' ∷ (text ++ (b'"' ∷ []))) rest s)
unfolding lex_string string_token
lex_string-AllWritten src value text rest s all e =
    let at = loc src s in
    let tail = text ++ (b'"' ∷ rest) in
    let start = over (b'"' ∷ []) tail s in
    let end = over text (b'"' ∷ rest) start in
    ap (λ t. string_token at t (string_over src at none t.rest t)) (advance-over b'"' tail s e)
    ∙ ap (string_token at start) (string_over-AllWritten src at value text rest start all refl)
    ∙ ap₂ (λ spelled t. lexed (string_literal value spelled at) t)
        (take-length text (b'"' ∷ rest) (end.pos - start.pos) (omega arith))
        (advance-over b'"' rest end refl
          ∙ ap (over (b'"' ∷ []) rest) (over-append (b'"' ∷ []) text (b'"' ∷ rest) tail s)
          ∙ over-append (b'"' ∷ text) (b'"' ∷ []) rest (b'"' ∷ rest) s)

-- Every byte string, written between quotes with the escapes \" \\ \n \0, is read back by `lexString`
-- as one STRING_LIT whose value it is, at the place of its opening quote, and the lexer stands
-- behind the closing quote.
pub lex_string-escape :
    (src : Source) (value rest : Bytes) (s : Scan)
    → s.rest ≡ b'"' ∷ (escape value ++ (b'"' ∷ rest))
    → lex_string src s
      ≡ lexed
          (string_literal value (escape value) (loc src s))
          (over (b'"' ∷ (escape value ++ (b'"' ∷ []))) rest s)
lex_string-escape src value rest s e =
    lex_string-AllWritten src value (escape value) rest s (escape-AllWritten value) e
