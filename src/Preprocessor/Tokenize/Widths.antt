-- ===== src/Preprocessor/Tokenize/Widths.antt =====
-- The bytes that a piece of lib/Lex/Preprocessor.cpp takes.
use tensorium_cc.Prelude.{
  ℕ, zero, suc, ◌≤◌, ◌≡◌, refl, Bool, true, false, not, ◌&&◌, ◌||◌, Option, none, some, List, [],
  ◌∷◌, ◌==◌, ltb, if_ind, Bool-cases, Option-cases, and_right, inl, inr, take, drop, length, get_or,
  Bytes, String, codes, arith,
}
use tensorium_cc.Lexer.Bytes.{is_space, is_digit, is_alpha, is_alnum, is_ident, is_ident_start}
use tensorium_cc.Preprocessor.{PpTokenKind}
use tensorium_cc.Preprocessor.Scan.{
  Piece, line_break, blank, token, broken, run_of, comment_rest, starts_with, punctuators,
  punctuator_width, contains, comment, closed, punctuation, token_at, piece,
}

abbrev pub Each : (ℕ → Bool) → Bytes → Type 0
Each p [] = Unit
Each p (c ∷ s) = p c ≡ true × Each p s

-- A text at whose front `p` fails, or that is empty.
abbrev pub Stops : (ℕ → Bool) → Bytes → Type 0
Stops p [] = Unit
Stops p (c ∷ s) = p c ≡ false

abbrev pub at_close : Bytes → Bool
at_close (c ∷ d ∷ s) = c == b'*' && d == b'/'
at_close _ = false

-- A text that ends where it first holds a comment's end.
pub data Closes : Bytes → Type 0 where
  here : Closes (b'*' ∷ b'/' ∷ [])
  later : {c : ℕ} {s : Bytes} → at_close (c ∷ s) ≡ false → Closes s → Closes (c ∷ s)

-- White space or a comment, with what stands behind it.
pub data Gap : Bytes → Bytes → Type 0 where
  space : {c : ℕ} {s : Bytes} → is_space c ≡ true → (c == b'\n') ≡ false → Gap (c ∷ []) s
  block : {g s : Bytes} → Closes g → Gap (b'/' ∷ b'*' ∷ g) s
  line :
      {g s : Bytes}
      → Each (λ c. not (c == b'\n')) g
      → Stops (λ c. not (c == b'\n')) s
      → Gap (b'/' ∷ b'/' ∷ g) s

run_of-Each : (p : ℕ → Bool) (s : Bytes) → Each p (take (run_of p s) s)
unfolding run_of
run_of-Each p [] = _
run_of-Each p (c ∷ s) = elim (Bool-cases (p c)) [
  | inl h ↦ rw (Each, run_of, h) (h, run_of-Each p s)
  | inr h ↦ rw (Each, run_of, h) _
]

run_of-Stops : (p : ℕ → Bool) (s : Bytes) → Stops p (drop (run_of p s) s)
unfolding run_of
run_of-Stops p [] = _
run_of-Stops p (c ∷ s) = elim (Bool-cases (p c)) [
  | inl h ↦ rw (Stops, run_of, h) (run_of-Stops p s)
  | inr h ↦ rw (Stops, run_of, h) h
]

comment_rest_end :
    (c d : ℕ) (s : Bytes)
    → (c == b'*' && d == b'/') ≡ true
    → comment_rest (c ∷ d ∷ s) ≡ some 2 × c ≡ b'*' × d ≡ b'/'
unfolding comment_rest
comment_rest_end c d s h = (rw (comment_rest, h) refl, ground (arith, h), ground (arith, h))

comment_rest_later :
    (c d : ℕ) (s : Bytes) (n : ℕ)
    → (c == b'*' && d == b'/') ≡ false
    → comment_rest (c ∷ d ∷ s) ≡ some n
    → (m : ℕ) × comment_rest (d ∷ s) ≡ some m × n ≡ suc m
unfolding comment_rest
comment_rest_later c d s n h e = elim (Option-cases (comment_rest (d ∷ s))) [
  | inl none_there ↦ absurd (ground (arith, h, e, none_there))
  | inr (m, found) ↦ (m, found, ground (arith, h, e, found))
]

at_close-take :
    (c d : ℕ) (s : Bytes) (m : ℕ)
    → (c == b'*' && d == b'/') ≡ false
    → at_close (c ∷ take m (d ∷ s)) ≡ false
at_close-take c d s zero e = refl
at_close-take c d s (suc m) e = e

-- No spelling in a list is empty.
abbrev none_empty : List String → Bool
none_empty [] = true
none_empty (p ∷ ps) = ltb 0 (length (codes p)) && none_empty ps

comment_rest-Closes : (s : Bytes) (n : ℕ) → comment_rest s ≡ some n → Closes (take n s)
unfolding comment_rest
comment_rest-Closes [] n h = ground arith
comment_rest-Closes (c ∷ []) n h = ground arith
comment_rest-Closes (c ∷ d ∷ s) n h = elim (Bool-cases (c == b'*' && d == b'/')) [
  | inl e ↦
      let (two, star, slash) = comment_rest_end c d s e in
      let width : n ≡ 2 = ground (arith, h, two) in rw (width, star, slash) here
  | inr e ↦
      let (m, found, width) = comment_rest_later c d s n e h in
      rw width (later (at_close-take c d s m e) (comment_rest-Closes (d ∷ s) m found))
]

punctuator_width-pos :
    (ps : List String) (s : Bytes) (n : ℕ)
    → none_empty ps ≡ true
    → punctuator_width ps s ≡ some n
    → 1 ≤ n
unfolding punctuator_width
punctuator_width-pos [] s n h e = ground arith
punctuator_width-pos (p ∷ ps) s n h e = elim (Bool-cases (starts_with (codes p) s)) [
  | inl f ↦ ground (arith, e, f, h)
  | inr f ↦ punctuator_width-pos ps s n (and_right _ _ h) (ground (arith, e, f))
]

-- What a piece promises of byte `c` and the bytes `rest` behind it.
abbrev pub Word : PpTokenKind → ℕ → Bytes → Bytes → Type 0
Word PpTokenKind.identifier c w rest =
    is_ident_start c ≡ true × Each is_ident w × Stops is_ident rest
Word _ c w rest = is_ident_start c ≡ false

abbrev pub Sound : ℕ → Bytes → Piece → Type 0
Sound c rest line_break = c ≡ b'\n'
Sound c rest (blank n) = 1 ≤ n × Gap (take n (c ∷ rest)) (drop n (c ∷ rest))
Sound c rest (token kind n) = 1 ≤ n × Word kind c (take n (c ∷ rest)) (drop n (c ∷ rest))
Sound c rest (broken message n) = Unit

-- A token that is not an identifier.
other-Word :
    (kind : PpTokenKind) (c : ℕ) (w rest : Bytes)
    → (kind ≡ PpTokenKind.identifier → ⊥)
    → is_ident_start c ≡ false
    → Word kind c w rest
other-Word PpTokenKind.identifier c w rest ne h = absurd (ne refl)
other-Word PpTokenKind.number c w rest ne h = h
other-Word PpTokenKind.string c w rest ne h = h
other-Word PpTokenKind.character c w rest ne h = h
other-Word PpTokenKind.header c w rest ne h = h
other-Word PpTokenKind.punct c w rest ne h = h
other-Word PpTokenKind.other c w rest ne h = h
other-Word PpTokenKind.newline c w rest ne h = h

punctuation-Sound :
    (c : ℕ) (rest : Bytes) → is_ident_start c ≡ false → Sound c rest (punctuation c (c ∷ rest))
unfolding punctuation punctuators
punctuation-Sound c rest h = elim (Option-cases (punctuator_width punctuators (c ∷ rest))) [
  | inl e ↦
      rw (punctuation, e)
        (if_ind (λ kind. Sound c rest (token kind 1))
          (contains (codes "[](){}.&*+-~!/%<>^|?:;=,#") c) (λ _. (omega arith, h))
          (λ _. (omega arith, h)))
  | inr (n, e) ↦ rw (punctuation, e) (punctuator_width-pos punctuators (c ∷ rest) n refl e, h)
]

comment-Sound :
    (c : ℕ) (rest : Bytes) (o : Option ℕ)
    → c ≡ b'/'
    → get_or rest 0 0 ≡ b'*'
    → comment_rest (drop 1 rest) ≡ o
    → Sound c rest (comment o)
comment-Sound c rest none e f g = _
comment-Sound c [] (some n) e f g = ground arith
comment-Sound c (d ∷ rest) (some n) e f g =
    (omega arith, rw (e, f) (block (comment_rest-Closes rest n g)))

closed-Sound :
    (kind : PpTokenKind) (message : String) (c : ℕ) (rest : Bytes) (o : Option ℕ)
    → (kind ≡ PpTokenKind.identifier → ⊥)
    → is_ident_start c ≡ false
    → Sound c rest (closed kind message o)
closed-Sound kind message c rest none ne h = _
closed-Sound kind message c rest (some n) ne h = (omega arith, other-Word kind c _ _ ne h)

ident_start : (c : ℕ) → is_ident_start c ≡ true → is_ident c ≡ true
unfolding is_ident_start is_ident is_alnum is_alpha
ident_start c h = ground arith

quote_plain :
    (header : Bool) (c : ℕ) → (header && (c == b'<' || c == b'"')) ≡ true → is_ident_start c ≡ false
unfolding is_ident_start is_alpha
quote_plain header c h = ground arith

slash_plain : (c : ℕ) → c ≡ b'/' → is_ident_start c ≡ false
unfolding is_ident_start is_alpha
slash_plain c h = ground arith

token_at-Sound : (header : Bool) (c : ℕ) (rest : Bytes) → Sound c rest (token_at header c rest)
unfolding token_at
token_at-Sound header c rest =
    let P = Sound c rest in
    if_ind P (header && (c == b'<' || c == b'"'))
      (λ h.
        closed-Sound PpTokenKind.header "unterminated include filename" c rest _ (λ e. ground arith)
          (quote_plain header c h))
      λ _.
        if_ind P (is_ident_start c)
          (λ h. (
            omega arith,
            (h, (ident_start c h, run_of-Each is_ident rest), run_of-Stops is_ident rest),
          ))
          λ plain.
            if_ind P (is_digit c || c == b'.' && is_digit (get_or rest 0 0))
              (λ _. (omega arith, plain))
              λ _.
                if_ind P (c == b'"')
                  (λ _.
                    closed-Sound PpTokenKind.string "unterminated string literal" c rest _
                      (λ e. ground arith) plain)
                  λ _.
                    if_ind P (c == b'\'')
                      (λ _.
                        closed-Sound PpTokenKind.character "unterminated character literal" c rest _
                          (λ e. ground arith) plain)
                      λ _. punctuation-Sound c rest plain

line_comment-Sound :
    (c : ℕ) (rest : Bytes)
    → c ≡ b'/'
    → get_or rest 0 0 ≡ b'/'
    → Sound c rest (blank (run_of (λ c. not (c == b'\n')) (c ∷ rest)))
unfolding run_of
line_comment-Sound c [] e f = ground arith
line_comment-Sound c (d ∷ rest) e f =
    let p : ℕ → Bool = λ c. not (c == b'\n') in
    rw (e, f) (omega arith, line (run_of-Each p rest) (run_of-Stops p rest))

pub piece-Sound :
    (allow header : Bool) (c : ℕ) (rest : Bytes) → Sound c rest (piece allow header c rest)
unfolding piece
piece-Sound allow header c rest =
    let P = Sound c rest in
    if_ind P (c == b'\n') (λ h. ground (arith, h))
      λ other.
        if_ind P (is_space c) (λ h. (omega arith, space h other))
          λ _.
            if_ind P (c == b'/' && get_or rest 0 0 == b'*')
              (λ h. comment-Sound c rest _ (ground (arith, h)) (ground (arith, h)) refl)
              λ _.
                if_ind P (allow && c == b'/' && get_or rest 0 0 == b'/')
                  (λ h. line_comment-Sound c rest (ground (arith, h)) (ground (arith, h)))
                  λ _. token_at-Sound header c rest
