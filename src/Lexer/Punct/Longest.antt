-- ===== src/Lexer/Punct/Longest.antt =====
-- `lexPunct` of lib/Lex/Lexer.cpp takes the longest punctuator that the input begins with.
use tensorium_cc.Prelude.{
  ℕ, ◌≤◌, ◌≡◌, refl, sym, ◌∙◌, ◌⊎◌, inl, inr, true, false, Option, none, some, List, [], ◌∷◌,
  if_ind, length, get_or, Bytes, String, codes, arith,
}
use tensorium_cc.Token.{TokenKind}
use tensorium_cc.Lexer.Scan.{Scan, Source, cur, look, loc}
use tensorium_cc.Lexer.Punct.Table.{
  begins, begins_three, first_of_table, longest, punctuators, took, lex_punct-table,
}
use tensorium_cc.Lexer.Punct.{lex_punct}

abbrev pub Among : String × TokenKind → List (String × TokenKind) → Type 0
Among entry [] = ⊥
Among entry (other ∷ rest) = (entry ≡ other) ⊎ Among entry rest

-- What a table says of an input: no entry fits, or the longest entry that fits.
abbrev pub Longest : List (String × TokenKind) → Bytes → Option (String × TokenKind) → Type 0
Longest table input none =
    (entry : String × TokenKind) → Among entry table → begins (codes entry.0) 0 input ≡ false
Longest table input (some found) =
    Among found table
    × (begins (codes found.0) 0 input ≡ true)
    × ((entry : String × TokenKind)
        → Among entry table
        → begins (codes entry.0) 0 input ≡ true
        → length (codes entry.0) ≤ length (codes found.0))

-- The words of a table never grow, and start at length `n` at most.
abbrev Descends : ℕ → List (String × TokenKind) → Type 0
Descends n [] = Unit
Descends n ((word, kind) ∷ rest) = (length (codes word) ≤ n) × Descends (length (codes word)) rest

Descends-Among :
    (n : ℕ) (table : List (String × TokenKind)) (entry : String × TokenKind)
    → Descends n table
    → Among entry table
    → length (codes entry.0) ≤ n
Descends-Among n [] entry h a = absurd a
Descends-Among n ((word, kind) ∷ rest) entry h (inl e) = rw e h.0
Descends-Among n ((word, kind) ∷ rest) entry h (inr a) =
    omega (arith, h.0, Descends-Among (length (codes word)) rest entry h.1 a)

begins_three-begins :
    (w input : Bytes)
    → length w ≤ 3
    → begins_three w (get_or input 0 0) (get_or input 1 0) (get_or input 2 0) ≡ begins w 0 input
begins_three-begins [] input h = refl
begins_three-begins (a ∷ []) input h = refl
begins_three-begins (a ∷ b ∷ []) input h = refl
begins_three-begins (a ∷ b ∷ c ∷ []) input h = refl
begins_three-begins (a ∷ b ∷ c ∷ d ∷ w) input h = absurd (omega arith)

Longest-skip :
    (n : ℕ) (entry : String × TokenKind) (table : List (String × TokenKind)) (input : Bytes)
    (found : Option (String × TokenKind))
    → begins (codes entry.0) 0 input ≡ false
    → Longest table input found
    → Longest (entry ∷ table) input found
Longest-skip n entry table input none h l =
    λ other a. elim a [ inl e ↦ rw e h | inr later ↦ l other later ]
Longest-skip n entry table input (some f) h l = (
  inr l.0,
  l.1,
  λ other a fits. elim a [ inl e ↦ cc (rw e at fits, h) | inr later ↦ l.2 other later fits ],
)

first_of_table-Longest :
    (n : ℕ) (table : List (String × TokenKind)) (input : Bytes)
    → n ≤ 3
    → Descends n table
    → Longest table input
        (first_of_table table (get_or input 0 0) (get_or input 1 0) (get_or input 2 0))
first_of_table-Longest n [] input small h = λ entry a. absurd a
first_of_table-Longest n ((word, kind) ∷ rest) input small h =
    let same = begins_three-begins (codes word) input (omega (arith, h.0)) in
    if_ind (Longest ((word, kind) ∷ rest) input)
      (begins_three (codes word) (get_or input 0 0) (get_or input 1 0) (get_or input 2 0))
      (λ fits. (
        inl refl,
        sym same ∙ fits,
        λ entry a _. elim a [
          | inl e ↦ rw e (omega arith)
          | inr later ↦ Descends-Among (length (codes word)) rest entry h.1 later
        ],
      ))
      (λ fails.
        Longest-skip n (word, kind) rest input _ (sym same ∙ fails)
          (first_of_table-Longest (length (codes word)) rest input (omega (arith, h.0)) h.1))

punctuators-Descends : Descends 3 punctuators
punctuators-Descends = omega arith

-- At every place of every input `lexPunct` makes the token of the longest of the 48 punctuators that
-- the input begins with there, with that punctuator's kind and spelling, and advances over it; where
-- none fits it reports an unknown character and advances over one byte.
pub lex_punct-Longest :
    (src : Source) (s : Scan)
    → (found : Option (String × TokenKind)) × (lex_punct src s ≡ took (loc src s) s found)
      × Longest punctuators s.rest found
lex_punct-Longest src s = (
  longest (cur s) (look s 1) (look s 2),
  lex_punct-table src s,
  unfold longest cur look in
      first_of_table-Longest 3 punctuators s.rest (omega arith) punctuators-Descends,
)
