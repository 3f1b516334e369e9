-- ===== src/Lexer/Ident/Keywords.antt =====
-- `lexIdent` of lib/Lex/Lexer.cpp takes a whole word, and tells the keywords from the identifiers.
use tensorium_cc.Prelude.{
  ◌≡◌, ◌≢◌, refl, ap, ◌⊎◌, inl, inr, ◌&&◌, and_left, and_right, Option, Bool, true, false, none,
  some, List, [], ◌∷◌, ◌++◌, if_ind, get_or, Bytes, String, codes, same_bytes, same_bytes_iff,
}
use tensorium_cc.Token.{TokenKind, make_token, is_keyword}
use tensorium_cc.Diagnostic.{or_else}
use tensorium_cc.Lexer.Bytes.{is_ident}
use tensorium_cc.Lexer.Scan.{Scan, Source, loc}
use tensorium_cc.Lexer.Scan.Over.{over, Every, eat-Every}
use tensorium_cc.Lexer.Outcome.{lexed}
use tensorium_cc.Lexer.Punct.Longest.{Among}
use tensorium_cc.Lexer.Ident.{keywords, find_keyword, ident_kind, lex_ident}

-- A word of the table gives its kind, which is a keyword's, and any other text an identifier.
abbrev pub Classified : Bytes → TokenKind → Type 0
Classified text kind =
    ((entry : String × TokenKind) × Among entry keywords
      × (codes entry.0 ≡ text)
      × (kind ≡ entry.1)
      × (is_keyword kind ≡ true))
    ⊎ (((entry : String × TokenKind) → Among entry keywords → codes entry.0 ≢ text)
        × (kind ≡ TokenKind.ident))

abbrev Table : Type 0
Table = List (String × TokenKind)

-- What `find_keyword` says of a table.
abbrev FoundIn : Table → Bytes → Option TokenKind → Type 0
FoundIn table text none = (entry : String × TokenKind) → Among entry table → codes entry.0 ≢ text
FoundIn table text (some kind) =
    (entry : String × TokenKind) × Among entry table × (codes entry.0 ≡ text) × (kind ≡ entry.1)

FoundIn-skip :
    (word : String) (k : TokenKind) (table : Table) (text : Bytes) (found : Option TokenKind)
    → codes word ≢ text
    → FoundIn table text found
    → FoundIn ((word, k) ∷ table) text found
FoundIn-skip word k table text none ne f =
    λ entry a. elim a [ inl e ↦ rw e ne | inr later ↦ f entry later ]
FoundIn-skip word k table text (some kind) ne f = (f.0, inr f.1, f.2, f.3)

find_keyword-FoundIn : (text : Bytes) (table : Table) → FoundIn table text (find_keyword text table)
unfolding find_keyword
find_keyword-FoundIn text [] = λ entry a. absurd a
find_keyword-FoundIn text ((word, kind) ∷ rest) =
    if_ind (FoundIn ((word, kind) ∷ rest) text) (same_bytes (codes word) text)
      (λ h. ((word, kind), inl refl, (same_bytes_iff (codes word) text).0 h, refl))
      (λ h.
        FoundIn-skip word kind rest text _ (λ e. cc ((same_bytes_iff (codes word) text).1 e, h))
          (find_keyword-FoundIn text rest))

all_keywords : Table → Bool
all_keywords [] = true
all_keywords ((word, kind) ∷ rest) = is_keyword kind && all_keywords rest

all_keywords-Among :
    (table : Table) (entry : String × TokenKind)
    → all_keywords table ≡ true
    → Among entry table
    → is_keyword entry.1 ≡ true
unfolding all_keywords
all_keywords-Among [] entry h a = absurd a
all_keywords-Among ((word, kind) ∷ rest) entry h (inl e) = rw e (and_left _ _ h)
all_keywords-Among ((word, kind) ∷ rest) entry h (inr a) =
    all_keywords-Among rest entry (and_right _ _ h) a

keywords_hold : all_keywords keywords ≡ true
unfolding all_keywords keywords is_keyword
keywords_hold = refl

classify :
    (text : Bytes) (found : Option TokenKind)
    → FoundIn keywords text found
    → Classified text (or_else found TokenKind.ident)
classify text none f = inr (f, refl)
classify text (some kind) f =
    inl (f.0, f.1, f.2, f.3, rw f.3 (all_keywords-Among keywords f.0 keywords_hold f.1))

ident_kind-Classified : (text : Bytes) → Classified text (ident_kind text)
unfolding ident_kind
ident_kind-Classified text = classify text _ (find_keyword-FoundIn text keywords)

-- On a word of identifier bytes that no further such byte follows, `lexIdent` makes one token of the
-- whole word, at the place where it begins, and stands behind it.
pub lex_ident-Every :
    (src : Source) (s : Scan) (word rest : Bytes)
    → Every is_ident word
    → is_ident (get_or rest 0 0) ≡ false
    → s.rest ≡ word ++ rest
    → (lex_ident src s ≡ lexed (make_token (ident_kind word) word (loc src s)) (over word rest s))
      × Classified word (ident_kind word)
unfolding lex_ident
lex_ident-Every src s word rest all stops e = (
  ap (λ (r : Bytes × Scan). lexed (make_token (ident_kind r.0) r.0 (loc src s)) r.1)
      (eat-Every is_ident rest stops word s all e),
  ident_kind-Classified word,
)
