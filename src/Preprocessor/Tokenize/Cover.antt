-- ===== src/Preprocessor/Tokenize/Cover.antt =====
-- The tokens of `tokenize` (lib/Lex/Preprocessor.cpp) spell the text they come from.
use tensorium_cc.Prelude.{ℕ, ◌≡◌, Bool, true, false, List, [], ◌∷◌, ◌++◌, Bytes}
use tensorium_cc.Preprocessor.{PpToken, PpTokenKind}
use tensorium_cc.Preprocessor.Tokenize.{Scanned, scanned}
use tensorium_cc.Preprocessor.Tokenize.Widths.{Gap, Word}

-- How a token was written.
abbrev pub written : PpToken → Bytes
written t = elim t.original_spelling [ [] ↦ t.text | c ∷ s ↦ c ∷ s ]

-- The tokens of a text, where the flag says that space stands in front of it on its line.
pub data Cover : Bool → Bytes → List PpToken → Type 0 where
  done : {space : Bool} → Cover space [] []
  newline :
      {space : Bool} {t : PpToken} {s : Bytes} {ts : List PpToken}
      → t.kind ≡ PpTokenKind.newline
      → Cover false s ts
      → Cover space (b'\n' ∷ s) (t ∷ ts)
  gap :
      {space : Bool} {g s : Bytes} {ts : List PpToken}
      → Gap g s
      → Cover true s ts
      → Cover space (g ++ s) ts
  spelling :
      {space : Bool} {t : PpToken} {c : ℕ} {w s : Bytes} {ts : List PpToken}
      → written t ≡ c ∷ w
      → Word t.kind c (c ∷ w) s
      → t.leading_space ≡ space
      → Cover false s ts
      → Cover space (c ∷ w ++ s) (t ∷ ts)

abbrev Covers : Bool → Bytes → Scanned → Type 0
Covers space s result = (ts : List PpToken) → result ≡ scanned ts → Cover space s ts
