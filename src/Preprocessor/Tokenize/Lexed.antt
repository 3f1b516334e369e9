-- ===== src/Preprocessor/Tokenize/Lexed.antt =====
-- The kinds of the tokens of `tokenize` (lib/Lex/Preprocessor.cpp) agree with their texts.
use tensorium_cc.Prelude.{
  ℕ, zero, suc, ◌≡◌, refl, Bool, true, false, List, [], ◌∷◌, ◌++◌, take, if_ind, Bytes, codes,
  same_bytes, arith,
}
use tensorium_cc.Location.{SourceLoc}
use tensorium_cc.Diagnostic.{DiagnosticEngine}
use tensorium_cc.Lexer.Bytes.{is_ident_start, is_alpha}
use tensorium_cc.Preprocessor.{PpToken, PpTokenKind}
use tensorium_cc.Preprocessor.Normalize.{Input}
use tensorium_cc.Preprocessor.Scan.{Piece, line_break, blank, token, broken, piece}
use tensorium_cc.Preprocessor.Define.{is_empty}
use tensorium_cc.Preprocessor.Define.Valid.{Lexed, AllLexed, starts_ident}
use tensorium_cc.Preprocessor.Tokenize.{
  Scanned, scanned, halted, beyond, append_token, plain_token, canonical, scanned_token,
  after_include, tokenize_from, scan_input, reported, tokenize_input, pred,
}
use tensorium_cc.Preprocessor.Tokenize.Widths.{Word, Sound, piece-Sound}

-- A text that is there and begins no identifier.
abbrev Plain : Bytes → Type 0
Plain text = starts_ident text ≡ false × is_empty text ≡ false

canonical-Plain : (c : ℕ) (w : Bytes) → is_ident_start c ≡ false → Plain (canonical (c ∷ w))
unfolding canonical is_ident_start is_alpha
canonical-Plain c w h =
    let s = c ∷ w in
    if_ind Plain (same_bytes s (codes "%:")) (λ _. (refl, refl))
      λ _.
        if_ind Plain (same_bytes s (codes "%:%:")) (λ _. (refl, refl))
          λ _.
            if_ind Plain (same_bytes s (codes "<%")) (λ _. (refl, refl))
              λ _.
                if_ind Plain (same_bytes s (codes "%>")) (λ _. (refl, refl))
                  λ _.
                    if_ind Plain (same_bytes s (codes "<:")) (λ _. (refl, refl))
                      (λ _.
                        if_ind Plain (same_bytes s (codes ":>")) (λ _. (refl, refl))
                          (λ _. (h, refl)))

scanned_token-Lexed :
    (kind : PpTokenKind) (c : ℕ) (w rest : Bytes) (places : List SourceLoc) (space : Bool)
    → Word kind c (c ∷ w) rest
    → Lexed (scanned_token kind (c ∷ w) places space)
unfolding scanned_token
scanned_token-Lexed PpTokenKind.identifier c w rest places space h = (h.0, refl)
scanned_token-Lexed PpTokenKind.number c w rest places space h = (h, refl)
scanned_token-Lexed PpTokenKind.string c w rest places space h = (h, refl)
scanned_token-Lexed PpTokenKind.character c w rest places space h = (h, refl)
scanned_token-Lexed PpTokenKind.header c w rest places space h = (h, refl)
scanned_token-Lexed PpTokenKind.punct c w rest places space h = canonical-Plain c w h
scanned_token-Lexed PpTokenKind.other c w rest places space h = (h, refl)
scanned_token-Lexed PpTokenKind.newline c w rest places space h = (h, refl)

abbrev ScannedLexed : Scanned → Type 0
ScannedLexed (scanned ts) = AllLexed ts
ScannedLexed (halted at message n) = Unit
ScannedLexed beyond = Unit

append_token-Lexed :
    (t : PpToken) (more : Scanned)
    → Lexed t
    → ScannedLexed more
    → ScannedLexed (append_token t more)
append_token-Lexed t (scanned ts) h hs = (h, hs)
append_token-Lexed t (halted at message n) h hs = _
append_token-Lexed t beyond h hs = _

newline-Lexed :
    (c : ℕ) (at : SourceLoc) → c ≡ b'\n' → Lexed (plain_token PpTokenKind.newline (c ∷ []) at)
unfolding is_ident_start is_alpha
newline-Lexed c at h = rw h (refl, refl)

round-Lexed :
    (allow space : Bool) (line : List PpToken) (c : ℕ) (s : Bytes) (at : SourceLoc)
    (places : List SourceLoc) (p : Piece)
    → piece allow (after_include line) c s ≡ p
    → Sound c s p
    → ((k : ℕ) (b : Bool) (l : List PpToken) → ScannedLexed (tokenize_from allow k b l s places))
    → ScannedLexed (tokenize_from allow 0 space line (c ∷ s) (at ∷ places))
unfolding tokenize_from
round-Lexed allow space line c s at places line_break e h more =
    rw (tokenize_from, e) (append_token-Lexed _ _ (newline-Lexed c at h) (more 0 false []))
round-Lexed allow space line c s at places (blank n) e h more =
    rw (tokenize_from, e) (more (pred n) true line)
round-Lexed allow space line c s at places (token kind zero) e h more = absurd (omega (arith, h.0))
round-Lexed allow space line c s at places (token kind (suc n)) e h more =
    let t = scanned_token kind (c ∷ take n s) (at ∷ take n places) space in
    rw (tokenize_from, e)
      (append_token-Lexed t _
        (scanned_token-Lexed kind c (take n s) _ (at ∷ take n places) space h.1)
        (more n false (line ++ (t ∷ []))))
round-Lexed allow space line c s at places (broken message n) e h more = rw (tokenize_from, e) _

tokenize_from-Lexed :
    (allow : Bool) (k : ℕ) (space : Bool) (line : List PpToken) (s : Bytes)
    (places : List SourceLoc)
    → ScannedLexed (tokenize_from allow k space line s places)
unfolding tokenize_from
tokenize_from-Lexed allow zero space line [] places = _
tokenize_from-Lexed allow (suc k) space line [] places = _
tokenize_from-Lexed allow zero space line (c ∷ s) [] = _
tokenize_from-Lexed allow (suc k) space line (c ∷ s) [] = _
tokenize_from-Lexed allow (suc k) space line (c ∷ s) (at ∷ places) =
    tokenize_from-Lexed allow k space line s places
tokenize_from-Lexed allow zero space line (c ∷ s) (at ∷ places) =
    round-Lexed allow space line c s at places (piece allow (after_include line) c s) refl
      (piece-Sound allow (after_include line) c s)
      (λ k b l. tokenize_from-Lexed allow k b l s places)

reported-Lexed :
    (d : DiagnosticEngine) (result : Scanned) → ScannedLexed result → AllLexed (reported d result).0
reported-Lexed d (scanned ts) h = h
reported-Lexed d (halted at message n) h = _
reported-Lexed d beyond h = _

-- Every token of the scanner has a text, and is an identifier just if its text begins as one does.
pub tokenize_input-AllLexed :
    (allow : Bool) (input : Input) (d : DiagnosticEngine)
    → AllLexed (tokenize_input allow input d).0
unfolding tokenize_input scan_input
tokenize_input-AllLexed allow input d =
    reported-Lexed d _ (tokenize_from-Lexed allow 0 false [] input.text input.locations)
