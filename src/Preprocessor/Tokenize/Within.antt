-- ===== src/Preprocessor/Tokenize/Within.antt =====
-- `tokenize` of lib/Lex/Preprocessor.cpp reads no location out of range, on the inputs that it is given.
use tensorium_cc.Prelude.{
  ℕ, zero, suc, ◌≤◌, ◌≡◌, refl, ap, Bool, true, false, List, [], ◌∷◌, ◌++◌, take, length, Bytes,
  arith,
}
use tensorium_cc.Location.{SourceLoc}
use tensorium_cc.Sources.{SourceFile}
use tensorium_cc.Preprocessor.{PpToken}
use tensorium_cc.Preprocessor.Normalize.{Input, normalize, file_start}
use tensorium_cc.Preprocessor.Normalize.Phases.{bytes_of, places_of, phases, normalize-phases}
use tensorium_cc.Preprocessor.Scan.{Piece, line_break, blank, token, broken, piece}
use tensorium_cc.Preprocessor.Tokenize.{
  Scanned, scanned, halted, beyond, append_token, is_within, scanned_token, after_include, pred,
  tokenize_from, scan_input,
}

append_token-is_within :
    (t : PpToken) (more : Scanned) → is_within more ≡ true → is_within (append_token t more) ≡ true
append_token-is_within t (scanned ts) h = refl
append_token-is_within t (halted at message n) h = refl
append_token-is_within t beyond h = h

round-is_within :
    (allow space : Bool) (line : List PpToken) (c : ℕ) (s : Bytes) (at : SourceLoc)
    (places : List SourceLoc) (p : Piece)
    → piece allow (after_include line) c s ≡ p
    → ((k : ℕ) (b : Bool) (l : List PpToken)
        → is_within (tokenize_from allow k b l s places) ≡ true)
    → is_within (tokenize_from allow 0 space line (c ∷ s) (at ∷ places)) ≡ true
unfolding tokenize_from
round-is_within allow space line c s at places line_break e more =
    rw (tokenize_from, e) (append_token-is_within _ _ (more 0 false []))
round-is_within allow space line c s at places (blank n) e more =
    rw (tokenize_from, e) (more (pred n) true line)
round-is_within allow space line c s at places (token kind n) e more =
    let t = scanned_token kind (take n (c ∷ s)) (take n (at ∷ places)) space in
    rw (tokenize_from, e) (append_token-is_within t _ (more (pred n) false (line ++ (t ∷ []))))
round-is_within allow space line c s at places (broken message n) e more =
    rw (tokenize_from, e) refl

tokenize_from-is_within :
    (allow : Bool) (k : ℕ) (space : Bool) (line : List PpToken) (s : Bytes)
    (places : List SourceLoc)
    → length s ≤ length places
    → is_within (tokenize_from allow k space line s places) ≡ true
unfolding tokenize_from
tokenize_from-is_within allow zero space line [] places h = refl
tokenize_from-is_within allow (suc k) space line [] places h = refl
tokenize_from-is_within allow zero space line (c ∷ s) [] h = absurd (omega arith)
tokenize_from-is_within allow (suc k) space line (c ∷ s) [] h = absurd (omega arith)
tokenize_from-is_within allow (suc k) space line (c ∷ s) (at ∷ places) h =
    tokenize_from-is_within allow k space line s places (omega arith)
tokenize_from-is_within allow zero space line (c ∷ s) (at ∷ places) h =
    round-is_within allow space line c s at places (piece allow (after_include line) c s) refl
      (λ k b l. tokenize_from-is_within allow k b l s places (omega arith))

pub scan_input-is_within :
    (allow : Bool) (input : Input)
    → length input.text ≤ length input.locations
    → is_within (scan_input allow input) ≡ true
unfolding scan_input
scan_input-is_within allow input h =
    tokenize_from-is_within allow 0 false [] input.text input.locations h

bytes_of-places_of : (l : List (ℕ × SourceLoc)) → length (bytes_of l) ≡ length (places_of l)
unfolding bytes_of places_of
bytes_of-places_of [] = refl
bytes_of-places_of (p ∷ l) = ap suc (bytes_of-places_of l)

-- `normalize` gives a location to every byte.
pub normalize-is_within :
    (allow : Bool) (file : SourceFile) → is_within (scan_input allow (normalize file)) ≡ true
normalize-is_within allow file =
    let (text, places) = normalize-phases file in
    let count = ap length text in
    let count' = ap length places in
    let same = bytes_of-places_of (phases (file_start file) file.content) in
    scan_input-is_within allow (normalize file) (omega (arith, count, count', same))
