-- ===== src/Lexer/Progress/Positions.antt =====
-- Where the lexer stands after `next` and `tokenizeAll`, and what `peek` does to `next`.
use tensorium_cc.Prelude.{
  ℕ, zero, suc, ◌+◌, ◌^◌, ◌<◌, ◌≡◌, refl, ap, ◌∙◌, ◌++◌, length-append, false, List, [], ◌∷◌, ◌==◌,
  if◌then◌else◌, if_ind, Bool-cases, inl, inr, length, Bytes, arith,
}
use mathlib.Core.Path.{subst}
use tensorium_cc.Location.{next_u32}
use tensorium_cc.Numeral.{Conversion}
use tensorium_cc.Token.{Token}
use tensorium_cc.Lexer.Scan.{Scan}
use tensorium_cc.Lexer.Scan.Reads.{Reads, Reads-refl, Reads-trans, line_after, col_after}
use tensorium_cc.Lexer.Outcome.{Lexed, lexed, failed}
use tensorium_cc.Lexer.Next.{Lexer, settle, next, remember, peek, tokenize, tokenize_all}
use tensorium_cc.Lexer.Progress.Tokens.{Moves, moved, ended, refused, scan_token-Moves, is_last}

Reads-settle : (lx : Lexer) (r : Lexed) → Moves lx.scan r → Reads lx.scan (settle lx r).1.scan
unfolding settle
Reads-settle lx (lexed t u) (moved b) = b.reads
Reads-settle lx (failed m l n u) (moved b) = b.reads
Reads-settle lx (lexed t u) (ended t' u' e b none_left) = b
Reads-settle lx (failed m l n u) (refused b) = b

pub Reads-next : (stod : Bytes → Conversion) (lx : Lexer) → Reads lx.scan (next stod lx).1.scan
unfolding next
Reads-next stod lx =
    if_ind (λ (out : Token × Lexer). Reads lx.scan out.1.scan) lx.has_peek (λ _. Reads-refl lx.scan)
      (λ _. Reads-settle lx _ (scan_token-Moves stod lx.source lx.scan))

Reads-tokenize :
    (stod : Bytes → Conversion) (fuel : ℕ) (lx : Lexer)
    → Reads lx.scan (tokenize stod fuel lx).1.scan
unfolding tokenize
Reads-tokenize stod zero lx = Reads-refl lx.scan
Reads-tokenize stod (suc fuel) lx =
    if_ind (λ (out : List Token × Lexer). Reads lx.scan out.1.scan) (is_last (next stod lx).0)
      (λ _. Reads-next stod lx)
      (λ _. Reads-trans (Reads-next stod lx) (Reads-tokenize stod fuel (next stod lx).1))

-- The bytes that are a given byte.
abbrev pub count : ℕ → Bytes → ℕ
count b [] = 0
count b (c ∷ cs) = (if c == b then 1 else 0) + count b cs

-- The bytes behind the last newline.
abbrev pub since_newline : ℕ → Bytes → ℕ
since_newline k [] = k
since_newline k (c ∷ cs) = since_newline (if c == b'\n' then 0 else k + 1) cs

next_u32-lt : (n : ℕ) → n + 1 < 2 ^ 32 → next_u32 n ≡ n + 1
next_u32-lt n h = omega arith

line_after-count :
    (cs : Bytes) (l : ℕ) → l + length cs < 2 ^ 32 → line_after l cs ≡ l + count b'\n' cs
line_after-count [] l h = omega arith
line_after-count (c ∷ cs) l h = elim (Bool-cases (c == b'\n')) [
  | inl e ↦ rw e (
      ap (λ n. line_after n cs) (next_u32-lt l (omega arith))
      ∙ line_after-count cs (l + 1) (omega arith)
      ∙ omega arith)
  | inr e ↦ rw e (line_after-count cs l (omega arith) ∙ omega arith)
]

col_after-since_newline :
    (cs : Bytes) (k : ℕ)
    → k + 1 + length cs < 2 ^ 32
    → col_after (k + 1) cs ≡ since_newline k cs + 1
col_after-since_newline [] k h = refl
col_after-since_newline (c ∷ cs) k h = elim (Bool-cases (c == b'\n')) [
  | inl e ↦ rw e (col_after-since_newline cs 0 (omega arith))
  | inr e ↦ rw e (
      ap (λ n. col_after n cs) (next_u32-lt (k + 1) (omega arith))
      ∙ col_after-since_newline cs (k + 1) (omega arith))
]

-- What a reader of the source sees of a place in it: the bytes in front, whose count is the offset,
-- whose newlines give the line, and whose bytes behind the last newline give the column.
pub record StandsAt (text : Bytes) (s : Scan) : Type 0 where
  pub front : Bytes
  pub splits : text ≡ front ++ s.rest
  pub offset : s.pos ≡ length front
  pub line_is : s.line ≡ 1 + count b'\n' front
  pub col_is : s.col ≡ since_newline 0 front + 1

abbrev pub beginning : Bytes → Scan
beginning text = record { rest = text; pos = 0; line = 1; col = 1 }

pub StandsAt-Reads :
    (text : Bytes) (s : Scan)
    → length text + 1 < 2 ^ 32
    → Reads (beginning text) s
    → StandsAt text s
StandsAt-Reads text s small r =
    let short : 1 + length r.read < 2 ^ 32 =
      omega (arith, ap length r.splits, length-append r.read s.rest) in
    record {
      front = r.read;
      splits = r.splits;
      offset = omega (arith, r.pos_is);
      line_is = r.line_is ∙ line_after-count r.read 1 short;
      col_is = r.col_is ∙ col_after-since_newline r.read 0 (omega arith);
    }

-- A lexer that starts a source of less than 2 ^ 32 - 1 bytes at line 1 and column 1 and reads it to
-- the last token stands at a true offset, line and column, and never behind the end of the source.
pub tokenize_all-StandsAt :
    (stod : Bytes → Conversion) (lx : Lexer) (text : Bytes)
    → lx.scan ≡ beginning text
    → length text + 1 < 2 ^ 32
    → StandsAt text (tokenize_all stod lx).1.scan
unfolding tokenize_all
tokenize_all-StandsAt stod lx text starts small =
    let end = (tokenize stod (suc (suc (length lx.scan.rest))) lx).1.scan in
    StandsAt-Reads text end small
      (subst (λ s. Reads s end) starts (Reads-tokenize stod (suc (suc (length lx.scan.rest))) lx))

-- Every single call of `next` keeps the place true.
pub next-StandsAt :
    (stod : Bytes → Conversion) (lx : Lexer) (text : Bytes)
    → length text + 1 < 2 ^ 32
    → Reads (beginning text) lx.scan
    → StandsAt text (next stod lx).1.scan
next-StandsAt stod lx text small before =
    StandsAt-Reads text _ small (Reads-trans before (Reads-next stod lx))

-- `peek` gives the token that `next` would give, and the call of `next` behind it gives that token
-- and leaves what `next` alone would have left, but for the remembered token, which is not read.
pub next-peek :
    (stod : Bytes → Conversion) (lx : Lexer)
    → ((peek stod lx).0 ≡ (next stod lx).0)
      × (next stod (peek stod lx).1 ≡ (
        (next stod lx).0,
        record (next stod lx).1 { peek_tok = (next stod lx).0; has_peek = false },
      ))
unfolding peek next remember
next-peek stod lx = elim (Bool-cases lx.has_peek) [
  | inl p ↦ rw p (refl, refl)
  | inr p ↦ rw p (refl, refl)
]
