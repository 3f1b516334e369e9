-- ===== src/Lexer/Progress/Tokens.antt =====
-- `next` moves over input and `tokenizeAll` ends.
use tensorium_cc.Prelude.{
  ℕ, zero, suc, ◌+◌, ◌<◌, ◌≡◌, refl, ◌||◌, ◌&&◌, Bool, true, false, [], ◌∷◌, List, ◌==◌,
  if◌then◌else◌, if_ind, Bool-cases, inl, inr, length, Bytes, String, arith,
}
use tensorium_cc.Location.{SourceLoc}
use tensorium_cc.Numeral.{Conversion}
use tensorium_cc.Token.{TokenKind, Token, ordinal, same_kind, make_token, is_eof, is_error}
use tensorium_cc.Lexer.Bytes.{is_ident_start, is_digit}
use tensorium_cc.Lexer.Scan.{Scan, Source, cur, look, loc}
use tensorium_cc.Lexer.Scan.Reads.{Reads, Reads-refl, Reads-trans, length-Reads, Takes}
use tensorium_cc.Lexer.Outcome.{Lexed, lexed, failed, behind}
use tensorium_cc.Lexer.Space.{Skipped, skipped, unterminated, at_end, skip_white_space_and_comments}
use tensorium_cc.Lexer.Next.{Lexer, lex_token, scan_token, settle, next, tokenize, tokenize_all}
use tensorium_cc.Lexer.Progress.Space.{IsLive-at_end, skipped_to, Reads-skip}
use tensorium_cc.Lexer.Progress.Words.{Takes-lex_ident, Takes-lex_number}
use tensorium_cc.Lexer.Progress.Punct.{Takes-lex_punct}
use tensorium_cc.Lexer.Progress.Literals.{Takes-lex_char, Takes-lex_string}

-- Whatever the method returns, the lexer has moved over input: by a byte at least for a token that
-- does not end the input.
pub data Moves (s : Scan) : Lexed → Type 0 where
  moved : {r : Lexed} → Takes s (behind r) → Moves s r
  ended : (t : Token) (u : Scan) → is_eof t ≡ true → Reads s u → u.rest ≡ [] → Moves s (lexed t u)
  refused : {m : String} {l : SourceLoc} {n : ℕ} {u : Scan} → Reads s u → Moves s (failed m l n u)

at_end-eq : (cs : Bytes) → at_end cs ≡ true → cs ≡ []
at_end-eq [] h = refl
at_end-eq (c ∷ cs) h = cc

eof_lem : (l : SourceLoc) → is_eof (make_token TokenKind.end_of_file [] l) ≡ true
unfolding same_kind ordinal
eof_lem l = refl

lex_token-Moves :
    (stod : Bytes → Conversion) (src : Source) (s : Scan) → Moves s (lex_token stod src s)
unfolding lex_token
lex_token-Moves stod src s =
    if_ind (Moves s) (at_end s.rest)
      (λ h. ended _ s (eof_lem (loc src s)) (Reads-refl s) (at_end-eq s.rest h))
      λ h.
        let live = IsLive-at_end s h in
        if_ind (Moves s) (is_ident_start (cur s)) (λ i. moved (Takes-lex_ident src s live i))
          λ _.
            if_ind (Moves s) (is_digit (cur s) || cur s == b'.' && is_digit (look s 1))
              (λ n. moved (Takes-lex_number stod src s live n))
              λ _.
                if_ind (Moves s) (cur s == b'\'') (λ _. moved (Takes-lex_char src s live))
                  λ _.
                    if_ind (Moves s) (cur s == b'"') (λ _. moved (Takes-lex_string src s live))
                      (λ _. moved (Takes-lex_punct src s live))

Moves-skip : {s t : Scan} {r : Lexed} → Reads s t → Moves t r → Moves s r
Moves-skip a (moved b) =
    moved (record { reads = Reads-trans a b.reads; fewer = omega (arith, length-Reads a, b.fewer) })
Moves-skip a (ended t u e b none_left) = ended t u e (Reads-trans a b) none_left
Moves-skip a (refused b) = refused (Reads-trans a b)

pub scan_token-Moves :
    (stod : Bytes → Conversion) (src : Source) (s : Scan) → Moves s (scan_token stod src s)
unfolding scan_token
scan_token-Moves stod src s = go (skip_white_space_and_comments src s) (Reads-skip src s)
  where
    go :
        (k : Skipped)
        → Reads s (skipped_to k)
        → Moves s (elim k [
          | skipped t ↦ lex_token stod src t
          | unterminated start t ↦ failed "unterminated block comment" start 2 t
        ])
    go (skipped t) r = Moves-skip r (lex_token-Moves stod src t)
    go (unterminated start t) r = refused r

-- What `next` has not read or handed out yet.
abbrev pub pending : Lexer → ℕ
pending lx = length lx.scan.rest + (if lx.has_peek then 1 else 0)

abbrev pub is_last : Token → Bool
is_last t = is_eof t || is_error t

pub error_lem : (l : SourceLoc) → is_error (make_token TokenKind.error [] l) ≡ true
unfolding same_kind ordinal
error_lem l = refl

settle-fewer :
    (lx : Lexer) (r : Lexed)
    → Moves lx.scan r
    → is_last (settle lx r).0 ≡ false
    → length (settle lx r).1.scan.rest < length lx.scan.rest
unfolding settle
settle-fewer lx (lexed t u) (moved b) h = b.fewer
settle-fewer lx (failed m l n u) (moved b) h = b.fewer
settle-fewer lx (lexed t u) (ended t' u' e b none_left) h = cc (rw e at h)
settle-fewer lx (failed m l n u) (refused b) h = ground (arith, error_lem l)

pub settle-keeps : (lx : Lexer) (r : Lexed) → (settle lx r).1.has_peek ≡ lx.has_peek
unfolding settle
settle-keeps lx (lexed t u) = refl
settle-keeps lx (failed m l n u) = refl

settle-pending :
    (lx : Lexer) (r : Lexed)
    → lx.has_peek ≡ false
    → Moves lx.scan r
    → is_last (settle lx r).0 ≡ false
    → pending (settle lx r).1 < pending lx
settle-pending lx r p m h = rw (settle-keeps lx r) (omega (arith, settle-fewer lx r m h))

-- A token that is not the last leaves less to do.
pub next-pending :
    (stod : Bytes → Conversion) (lx : Lexer)
    → is_last (next stod lx).0 ≡ false
    → pending (next stod lx).1 < pending lx
unfolding next
next-pending stod lx =
    if_ind (λ (out : Token × Lexer). is_last out.0 ≡ false → pending out.1 < pending lx) lx.has_peek
      (λ p h. rw p (omega arith))
      (λ p h. settle-pending lx _ p (scan_token-Moves stod lx.source lx.scan) h)

-- The tokens of `tokenizeAll`: the last one ends the input or is an error, and no other does.
abbrev pub EndsOnce : List Token → Type 0
EndsOnce [] = ⊥
EndsOnce (t ∷ []) = is_last t ≡ true
EndsOnce (t ∷ u ∷ ts) = (is_last t ≡ false) × EndsOnce (u ∷ ts)

EndsOnce-cons : (t : Token) (ts : List Token) → is_last t ≡ false → EndsOnce ts → EndsOnce (t ∷ ts)
EndsOnce-cons t [] h e = absurd e
EndsOnce-cons t (u ∷ ts) h e = (h, e)

tokenize-EndsOnce :
    (stod : Bytes → Conversion) (fuel : ℕ) (lx : Lexer)
    → pending lx < fuel
    → EndsOnce (tokenize stod fuel lx).0
unfolding tokenize
tokenize-EndsOnce stod zero lx h = elim h [ ]
tokenize-EndsOnce stod (suc fuel) lx h = elim (Bool-cases (is_last (next stod lx).0)) [
  | inl e ↦ rw e e
  | inr e ↦ rw e (
      EndsOnce-cons (next stod lx).0 _ e
        (tokenize-EndsOnce stod fuel (next stod lx).1 (omega (arith, next-pending stod lx e))))
]

-- `tokenizeAll` ends on every input, with or without a token peeked at: its tokens end with the end
-- of the input or with an error, and no token before is one of these.
pub tokenize_all-EndsOnce :
    (stod : Bytes → Conversion) (lx : Lexer) → EndsOnce (tokenize_all stod lx).0
unfolding tokenize_all
tokenize_all-EndsOnce stod lx = tokenize-EndsOnce stod _ lx (at_most lx.has_peek)
  where
    at_most :
        (b : Bool) → length lx.scan.rest + (if b then 1 else 0) < suc (suc (length lx.scan.rest))
    at_most true = omega arith
    at_most false = omega arith
