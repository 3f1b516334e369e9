-- ===== src/Lexer/Progress/Lines.antt =====
-- The places of tokens and errors of lib/Lex/Lexer.cpp, against the line starts that
-- lib/Basic/Diagnostic.cpp keeps.
use mathlib.Core.Path.{subst}
use tensorium_cc.Prelude.{
  ℕ, zero, suc, ◌⊎◌, ◌+◌, ◌-◌, ◌^◌, ◌<◌, ◌≡◌, refl, sym, ap, ◌∙◌, Bool, true, false, none, some,
  List, [], ◌∷◌, if◌then◌else◌, if_ind, inl, inr, length, get_elem?, Bytes, String,
}
use tensorium_cc.Diagnostic.{
  SourceText, DiagnosticEngine, line_starts_from, find_source, add_source,
}
use tensorium_cc.Numeral.{Conversion}
use tensorium_cc.Token.{Token, is_error}
use tensorium_cc.Lexer.Scan.{Scan, Source, loc}
use tensorium_cc.Lexer.Scan.Reads.{Reads, Reads-refl, Reads-trans}
use tensorium_cc.Lexer.Outcome.{Lexed, lexed, failed}
use tensorium_cc.Lexer.Space.{Skipped, skipped, unterminated, skip_white_space_and_comments}
use tensorium_cc.Lexer.Next.{Lexer, lex_token, scan_token, settle, next, tokenize, tokenize_all}
use tensorium_cc.Lexer.Progress.Space.{skipped_to, Reads-skip}
use tensorium_cc.Lexer.Progress.Tokens.{error_lem, settle-keeps, is_last}
use tensorium_cc.Lexer.Progress.Places.{
  Placed, lex_token-Placed, PlacedComment, skip_white_space_and_comments-PlacedComment,
}
use tensorium_cc.Lexer.Progress.Positions.{StandsAt, beginning, StandsAt-Reads, Reads-next}
use tensorium_cc.Lexer.Progress.LineStarts.{
  no_lone_return, line_start-StandsAt, find_source-put_source,
}

-- A token that `next` makes: it was lexed at a scan behind `s`, or it is an error there.
record MadeAt (stod : Bytes → Conversion) (src : Source) (s : Scan) (t : Token) : Type 0 where
  at : Scan
  reads : Reads s at
  place : t.loc ≡ loc src at
  begins : ((u : Scan) × (lex_token stod src at ≡ lexed t u)) ⊎ (is_error t ≡ true)

MadeAt-Placed :
    (stod : Bytes → Conversion) (src : Source) (lx : Lexer) (s : Scan) (r : Lexed)
    → Reads lx.scan s
    → lex_token stod src s ≡ r
    → Placed src s r
    → MadeAt stod src lx.scan (settle lx r).0
unfolding settle
MadeAt-Placed stod src lx s (lexed t u) reads e h = record {
  at = s;
  reads = reads;
  place = h;
  begins = inl (u, e);
}
MadeAt-Placed stod src lx s (failed m l n u) reads e (v, r, h) = record {
  at = v;
  reads = Reads-trans reads r;
  place = h;
  begins = inr (error_lem l);
}

MadeAt-scan_token :
    (stod : Bytes → Conversion) (src : Source) (lx : Lexer)
    → MadeAt stod src lx.scan (settle lx (scan_token stod src lx.scan)).0
unfolding scan_token settle
MadeAt-scan_token stod src lx =
    go (skip_white_space_and_comments src lx.scan) (Reads-skip src lx.scan)
      (skip_white_space_and_comments-PlacedComment src lx.scan)
  where
    go :
        (k : Skipped)
        → Reads lx.scan (skipped_to k)
        → PlacedComment src lx.scan k
        → MadeAt stod src lx.scan
            (settle lx (elim k [
              | skipped t ↦ lex_token stod src t
              | unterminated start t ↦ failed "unterminated block comment" start 2 t
            ])).0
    go (skipped t) r p =
        MadeAt-Placed stod src lx t (lex_token stod src t) r refl (lex_token-Placed src stod t)
    go (unterminated start t) r (v, w, e) = record {
      at = v;
      reads = w;
      place = e;
      begins = inr (error_lem start);
    }

-- The line starts of a source give the offset that a token, or an error, is reported at: there the
-- token is lexed.
pub record FoundAt (stod : Bytes → Conversion) (src : Source) (text : Bytes) (starts : List ℕ)
    (t : Token) : Type 0 where
  pub at : Scan
  pub stands : StandsAt text at
  pub begins : ((u : Scan) × (lex_token stod src at ≡ lexed t u)) ⊎ (is_error t ≡ true)
  pub start : ℕ
  pub line_start : get_elem? starts (t.loc.line - 1) ≡ some start
  pub offset : start + t.loc.col ≡ at.pos + 1
  pub file : t.loc.filename ≡ src.filename

loc-plain :
    (src : Source) (s : Scan)
    → src.source_locations ≡ []
    → loc src s ≡ record { filename = src.filename; line = s.line; col = s.col }
unfolding loc
loc-plain src s h =
    ap
      (λ ls. elim (get_elem? ls s.pos) [
        | some l ↦ l
        | none ↦ record { filename = src.filename; line = s.line; col = s.col }
      ])
      h

FoundAt-MadeAt :
    (stod : Bytes → Conversion) (src : Source) (text : Bytes) (s : Scan) (t : Token)
    → src.source_locations ≡ []
    → length text + 1 < 2 ^ 32
    → no_lone_return text ≡ true
    → Reads (beginning text) s
    → MadeAt stod src s t
    → FoundAt stod src text (0 ∷ line_starts_from 0 text) t
FoundAt-MadeAt stod src text s t plain small returns r made =
    let stands = StandsAt-Reads text made.at small (Reads-trans r made.reads) in
    let (start, at, sum) = line_start-StandsAt text made.at stands returns in
    let here : t.loc ≡ record { filename = src.filename; line = made.at.line; col = made.at.col } =
      made.place ∙ loc-plain src made.at plain in
    record {
      at = made.at;
      stands = stands;
      begins = made.begins;
      start = start;
      line_start = rw here at;
      offset = rw here sum;
      file = rw here refl;
    }

abbrev pub AllFound :
    (stod : Bytes → Conversion) (src : Source) (text : Bytes) (starts : List ℕ)
    → List Token
    → Type 0
AllFound stod src text starts [] = Unit
AllFound stod src text starts (t ∷ ts) =
    FoundAt stod src text starts t × AllFound stod src text starts ts

settle-source : (lx : Lexer) (r : Lexed) → (settle lx r).1.source ≡ lx.source
unfolding settle
settle-source lx (lexed t u) = refl
settle-source lx (failed m l n u) = refl

if_false {ℓ} : {A : Type ℓ} (b : Bool) (x y : A) → b ≡ false → (if b then x else y) ≡ y
if_false b x y h = rw h refl

next-fresh :
    (stod : Bytes → Conversion) (lx : Lexer)
    → lx.has_peek ≡ false
    → next stod lx ≡ settle lx (scan_token stod lx.source lx.scan)
unfolding next
next-fresh stod lx h =
    if_false lx.has_peek (lx.peek_tok, record lx { has_peek = false })
      (settle lx (scan_token stod lx.source lx.scan)) h

AllFound-tokenize :
    (stod : Bytes → Conversion) (src : Source) (text : Bytes) (fuel : ℕ) (lx : Lexer)
    → src.source_locations ≡ []
    → length text + 1 < 2 ^ 32
    → no_lone_return text ≡ true
    → lx.source ≡ src
    → lx.has_peek ≡ false
    → Reads (beginning text) lx.scan
    → AllFound stod src text (0 ∷ line_starts_from 0 text) (tokenize stod fuel lx).0
unfolding tokenize
AllFound-tokenize stod src text zero lx plain small returns same fresh r = _
AllFound-tokenize stod src text (suc fuel) lx plain small returns same fresh r =
    let step = next-fresh stod lx fresh in
    let made =
      subst (λ (kept : Source). MadeAt stod kept lx.scan (next stod lx).0) same
        (subst (λ (out : Token × Lexer). MadeAt stod lx.source lx.scan out.0) (sym step)
          (MadeAt-scan_token stod lx.source lx)) in
    let first = FoundAt-MadeAt stod src text lx.scan (next stod lx).0 plain small returns r made in
    let source_kept : (next stod lx).1.source ≡ src =
      ap (λ (out : Token × Lexer). out.1.source) step ∙ settle-source lx _ ∙ same in
    let peek_kept : (next stod lx).1.has_peek ≡ false =
      ap (λ (out : Token × Lexer). out.1.has_peek) step ∙ settle-keeps lx _ ∙ fresh in
    if_ind
      (λ (out : List Token × Lexer). AllFound stod src text (0 ∷ line_starts_from 0 text) out.0)
      (is_last (next stod lx).0) (λ _. (first, _))
      (λ _. (
        first,
        AllFound-tokenize stod src text fuel (next stod lx).1 plain small returns source_kept
            peek_kept (Reads-trans r (Reads-next stod lx)),
      ))

-- The place of every token and of every lexical error is where the engine finds it in the source. A
-- lexer that starts a source of less than 2 ^ 32 - 1 bytes at line 1 and column 1, with no locations
-- of its own, gives each token a line that the engine has a start of, so that the start and the
-- column give the offset at which the token is lexed, and the source's name; and each error the line
-- and column of a true offset. Condition: every carriage return stands in front of a newline, since
-- only the engine takes a lone one for a new line.
pub tokenize_all-line_starts :
    (stod : Bytes → Conversion) (lx : Lexer) (text : Bytes) (name : String)
    (engine : DiagnosticEngine)
    → lx.scan ≡ beginning text
    → lx.has_peek ≡ false
    → lx.source.source_locations ≡ []
    → length text + 1 < 2 ^ 32
    → no_lone_return text ≡ true
    → (entry : SourceText) × (find_source name (add_source name text engine).sources ≡ some entry)
      × AllFound stod lx.source text entry.line_starts (tokenize_all stod lx).0
unfolding add_source tokenize_all
tokenize_all-line_starts stod lx text name engine starts fresh plain small returns = (
  record { text = text; line_starts = 0 ∷ line_starts_from 0 text },
  find_source-put_source name _ engine.sources,
  AllFound-tokenize stod lx.source text _ lx plain small returns refl fresh
      (rw starts (Reads-refl (beginning text))),
)
