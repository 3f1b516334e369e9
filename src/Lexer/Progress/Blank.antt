-- ===== src/Lexer/Progress/Blank.antt =====
-- What `skipWhiteSpaceAndComments` of lib/Lex/Lexer.cpp skips, and where it ends.
use mathlib.Core.Path.{subst}
use mathlib.Core.Bool.{true≢false}
use tensorium_cc.Prelude.{
  ℕ, suc, zero, ◌<◌, ◌≡◌, refl, ap, sym, ◌∙◌, ◌&&◌, ◌||◌, Bool, true, false, [], ◌∷◌, ◌==◌,
  Bool-cases, and_left, and_right, if_ind, inl, inr, Option, some, none, ==_iff, get_or,
  if◌then◌else◌, length, Bytes, arith,
}
use tensorium_cc.Location.{SourceLoc}
use tensorium_cc.Lexer.Bytes.{is_space}
use tensorium_cc.Lexer.Scan.{Scan, Source, cur, look, advance_over, advance, loc}
use tensorium_cc.Lexer.Scan.Reads.{rest-advance_over, advance-eq}
use tensorium_cc.Lexer.Space.{
  Skipped, skipped, unterminated, Round, again, stop, open_comment, go_on, at_end, in_line,
  block_over, closed_or, block_comment, skip_round, skip, skip_white_space_and_comments,
}
use tensorium_cc.Lexer.Scan.{eat_over, eat}
use tensorium_cc.Lexer.Progress.Space.{RoundReads, skip_round-RoundReads}

-- A comment of C begins here, where the first flag allows `//`.
abbrev pub begins_comment : Bool → Bytes → Bool
begins_comment allow (c ∷ d ∷ cs) = c == b'/' && (d == b'*' || allow && d == b'/')
begins_comment allow _ = false

-- Nothing to skip stands in front.
abbrev pub IsPlain : Bool → Bytes → Type 0
IsPlain allow [] = Unit
IsPlain allow (c ∷ cs) = is_space c ≡ false × begins_comment allow (c ∷ cs) ≡ false

-- A round that ends the loop found nothing to skip.
abbrev StopsPlain : Source → Scan → Round → Type 0
StopsPlain src s (stop t) = IsPlain src.allow_line_comments s.rest
StopsPlain src s _ = Unit

IsPlain-over :
    (allow : Bool) (cs : Bytes)
    → at_end cs ≡ false
    → is_space (get_or cs 0 0) ≡ false
    → (allow && get_or cs 0 0 == b'/' && get_or cs 1 0 == b'/') ≡ false
    → (get_or cs 0 0 == b'/' && get_or cs 1 0 == b'*') ≡ false
    → IsPlain allow cs
IsPlain-over allow [] e h line block = _
IsPlain-over allow (c ∷ []) e h line block = (h, refl)
IsPlain-over allow (c ∷ d ∷ cs) e h line block = (h, ground arith)

closed_or-StopsPlain :
    (src : Source) (s : Scan) (start : SourceLoc) (r : Bool × Scan)
    → StopsPlain src s (closed_or start r)
closed_or-StopsPlain src s start (true, t) = _
closed_or-StopsPlain src s start (false, t) = _

nothing-IsPlain : (allow : Bool) (cs : Bytes) → at_end cs ≡ true → IsPlain allow cs
nothing-IsPlain allow [] h = _
nothing-IsPlain allow (c ∷ cs) h = cc

skip_round-StopsPlain : (src : Source) (s : Scan) → StopsPlain src s (skip_round src s)
unfolding skip_round block_comment cur look
skip_round-StopsPlain src s =
    let P = StopsPlain src s in
    if_ind P (at_end s.rest) (nothing-IsPlain src.allow_line_comments s.rest) λ live.
      if_ind P (is_space (cur s)) (λ _. _)
        λ visible.
          if_ind P (src.allow_line_comments && cur s == b'/' && look s 1 == b'/') (λ _. _)
            λ line.
              if_ind P (cur s == b'/' && look s 1 == b'*') (λ _. closed_or-StopsPlain src s _ _)
                (IsPlain-over src.allow_line_comments s.rest live visible line)

-- What stands behind a line comment: its line end.
unfoldable pub behind_line : Bytes → Bytes
behind_line [] = []
behind_line (c ∷ cs) = if c == b'\n' || c == b'\r' then c ∷ cs else behind_line cs

-- What stands behind the first `*/`.
unfoldable pub behind_block : Bytes → Option Bytes
behind_block (c ∷ d ∷ cs) = if c == b'*' && d == b'/' then some cs else behind_block (d ∷ cs)
behind_block _ = none

-- White space and comments stand in front of the second text.
pub data Blank (allow : Bool) : Bytes → Bytes → Type 0 where
  nothing : {s : Bytes} → Blank allow s s
  white : {c : ℕ} {s r : Bytes} → is_space c ≡ true → Blank allow s r → Blank allow (c ∷ s) r
  line_comment :
      {s r : Bytes} → allow ≡ true → Blank allow (behind_line s) r → Blank allow (b'/' ∷ b'/' ∷ s) r
  closed_comment :
      {s t r : Bytes} → behind_block s ≡ some t → Blank allow t r → Blank allow (b'/' ∷ b'*' ∷ s) r

Blank-trans : {allow : Bool} {s t r : Bytes} → Blank allow s t → Blank allow t r → Blank allow s r
Blank-trans nothing b = b
Blank-trans (white h a) b = white h (Blank-trans a b)
Blank-trans (line_comment h a) b = line_comment h (Blank-trans a b)
Blank-trans (closed_comment h a) b = closed_comment h (Blank-trans a b)

rest-advance : (c : ℕ) (cs : Bytes) (s : Scan) → s.rest ≡ c ∷ cs → (advance s).rest ≡ cs
rest-advance c cs s e = ap (λ t. t.rest) (advance-eq s e) ∙ rest-advance_over c cs s

eat_over-behind_line :
    (cs : Bytes) (s : Scan) → s.rest ≡ cs → (eat_over in_line cs s).1.rest ≡ behind_line cs
unfolding eat_over in_line behind_line
eat_over-behind_line [] s e = e
eat_over-behind_line (c ∷ cs) s e =
    let more = eat_over-behind_line cs (advance_over (c ∷ cs) s) (rest-advance_over c cs s) in
    elim (Bool-cases (c == b'\n')) [
      | inl n ↦ rw n e
      | inr n ↦ elim (Bool-cases (c == b'\r')) [ inl r ↦ rw (n, r) e | inr r ↦ rw (n, r) more ]
    ]

-- The loop of a block comment finds its first end, or there is none.
abbrev Says : Option Bytes → Bool × Scan → Type 0
Says end (true, t) = end ≡ some t.rest
Says end (false, t) = end ≡ none

Says-if :
    (b : Bool) (end other : Option Bytes) (x y : Bool × Scan)
    → Says end x
    → Says other y
    → Says (if b then end else other) (if b then x else y)
Says-if true end other x y hx hy = hx
Says-if false end other x y hx hy = hy

block_over-Says : (cs : Bytes) (s : Scan) → s.rest ≡ cs → Says (behind_block cs) (block_over cs s)
unfolding block_over behind_block
block_over-Says [] s e = refl
block_over-Says (c ∷ []) s e =
    if_ind (Says none) (c == b'*' && false)
      (λ h. absurd (true≢false (sym (and_right (c == b'*') false h)))) (λ _. refl)
block_over-Says (c ∷ d ∷ cs) s e =
    let inner = advance_over (c ∷ d ∷ cs) s in
    let rest = rest-advance_over c (d ∷ cs) s in
    Says-if (c == b'*' && d == b'/') _ _ _ _ (ap some (sym (rest-advance d cs inner rest)))
      (block_over-Says (d ∷ cs) inner rest)

-- A round that goes on has skipped white space or a comment; an open comment has no end.
abbrev SkipsBlank : Source → Scan → Round → Type 0
SkipsBlank src s (again t) = Blank src.allow_line_comments s.rest t.rest
SkipsBlank src s (stop t) = Unit
SkipsBlank src s (open_comment start t) =
    (r : Bytes) × (s.rest ≡ b'/' ∷ b'*' ∷ r) × (behind_block r ≡ none)

-- The bytes in front that the tests of a round find.
one_byte : (cs : Bytes) → at_end cs ≡ false → (c : ℕ) × (r : Bytes) × (cs ≡ c ∷ r)
one_byte [] h = cc
one_byte (c ∷ cs) h = (c, cs, refl)

two_bytes :
    (cs : Bytes) (j k : ℕ)
    → (get_or cs 0 0 == suc j) ≡ true
    → (get_or cs 1 0 == suc k) ≡ true
    → (r : Bytes) × (cs ≡ suc j ∷ suc k ∷ r)
two_bytes [] j k h h' = let bad = (==_iff 0 (suc j)).0 h in absurd (omega (arith, bad))
two_bytes (c ∷ []) j k h h' = let bad = (==_iff 0 (suc k)).0 h' in absurd (omega (arith, bad))
two_bytes (c ∷ d ∷ cs) j k h h' =
    let is_j : c ≡ suc j = (==_iff c (suc j)).0 h in
    let is_k : d ≡ suc k = (==_iff d (suc k)).0 h' in (cs, rw (is_j, is_k) refl)

block_comment-SkipsBlank :
    (src : Source) (s : Scan) (r : Bytes)
    → s.rest ≡ b'/' ∷ b'*' ∷ r
    → SkipsBlank src s (block_comment src s)
unfolding block_comment
block_comment-SkipsBlank src s r e =
    let inner = advance (advance s) in
    let rest : inner.rest ≡ r =
      rest-advance b'*' r (advance s) (rest-advance b'/' (b'*' ∷ r) s e) in
    by_end (block_over inner.rest inner) (
      subst (λ cs. Says (behind_block cs) (block_over inner.rest inner)) rest
        (block_over-Says inner.rest inner refl))
  where
    by_end :
        (o : Bool × Scan) → Says (behind_block r) o → SkipsBlank src s (closed_or (loc src s) o)
    by_end (true, t) h = rw e (closed_comment h nothing)
    by_end (false, t) h = (r, e, h)

skip_round-SkipsBlank : (src : Source) (s : Scan) → SkipsBlank src s (skip_round src s)
unfolding skip_round cur look eat behind_line
skip_round-SkipsBlank src s =
    let P = SkipsBlank src s in
    if_ind P (at_end s.rest) (λ _. _)
      λ live.
        if_ind P (is_space (cur s))
          (λ h.
            let (c, r, e) = one_byte s.rest live in
            let skips = white (ap (λ x. is_space (get_or x 0 0)) (sym e) ∙ h) nothing in
            subst (λ x. Blank src.allow_line_comments x (advance s).rest) (sym e)
              (subst (Blank src.allow_line_comments (c ∷ r)) (sym (rest-advance c r s e)) skips))
          λ _.
            if_ind P (src.allow_line_comments && cur s == b'/' && look s 1 == b'/')
              (λ h.
                let (r, e) =
                  two_bytes s.rest 46 46 (and_right _ _ (and_left _ _ h)) (and_right _ _ h) in
                let ends = eat_over-behind_line s.rest s refl ∙ ap behind_line e in
                subst (λ x. Blank src.allow_line_comments x (eat in_line s).1.rest) (sym e)
                  (subst (Blank src.allow_line_comments (b'/' ∷ b'/' ∷ r)) (sym ends)
                    (line_comment (and_left _ _ (and_left _ _ h)) nothing)))
              λ _.
                if_ind P (cur s == b'/' && look s 1 == b'*')
                  (λ h.
                    let (r, e) = two_bytes s.rest 46 41 (and_left _ _ h) (and_right _ _ h) in
                    block_comment-SkipsBlank src s r e)
                  (λ _. _)

-- Where the loop ends: behind white space and comments, in front of neither; or behind them in a
-- comment that has no end, with the whole input read.
abbrev pub IsSettled : Source → Scan → Skipped → Type 0
IsSettled src s (skipped t) =
    Blank src.allow_line_comments s.rest t.rest × IsPlain src.allow_line_comments t.rest
IsSettled src s (unterminated start t) =
    (r : Bytes) × Blank src.allow_line_comments s.rest (b'/' ∷ b'*' ∷ r)
    × (behind_block r ≡ none)
    × (t.rest ≡ [])

IsSettled-again :
    (src : Source) (s t : Scan) (k : Skipped)
    → Blank src.allow_line_comments s.rest t.rest
    → IsSettled src t k
    → IsSettled src s k
IsSettled-again src s t (skipped u) b (h, p) = (Blank-trans b h, p)
IsSettled-again src s t (unterminated start u) b (r, h, n, e) = (r, Blank-trans b h, n, e)

go_on-IsSettled :
    (src : Source) (s : Scan) (rest : Scan → Skipped) (r : Round)
    → StopsPlain src s r
    → SkipsBlank src s r
    → ((t : Scan) → length t.rest < length s.rest → IsSettled src t (rest t))
    → RoundReads s r
    → IsSettled src s (go_on rest r)
unfolding go_on
go_on-IsSettled src s rest (again t) e b ih h = IsSettled-again src s t (rest t) b (ih t h.fewer)
go_on-IsSettled src s rest (stop t) e b ih h = rw h (nothing, e)
go_on-IsSettled src s rest (open_comment start t) e (r, starts, none_left) ih h =
    (r, rw starts nothing, none_left, h.1)

skip-IsSettled :
    (src : Source) (fuel : ℕ) (s : Scan) → length s.rest < fuel → IsSettled src s (skip src fuel s)
unfolding skip
skip-IsSettled src zero s enough = elim enough [ ]
skip-IsSettled src (suc fuel) s enough =
    go_on-IsSettled src s (skip src fuel) _ (skip_round-StopsPlain src s)
      (skip_round-SkipsBlank src s) (λ t fewer. skip-IsSettled src fuel t (omega arith))
      (skip_round-RoundReads src s)

-- The lexer skips white space and comments, from the opening of each up to its line end or to the first
-- `*/`, and nothing else, and ends where no white space and no comment begins, with `/*` or, where
-- the source allows it, with `//`, or at the end of the input. It reports a comment only where one
-- has no end, and then takes the whole rest of the input.
pub skip_white_space_and_comments-IsSettled :
    (src : Source) (s : Scan) → IsSettled src s (skip_white_space_and_comments src s)
unfolding skip_white_space_and_comments
skip_white_space_and_comments-IsSettled src s = skip-IsSettled src _ s (omega arith)
