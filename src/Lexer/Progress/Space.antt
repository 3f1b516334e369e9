-- ===== src/Lexer/Progress/Space.antt =====
-- `skipWhiteSpaceAndComments` moves over input, and its fuel is enough.
use tensorium_cc.Prelude.{
  ℕ, suc, zero, ◌≡◌, refl, ◌&&◌, Bool, true, false, [], ◌∷◌, ◌==◌, Bool-cases, and_left, and_right,
  if_ind, inl, inr, get_or, Bytes, arith,
}
use tensorium_cc.Location.{SourceLoc}
use tensorium_cc.Lexer.Bytes.{is_space}
use tensorium_cc.Lexer.Scan.{Scan, Source, cur, look, advance_over, advance}
use tensorium_cc.Lexer.Scan.Reads.{
  Reads, Reads-refl, Reads-trans, Reads-advance_over, rest-advance_over, Takes, Takes-trans,
  Takes-advance, IsLive, IsLive-cur, IsLive-look, Takes-eat,
}
use tensorium_cc.Lexer.Space.{
  Skipped, skipped, unterminated, Round, again, stop, open_comment, go_on, at_end, in_line,
  block_over, closed_or, block_comment, skip_round, skip, skip_white_space_and_comments,
}

pub IsLive-at_end : (s : Scan) → at_end s.rest ≡ false → IsLive s
IsLive-at_end s e empty = cc (rw empty at e)

-- What a round of the loop promises of the state that it leaves.
abbrev pub RoundReads : Scan → Round → Type 0
RoundReads s (again t) = Takes s t
RoundReads s (stop t) = t ≡ s
RoundReads s (open_comment start t) = Reads s t × (t.rest ≡ [])

closing-IsLive : (cs : Bytes) (s : Scan) → s.rest ≡ cs → (get_or cs 0 0 == b'/') ≡ true → IsLive s
closing-IsLive cs s e h = IsLive-cur s b'/' (omega arith) (unfold cur in rw e h)

Reads-block_over : (cs : Bytes) (s : Scan) → s.rest ≡ cs → Reads s (block_over cs s).1
unfolding block_over
Reads-block_over [] s e = Reads-refl s
Reads-block_over (c ∷ cs) s e =
    let one = Reads-advance_over c cs s e in
    let rest = rest-advance_over c cs s in
    elim (Bool-cases (c == b'*' && get_or cs 0 0 == b'/')) [
      | inl h ↦ rw h (
          Reads-trans one
            (Takes-advance (advance_over (c ∷ cs) s)
              (closing-IsLive cs (advance_over (c ∷ cs) s) rest (and_right _ _ h))).reads)
      | inr h ↦ rw h (Reads-trans one (Reads-block_over cs _ rest))
    ]

-- A comment that does not close takes the whole input.
abbrev OpenTakesAll : Bool × Scan → Type 0
OpenTakesAll (closed, t) = closed ≡ false → t.rest ≡ []

block_over-OpenTakesAll : (cs : Bytes) (s : Scan) → s.rest ≡ cs → OpenTakesAll (block_over cs s)
unfolding block_over
block_over-OpenTakesAll [] s e = λ _. e
block_over-OpenTakesAll (c ∷ cs) s e =
    if_ind OpenTakesAll (c == b'*' && get_or cs 0 0 == b'/') (λ _ h. cc)
      (λ _. block_over-OpenTakesAll cs _ (rest-advance_over c cs s))

closed_or-RoundReads :
    (s t : Scan) (start : SourceLoc) (r : Bool × Scan)
    → Takes s t
    → Reads t r.1
    → OpenTakesAll r
    → RoundReads s (closed_or start r)
closed_or-RoundReads s t start (true, u) a b o = Takes-trans a b
closed_or-RoundReads s t start (false, u) a b o = ((Takes-trans a b).reads, o refl)

block_comment-RoundReads :
    (src : Source) (s : Scan)
    → (cur s == b'/' && look s 1 == b'*') ≡ true
    → RoundReads s (block_comment src s)
unfolding block_comment
block_comment-RoundReads src s h =
    let first = Takes-advance s (IsLive-cur s b'/' (omega arith) (and_left _ _ h)) in
    let second = Takes-advance (advance s) (IsLive-look s b'*' (omega arith) (and_right _ _ h)) in
    closed_or-RoundReads s _ _ _ (Takes-trans first second.reads) (Reads-block_over _ _ refl)
      (block_over-OpenTakesAll _ _ refl)

line_comment_starts : (c : ℕ) → (c == b'/') ≡ true → in_line c ≡ true
unfolding in_line
line_comment_starts c h = ground arith

pub skip_round-RoundReads : (src : Source) (s : Scan) → RoundReads s (skip_round src s)
unfolding skip_round
skip_round-RoundReads src s =
    if_ind (RoundReads s) (at_end s.rest) (λ _. refl)
      λ live.
        if_ind (RoundReads s) (is_space (cur s)) (λ _. Takes-advance s (IsLive-at_end s live))
          λ _.
            if_ind (RoundReads s) (src.allow_line_comments && cur s == b'/' && look s 1 == b'/')
              (λ h.
                Takes-eat in_line s (IsLive-at_end s live)
                  (line_comment_starts (cur s) (and_right _ _ (and_left _ _ h))))
              λ _.
                if_ind (RoundReads s) (cur s == b'/' && look s 1 == b'*')
                  (block_comment-RoundReads src s) (λ _. refl)

abbrev pub skipped_to : Skipped → Scan
skipped_to (skipped t) = t
skipped_to (unterminated start t) = t

go_on-Reads :
    (s : Scan) (rest : Scan → Skipped) (r : Round)
    → ((t : Scan) → Reads t (skipped_to (rest t)))
    → RoundReads s r
    → Reads s (skipped_to (go_on rest r))
unfolding go_on
go_on-Reads s rest (again t) ih h = Reads-trans h.reads (ih t)
go_on-Reads s rest (stop t) ih h = rw h (Reads-refl s)
go_on-Reads s rest (open_comment start t) ih h = h.0

skip-Reads : (src : Source) (fuel : ℕ) (s : Scan) → Reads s (skipped_to (skip src fuel s))
unfolding skip
skip-Reads src zero s = Reads-refl s
skip-Reads src (suc fuel) s =
    go_on-Reads s (skip src fuel) _ (skip-Reads src fuel) (skip_round-RoundReads src s)

pub Reads-skip :
    (src : Source) (s : Scan) → Reads s (skipped_to (skip_white_space_and_comments src s))
unfolding skip_white_space_and_comments
Reads-skip src s = skip-Reads src _ s
