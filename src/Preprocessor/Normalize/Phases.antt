-- ===== src/Preprocessor/Normalize/Phases.antt =====
-- `normalize` of lib/Lex/Preprocessor.cpp beside the first two translation phases of C: line ends
-- first, then the deletion of each backslash in front of one.
use tensorium_cc.Prelude.{
  ℕ, zero, suc, ◌-◌, ◌≡◌, refl, ap, Bool, true, false, ◌&&◌, List, [], ◌∷◌, ◌==◌, if◌then◌else◌,
  Bool-cases, ◌⊎◌, inl, inr, drop, Bytes, arith,
}
use tensorium_cc.Location.{SourceLoc}
use tensorium_cc.Sources.{SourceFile}
use tensorium_cc.Preprocessor.Normalize.{
  Input, line_end, next_line, next_col, line_end_width, is_crlf, splice_width, normalize_from,
  file_start, normalize,
}

-- Phase 1. The flag says that a '\r' stands in front.
unfoldable pub line_ends : Bool → Bytes → Bytes
line_ends after_cr [] = []
line_ends after_cr (c ∷ s) =
    if after_cr && c == b'\n'
    then line_ends false s
    else if c == b'\r'
    then b'\n' ∷ line_ends true s
    else c ∷ line_ends false s

-- Every byte with its line and column.
unfoldable pub place : SourceLoc → Bytes → List (ℕ × SourceLoc)
place loc [] = []
place loc (c ∷ s) = (c, loc) ∷ place (if c == b'\n' then next_line loc else next_col loc) s

-- Phase 2.
unfoldable pub splice : List (ℕ × SourceLoc) → List (ℕ × SourceLoc)
splice [] = []
splice (p ∷ []) = p ∷ []
splice (p ∷ q ∷ s) = if p.0 == b'\\' && q.0 == b'\n' then splice s else p ∷ splice (q ∷ s)

unfoldable pub bytes_of : List (ℕ × SourceLoc) → Bytes
bytes_of [] = []
bytes_of (p ∷ s) = p.0 ∷ bytes_of s

unfoldable pub places_of : List (ℕ × SourceLoc) → List SourceLoc
places_of [] = []
places_of (p ∷ s) = p.1 ∷ places_of s

-- What both passes make of a text.
unfoldable pub phases : SourceLoc → Bytes → List (ℕ × SourceLoc)
phases loc s = splice (place loc (line_ends false s))

line_ends_after :
    (c : ℕ) (s : Bytes)
    → line_end c ≡ true
    → line_ends false (c ∷ s) ≡ b'\n' ∷ line_ends false (drop (line_end_width (c ∷ s) - 1) s)
unfolding line_ends is_crlf
line_ends_after c [] h = ground arith
line_ends_after c (d ∷ s) h = ground arith

line_ends_other :
    (c : ℕ) (s : Bytes) → line_end c ≡ false → line_ends false (c ∷ s) ≡ c ∷ line_ends false s
unfolding line_ends
line_ends_other c s h = ground arith

splice_other :
    (p : ℕ × SourceLoc) (s : List (ℕ × SourceLoc))
    → (p.0 == b'\\') ≡ false
    → splice (p ∷ s) ≡ p ∷ splice s
unfolding splice
splice_other p [] h = refl
splice_other p (q ∷ s) h = rw h refl

abbrev Agrees : Input → List (ℕ × SourceLoc) → Type 0
Agrees input l = input.text ≡ bytes_of l × input.locations ≡ places_of l

phases-line_end :
    (loc : SourceLoc) (c : ℕ) (s : Bytes)
    → line_end c ≡ true
    → phases loc (c ∷ s)
      ≡ (b'\n', loc) ∷ phases (next_line loc) (drop (line_end_width (c ∷ s) - 1) s)
unfolding phases place
phases-line_end loc c s h = rw (line_ends_after c s h, splice_other) refl

splice_width_cases :
    (c d : ℕ) (s : Bytes)
    → ((c == b'\\' && line_end d) ≡ true × splice_width (c ∷ d ∷ s) ≡ suc (line_end_width (d ∷ s)))
      ⊎ ((c == b'\\' && line_end d) ≡ false × splice_width (c ∷ d ∷ s) ≡ 0)
unfolding splice_width
splice_width_cases c d s = elim (Bool-cases (c == b'\\' && line_end d)) [
  | inl h ↦ inl (h, rw h refl)
  | inr h ↦ inr (h, rw h refl)
]

place_other :
    (loc : SourceLoc) (c : ℕ) (s : Bytes)
    → line_end c ≡ false
    → place loc (c ∷ s) ≡ (c, loc) ∷ place (next_col loc) s
unfolding place
place_other loc c s h = ground arith

splice_apart :
    (p q : ℕ × SourceLoc) (s : List (ℕ × SourceLoc))
    → line_end q.0 ≡ false
    → splice (p ∷ q ∷ s) ≡ p ∷ splice (q ∷ s)
unfolding splice
splice_apart p q s h = ground arith

splice_joined :
    (p q : ℕ × SourceLoc) (s : List (ℕ × SourceLoc))
    → (p.0 == b'\\') ≡ true
    → q.0 ≡ b'\n'
    → splice (p ∷ q ∷ s) ≡ splice s
unfolding splice
splice_joined p q s h e = ground arith

phases_apart :
    (loc : SourceLoc) (c d : ℕ) (s : Bytes)
    → line_end c ≡ false
    → line_end d ≡ false
    → phases loc (c ∷ d ∷ s) ≡ (c, loc) ∷ phases (next_col loc) (d ∷ s)
unfolding phases
phases_apart loc c d s hc hd =
    rw
      (
        line_ends_other c (d ∷ s) hc,
        line_ends_other d s hd,
        place_other loc c _ hc,
        place_other (next_col loc) d _ hd,
        splice_apart (c, loc) (d, next_col loc) _ hd,
      )
      refl

phases_plain :
    (loc : SourceLoc) (c : ℕ) (s : Bytes)
    → line_end c ≡ false
    → (c == b'\\') ≡ false
    → phases loc (c ∷ s) ≡ (c, loc) ∷ phases (next_col loc) s
unfolding phases
phases_plain loc c s h e =
    rw (line_ends_other c s h, place_other loc c _ h, splice_other (c, loc) _ e) refl

phases_other :
    (loc : SourceLoc) (c : ℕ) (s : Bytes)
    → line_end c ≡ false
    → splice_width (c ∷ s) ≡ 0
    → phases loc (c ∷ s) ≡ (c, loc) ∷ phases (next_col loc) s
unfolding phases place splice line_ends
phases_other loc c [] h w = ground arith
phases_other loc c (d ∷ s) h w = elim (splice_width_cases c d s) [
  | inl (e, v) ↦ absurd (ground (arith, w, v))
  | inr (e, v) ↦ elim (Bool-cases (c == b'\\')) [
    | inl f ↦ phases_apart loc c d s h (ground (arith, e, f))
    | inr f ↦ phases_plain loc c (d ∷ s) h f
  ]
]

place_line :
    (loc : SourceLoc) (s : Bytes) → place loc (b'\n' ∷ s) ≡ (b'\n', loc) ∷ place (next_line loc) s
unfolding place
place_line loc s = refl

drop-line_end_width :
    (c : ℕ) (s : Bytes)
    → drop (line_end_width (c ∷ s)) (c ∷ s) ≡ drop (line_end_width (c ∷ s) - 1) s
drop-line_end_width c s = elim (Bool-cases (is_crlf (c ∷ s))) [
  | inl h ↦ rw h refl
  | inr h ↦ rw h refl
]

phases_joined :
    (loc : SourceLoc) (c d : ℕ) (s : Bytes)
    → (c == b'\\') ≡ true
    → line_end d ≡ true
    → phases loc (c ∷ d ∷ s) ≡ phases (next_line loc) (drop (line_end_width (d ∷ s)) (d ∷ s))
unfolding phases
phases_joined loc c d s hc hd =
    let plain : line_end c ≡ false = ground arith in
    rw
      (
        line_ends_other c (d ∷ s) plain,
        line_ends_after d s hd,
        place_other loc c _ plain,
        place_line (next_col loc),
        splice_joined (c, loc) (b'\n', next_col loc) _ hc refl,
        drop-line_end_width d s,
      )
      refl

phases_spliced :
    (loc : SourceLoc) (c : ℕ) (s : Bytes) (n : ℕ)
    → splice_width (c ∷ s) ≡ suc n
    → phases loc (c ∷ s) ≡ phases (next_line loc) (drop n s)
unfolding splice_width
phases_spliced loc c [] n w = ground arith
phases_spliced loc c (d ∷ s) n w = elim (splice_width_cases c d s) [
  | inl (e, v) ↦
      rw (phases_joined loc c d s (ground (arith, e)) (ground (arith, e)))
        (ap (λ k. phases (next_line loc) (drop k (d ∷ s))) (omega (arith, w, v)))
  | inr (e, v) ↦ absurd (ground (arith, w, v))
]

module _ (loc : SourceLoc) (c : ℕ) (s : Bytes) where
  -- A round of the loop agrees with both passes where the rounds behind it do.
  round-Agrees :
      (n : ℕ) (b : Bool)
      → splice_width (c ∷ s) ≡ n
      → line_end c ≡ b
      → ((k : ℕ) (at : SourceLoc) → Agrees (normalize_from k at s) (phases at (drop k s)))
      → Agrees (normalize_from 0 loc (c ∷ s)) (phases loc (c ∷ s))
  unfolding normalize_from bytes_of places_of
  round-Agrees (suc n) b hn hb agree =
      rw (normalize_from, hn, phases_spliced loc c s n hn) (agree n (next_line loc))
  round-Agrees zero true hn hb agree =
      let more = agree (line_end_width (c ∷ s) - 1) (next_line loc) in
      rw (normalize_from, hn, hb, phases-line_end loc c s hb)
        (ap (λ l. b'\n' ∷ l) more.0, ap (λ l. loc ∷ l) more.1)
  round-Agrees zero false hn hb agree =
      let more = agree 0 (next_col loc) in
      rw (normalize_from, hn, hb, phases_other loc c s hb hn)
        (ap (λ l. c ∷ l) more.0, ap (λ l. loc ∷ l) more.1)

normalize_from-Agrees :
    (k : ℕ) (loc : SourceLoc) (s : Bytes) → Agrees (normalize_from k loc s) (phases loc (drop k s))
unfolding normalize_from phases line_ends place splice bytes_of places_of
normalize_from-Agrees zero loc [] = (refl, refl)
normalize_from-Agrees (suc k) loc [] = (refl, refl)
normalize_from-Agrees (suc k) loc (c ∷ s) = normalize_from-Agrees k loc s
normalize_from-Agrees zero loc (c ∷ s) =
    round-Agrees loc c s (splice_width (c ∷ s)) (line_end c) refl refl
      (λ k at. normalize_from-Agrees k at s)

-- One pass gives what two passes do that first turn every line end into '\n' and then delete each
-- backslash with the '\n' behind it: the same bytes, each with the line and column that it has in the
-- file.
pub normalize-phases :
    (file : SourceFile)
    → (normalize file).text ≡ bytes_of (phases (file_start file) file.content)
      × (normalize file).locations ≡ places_of (phases (file_start file) file.content)
unfolding normalize
normalize-phases file = normalize_from-Agrees 0 (file_start file) file.content
