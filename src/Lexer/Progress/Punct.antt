-- ===== src/Lexer/Progress/Punct.antt =====
-- `lexPunct` moves over input, by a byte at least, on every branch.
use tensorium_cc.Prelude.{
  ℕ, ◌≡◌, ◌≢◌, ◌&&◌, Bool, true, false, ◌==◌, if◌then◌else◌, and_left, and_right, if_ind, [], ◌∷◌,
  get_or, Bytes, String, arith, sym, ==_iff,
}
use tensorium_cc.Location.{SourceLoc}
use tensorium_cc.Token.{TokenKind}
use tensorium_cc.Lexer.Scan.{Scan, Source, look, advance_over, advance}
use tensorium_cc.Lexer.Scan.Reads.{
  Takes, Takes-trans, Takes-advance, IsLive, IsLive-look, rest-advance_over,
}
use tensorium_cc.Lexer.Outcome.{Lexed, behind}
use tensorium_cc.Lexer.Punct.{
  take_one, take_two, take_three, lex_dot, lex_hash, lex_plus, lex_minus, lex_star, lex_slash,
  lex_percent, lex_ampersand, lex_bar, lex_caret, lex_bang, lex_equals, lex_less, lex_greater,
  lex_punct,
}

third_over-IsLive :
    (cs : Bytes) (s : Scan) (k : ℕ)
    → k ≢ 0
    → (get_or cs 2 0 == k) ≡ true
    → IsLive (advance (advance_over cs s))
unfolding advance
third_over-IsLive [] s k h e = absurd (h (sym ((==_iff 0 k).0 e)))
third_over-IsLive (c ∷ []) s k h e = absurd (h (sym ((==_iff 0 k).0 e)))
third_over-IsLive (c ∷ d ∷ []) s k h e = absurd (h (sym ((==_iff 0 k).0 e)))
third_over-IsLive (c ∷ d ∷ x ∷ cs) s k h e = rw (rest-advance_over, rest-advance_over) (λ p. cc p)

third-IsLive : (s : Scan) (k : ℕ) → k ≢ 0 → (look s 2 == k) ≡ true → IsLive (advance (advance s))
third-IsLive s k h e = unfold advance look in third_over-IsLive s.rest s k h e

module _ (s : Scan) (live : IsLive s) (kind : TokenKind) (text : String) (at : SourceLoc) where
  Takes-take_one : Takes s (behind (take_one kind text at s))
  unfolding take_one
  Takes-take_one = Takes-advance s live

  Takes-take_two :
      (k : ℕ) → k ≢ 0 → (look s 1 == k) ≡ true → Takes s (behind (take_two kind text at s))
  unfolding take_two
  Takes-take_two k h e =
      Takes-trans (Takes-advance s live) (Takes-advance (advance s) (IsLive-look s k h e)).reads

  Takes-take_three :
      (j k : ℕ)
      → j ≢ 0
      → k ≢ 0
      → (look s 1 == j) ≡ true
      → (look s 2 == k) ≡ true
      → Takes s (behind (take_three kind text at s))
  unfolding take_three
  Takes-take_three j k hj hk ej ek =
      Takes-trans (Takes-advance s live)
        (Takes-trans (Takes-advance (advance s) (IsLive-look s j hj ej))
          (Takes-advance (advance (advance s)) (third-IsLive s k hk ek)).reads).reads

  -- A `case` that takes two bytes if the next one is `k`.
  Takes-two_or :
      (k : ℕ) (other : Lexed)
      → k ≢ 0
      → Takes s (behind other)
      → Takes s (behind (if look s 1 == k then take_two kind text at s else other))
  Takes-two_or k other h o =
      if_ind (λ r. Takes s (behind r)) (look s 1 == k) (Takes-take_two k h) (λ _. o)

module _ (s : Scan) (live : IsLive s) (at : SourceLoc) where
  Takes-lex_dot : Takes s (behind (lex_dot at s))
  unfolding lex_dot
  Takes-lex_dot =
      if_ind (λ r. Takes s (behind r)) (look s 1 == b'.' && look s 2 == b'.')
        (λ h.
          Takes-take_three s live _ _ at b'.' b'.' (omega arith) (omega arith) (and_left _ _ h)
            (and_right _ _ h))
        (λ _. Takes-take_one s live _ _ at)

  Takes-lex_hash : Takes s (behind (lex_hash at s))
  unfolding lex_hash
  Takes-lex_hash = Takes-two_or s live _ _ at _ _ (omega arith) (Takes-take_one s live _ _ at)

  Takes-lex_plus : Takes s (behind (lex_plus at s))
  unfolding lex_plus
  Takes-lex_plus =
      Takes-two_or s live _ _ at _ _ (omega arith)
        (Takes-two_or s live _ _ at _ _ (omega arith) (Takes-take_one s live _ _ at))

  Takes-lex_minus : Takes s (behind (lex_minus at s))
  unfolding lex_minus
  Takes-lex_minus = Takes-two_or s live _ _ at _ _ (omega arith) (
      Takes-two_or s live _ _ at _ _ (omega arith)
        (Takes-two_or s live _ _ at _ _ (omega arith) (Takes-take_one s live _ _ at)))

  Takes-lex_star : Takes s (behind (lex_star at s))
  unfolding lex_star
  Takes-lex_star = Takes-two_or s live _ _ at _ _ (omega arith) (Takes-take_one s live _ _ at)

  Takes-lex_slash : Takes s (behind (lex_slash at s))
  unfolding lex_slash
  Takes-lex_slash = Takes-two_or s live _ _ at _ _ (omega arith) (Takes-take_one s live _ _ at)

  Takes-lex_percent : Takes s (behind (lex_percent at s))
  unfolding lex_percent
  Takes-lex_percent = Takes-two_or s live _ _ at _ _ (omega arith) (Takes-take_one s live _ _ at)

  Takes-lex_ampersand : Takes s (behind (lex_ampersand at s))
  unfolding lex_ampersand
  Takes-lex_ampersand =
      Takes-two_or s live _ _ at _ _ (omega arith)
        (Takes-two_or s live _ _ at _ _ (omega arith) (Takes-take_one s live _ _ at))

  Takes-lex_bar : Takes s (behind (lex_bar at s))
  unfolding lex_bar
  Takes-lex_bar =
      Takes-two_or s live _ _ at _ _ (omega arith)
        (Takes-two_or s live _ _ at _ _ (omega arith) (Takes-take_one s live _ _ at))

  Takes-lex_caret : Takes s (behind (lex_caret at s))
  unfolding lex_caret
  Takes-lex_caret = Takes-two_or s live _ _ at _ _ (omega arith) (Takes-take_one s live _ _ at)

  Takes-lex_bang : Takes s (behind (lex_bang at s))
  unfolding lex_bang
  Takes-lex_bang = Takes-two_or s live _ _ at _ _ (omega arith) (Takes-take_one s live _ _ at)

  Takes-lex_equals : Takes s (behind (lex_equals at s))
  unfolding lex_equals
  Takes-lex_equals = Takes-two_or s live _ _ at _ _ (omega arith) (Takes-take_one s live _ _ at)

  Takes-lex_less : Takes s (behind (lex_less at s))
  unfolding lex_less
  Takes-lex_less =
      if_ind (λ r. Takes s (behind r)) (look s 1 == b'<')
        (λ h.
          if_ind (λ r. Takes s (behind r)) (look s 2 == b'=')
            (Takes-take_three s live _ _ at b'<' b'=' (omega arith) (omega arith) h)
            (λ _. Takes-take_two s live _ _ at b'<' (omega arith) h))
        (λ _. Takes-two_or s live _ _ at _ _ (omega arith) (Takes-take_one s live _ _ at))

  Takes-lex_greater : Takes s (behind (lex_greater at s))
  unfolding lex_greater
  Takes-lex_greater =
      if_ind (λ r. Takes s (behind r)) (look s 1 == b'>')
        (λ h.
          if_ind (λ r. Takes s (behind r)) (look s 2 == b'=')
            (Takes-take_three s live _ _ at b'>' b'=' (omega arith) (omega arith) h)
            (λ _. Takes-take_two s live _ _ at b'>' (omega arith) h))
        (λ _. Takes-two_or s live _ _ at _ _ (omega arith) (Takes-take_one s live _ _ at))

Takes-if :
    (s : Scan) (b : Bool) (x y : Lexed)
    → Takes s (behind x)
    → Takes s (behind y)
    → Takes s (behind (if b then x else y))
Takes-if s true x y hx hy = hx
Takes-if s false x y hx hy = hy

ruleset branches = (
  Takes-if, Takes-take_one, Takes-advance, Takes-lex_dot, Takes-lex_hash, Takes-lex_plus,
  Takes-lex_minus, Takes-lex_star, Takes-lex_slash, Takes-lex_percent, Takes-lex_ampersand,
  Takes-lex_bar, Takes-lex_caret, Takes-lex_bang, Takes-lex_equals, Takes-lex_less,
  Takes-lex_greater,
)

pub Takes-lex_punct : (src : Source) (s : Scan) → IsLive s → Takes s (behind (lex_punct src s))
unfolding lex_punct
Takes-lex_punct src s live = search branches depth 40
