-- ===== src/Lexer/Scan/Over.antt =====
-- The state of the lexer behind known bytes, in closed form, and the loop of `eat` over them.
use tensorium_cc.Prelude.{
  ℕ, ◌+◌, ◌≡◌, refl, sym, ap, ◌∙◌, Bool, true, false, [], ◌∷◌, ◌++◌, ◌==◌, Bool-cases, inl, inr,
  length, length-append, get_or, Bytes, arith,
}
use tensorium_cc.Lexer.Scan.{Scan, advance_over, advance, eat_over, eat}
use tensorium_cc.Lexer.Scan.Reads.{line_after, col_after, line_after-append, col_after-append}

-- Behind `word`, in front of `rest`.
abbrev pub over : Bytes → Bytes → Scan → Scan
over word rest s = record {
  rest = rest;
  pos = s.pos + length word;
  line = line_after s.line word;
  col = col_after s.col word;
}

scan_path : {a b : Scan} → a.rest ≡ b.rest → a.pos ≡ b.pos → a.line ≡ b.line → a.col ≡ b.col → a ≡ b
scan_path r p l c = λ i. record { rest = r i; pos = p i; line = l i; col = c i }

pub over-nil : (s : Scan) {rest : Bytes} → s.rest ≡ rest → s ≡ over [] rest s
over-nil s e = scan_path e (omega arith) refl refl

pub over-append :
    (xs ys rest mid : Bytes) (s : Scan) → over ys rest (over xs mid s) ≡ over (xs ++ ys) rest s
over-append xs ys rest mid s =
    scan_path refl (omega (arith, length-append xs ys)) (sym (line_after-append xs ys s.line))
      (sym (col_after-append xs ys s.col))

pub advance_over-over :
    (c : ℕ) (cs : Bytes) (s : Scan) → advance_over (c ∷ cs) s ≡ over (c ∷ []) cs s
unfolding advance_over
advance_over-over c cs s = elim (Bool-cases (c == b'\n')) [
  | inl h ↦ rw h (scan_path refl (omega arith) refl refl)
  | inr h ↦ rw h (scan_path refl (omega arith) refl refl)
]

pub advance-over :
    (c : ℕ) (cs : Bytes) (s : Scan) → s.rest ≡ c ∷ cs → advance s ≡ over (c ∷ []) cs s
unfolding advance
advance-over c cs s e = ap (λ r. advance_over r s) e ∙ advance_over-over c cs s

-- Every byte passes the test.
abbrev pub Every : (ℕ → Bool) → Bytes → Type 0
Every p [] = Unit
Every p (c ∷ cs) = (p c ≡ true) × Every p cs

module _ (p : ℕ → Bool) (rest : Bytes) (stops : p (get_or rest 0 0) ≡ false) where
  eat_over-stop : (cs : Bytes) (s : Scan) → p (get_or cs 0 0) ≡ false → eat_over p cs s ≡ ([], s)
  unfolding eat_over
  eat_over-stop [] s h = refl
  eat_over-stop (c ∷ cs) s h = rw h

  eat_over-Every :
      (word : Bytes) (s : Scan)
      → Every p word
      → s.rest ≡ word ++ rest
      → eat_over p (word ++ rest) s ≡ (word, over word rest s)
  unfolding eat_over
  eat_over-Every [] s all e = eat_over-stop rest s stops ∙ ap (λ (t : Scan). ([], t)) (over-nil s e)
  eat_over-Every (c ∷ cs) s all e =
      rw (all.0, advance_over-over, eat_over-Every cs (over (c ∷ []) (cs ++ rest) s) all.1 refl)
        (ap (λ (t : Scan). (c ∷ cs, t)) (over-append (c ∷ []) cs rest (cs ++ rest) s))

  -- The loop takes a whole run of bytes that pass the test, and stops behind it.
  pub eat-Every :
      (word : Bytes) (s : Scan)
      → Every p word
      → s.rest ≡ word ++ rest
      → eat p s ≡ (word, over word rest s)
  unfolding eat
  eat-Every word s all e = ap (λ r. eat_over p r s) e ∙ eat_over-Every word s all e
