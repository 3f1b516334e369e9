-- ===== src/Diagnostic/Render/Caret.antt =====
-- Where `render` of lib/Basic/Diagnostic.cpp puts the caret and the marks under a line.
use tensorium_cc.Prelude.{
  ℕ, zero, suc, ◌+◌, ◌-◌, ◌%◌, ◌≤◌, ◌<◌, ◌≡◌, refl, ap, ◌∙◌, length-append, ◌||◌, [], ◌∷◌, ltb,
  ◌==◌, if◌then◌else◌, if_ind, length, take, Bytes, arith,
}
use tensorium_cc.Diagnostic.Render.{Shown, shown_byte, show_over, show_line, repeat, marked_width}

-- A text as it is shown behind `front`: tabs go to the next multiple of eight, and control bytes are
-- question marks.
abbrev pub expand : Bytes → Bytes → Bytes
expand front [] = front
expand front (c ∷ cs) = expand (shown_byte front c) cs

length-repeat : (n c : ℕ) → length (repeat n c) ≡ n
length-repeat zero c = refl
length-repeat (suc n) c = omega (arith, length-repeat n c)

shown_byte-longer : (front : Bytes) (c : ℕ) → length front < length (shown_byte front c)
unfolding shown_byte
shown_byte-longer front c =
    let fill = repeat (8 - length front % 8) b' ' in
    if_ind (λ (bs : Bytes). length front < length bs) (c == b'\t')
      (λ _. omega (arith, length-append front fill, length-repeat (8 - length front % 8) b' '))
      (λ _. omega (arith, length-append front ((if ltb c 32 || c == 127 then b'?' else c) ∷ [])))

expand-longer : (front cs : Bytes) → length front ≤ length (expand front cs)
expand-longer front [] = omega arith
expand-longer front (c ∷ cs) =
    omega (arith, shown_byte-longer front c, expand-longer (shown_byte front c) cs)

-- More of a text takes more place.
expand-take :
    (front line : Bytes) (column span : ℕ)
    → 1 ≤ span
    → column + span ≤ length line
    → length (expand front (take column line)) < length (expand front (take (column + span) line))
expand-take front [] column span h le = absurd (omega arith)
expand-take front (c ∷ cs) zero zero h le = absurd (omega arith)
expand-take front (c ∷ cs) zero (suc span) h le =
    let whole : 0 + suc span ≡ suc span = omega arith in
    let more = ap (λ n. length (expand front (take n (c ∷ cs)))) whole in
    omega
      (arith, more, shown_byte-longer front c, expand-longer (shown_byte front c) (take span cs))
expand-take front (c ∷ cs) (suc column) span h le =
    let whole : suc column + span ≡ suc (column + span) = omega arith in
    let more = ap (λ n. length (expand front (take n (c ∷ cs)))) whole in
    omega (arith, more, expand-take (shown_byte front c) cs column span h (omega arith))

agrees : (m n : ℕ) (x y : ℕ) → m ≡ n → (if m == n then x else y) ≡ x
agrees m n x y e = ground arith

differs : (m n : ℕ) (x y : ℕ) → n < m → (if m == n then x else y) ≡ y
differs m n x y h = ground arith

differs_above : (m n : ℕ) (x y : ℕ) → m < n → (if m == n then x else y) ≡ y
differs_above m n x y h = ground arith

module _ (column span : ℕ) where
  displayed-expand :
      (i : ℕ) (cs : Bytes) (s : Shown)
      → (show_over column span i cs s).displayed ≡ expand s.displayed cs
  unfolding show_over
  displayed-expand i [] s = refl
  displayed-expand i (c ∷ cs) s = displayed-expand (i + 1) cs _

  caret-behind :
      (i : ℕ) (cs : Bytes) (s : Shown) → column < i → (show_over column span i cs s).caret ≡ s.caret
  unfolding show_over
  caret-behind i [] s h = refl
  caret-behind i (c ∷ cs) s h =
      caret-behind (i + 1) cs _ (omega arith) ∙ differs i column _ _ (omega arith)

  caret-expand :
      (k i : ℕ) (cs : Bytes) (s : Shown)
      → column ≡ i + k
      → k < length cs
      → (show_over column span i cs s).caret ≡ length (expand s.displayed (take k cs))
  unfolding show_over
  caret-expand k i [] s e h = absurd (omega arith)
  caret-expand zero i (c ∷ cs) s e h =
      caret-behind (i + 1) cs _ (omega arith) ∙ agrees i column _ _ (omega arith)
  caret-expand (suc k) i (c ∷ cs) s e h = caret-expand k (i + 1) cs _ (omega arith) (omega arith)

  end-behind :
      (i : ℕ) (cs : Bytes) (s : Shown)
      → column + span ≤ i
      → (show_over column span i cs s).highlight_end ≡ s.highlight_end
  unfolding show_over
  end-behind i [] s h = refl
  end-behind i (c ∷ cs) s h =
      end-behind (i + 1) cs _ (omega arith) ∙ differs (i + 1) (column + span) _ _ (omega arith)

  end-expand :
      (k i : ℕ) (cs : Bytes) (s : Shown)
      → column + span ≡ i + suc k
      → k < length cs
      → (show_over column span i cs s).highlight_end ≡ length (expand s.displayed (take (suc k) cs))
  unfolding show_over
  end-expand k i [] s e h = absurd (omega arith)
  end-expand zero i (c ∷ cs) s e h =
      end-behind (i + 1) cs _ (omega arith) ∙ agrees (i + 1) (column + span) _ _ (omega arith)
  end-expand (suc k) i (c ∷ cs) s e h = end-expand k (i + 1) cs _ (omega arith) (omega arith)

width-nonempty : (m : ℕ) (s : Shown) → marked_width (suc m) s ≡ s.highlight_end - s.caret
width-nonempty m s = ground arith

-- The caret stands under the first byte that a diagnostic marks, and the marks end under its last one:
-- the line is shown with its tabs expanded, the caret is as far to the right as the bytes in front are
-- shown, and caret and marks together reach as far as all bytes up to the end of the span. So the width
-- is 1 at least, and the count of marks behind the caret does not wrap around. Condition: the span is
-- not empty and within the line.
pub show_line-places :
    (column span : ℕ) (line : Bytes)
    → 1 ≤ span
    → column + span ≤ length line
    → ((show_line column span line).displayed ≡ expand [] line)
      × ((show_line column span line).caret ≡ length (expand [] (take column line)))
      × ((show_line column span line).caret + marked_width span (show_line column span line)
          ≡ length (expand [] (take (column + span) line)))
      × (1 ≤ marked_width span (show_line column span line))
unfolding show_line
show_line-places column zero line h le = absurd (omega arith)
show_line-places column (suc m) line h le =
    let start : Shown = record { displayed = []; caret = 0; highlight_end = 0 } in
    let shown = show_over column (suc m) 0 line start in
    let caret_eq =
      differs_above column (length line) (length shown.displayed) shown.caret (omega arith)
      ∙ caret-expand column (suc m) column 0 line start (omega arith) (omega arith) in
    let end_eq = end-expand column (suc m) (column + m) 0 line start (omega arith) (omega arith) in
    let whole : suc (column + m) ≡ column + suc m = omega arith in
    let end_eq' = end_eq ∙ ap (λ n. length (expand [] (take n line))) whole in
    let grows = expand-take [] line column (suc m) h le in
    let width_eq = width-nonempty m (show_line column (suc m) line) in
    (
      displayed-expand column (suc m) 0 line start,
      caret_eq,
      omega (arith, width_eq, caret_eq, end_eq', grows),
      omega (arith, width_eq, caret_eq, end_eq', grows),
    )
