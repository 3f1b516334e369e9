-- ===== src/Lexer/Scan/Reads.antt =====
-- Moving over input: what was read, and where the lexer stands behind it.
use mathlib.Core.List.{append_assoc}
use tensorium_cc.Prelude.{
  ◌≤◌, ◌≢◌, true, false, get_or, ==_iff, ℕ, ◌+◌, ◌<◌, ◌≡◌, refl, sym, ap, ◌∙◌, Bool, [], ◌∷◌, ◌++◌,
  arith, ◌==◌, if◌then◌else◌, length, length-append, Bytes, Bool-cases, inl, inr,
}
use tensorium_cc.Location.{next_u32}
use tensorium_cc.Lexer.Scan.{Scan, cur, look, advance_over, advance, eat_over, eat}

abbrev pub line_after : ℕ → Bytes → ℕ
line_after l [] = l
line_after l (c ∷ cs) = line_after (if c == b'\n' then next_u32 l else l) cs

abbrev pub col_after : ℕ → Bytes → ℕ
col_after k [] = k
col_after k (c ∷ cs) = col_after (if c == b'\n' then 1 else next_u32 k) cs

-- `t` stands behind `read`, which `s` stands in front of.
pub record Reads (s t : Scan) : Type 0 where
  pub read : Bytes
  pub splits : s.rest ≡ read ++ t.rest
  pub pos_is : t.pos ≡ s.pos + length read
  pub line_is : t.line ≡ line_after s.line read
  pub col_is : t.col ≡ col_after s.col read

pub line_after-append :
    (xs ys : Bytes) (l : ℕ) → line_after l (xs ++ ys) ≡ line_after (line_after l xs) ys
line_after-append [] ys l = refl
line_after-append (x ∷ xs) ys l = line_after-append xs ys (if x == b'\n' then next_u32 l else l)

pub col_after-append :
    (xs ys : Bytes) (k : ℕ) → col_after k (xs ++ ys) ≡ col_after (col_after k xs) ys
col_after-append [] ys k = refl
col_after-append (x ∷ xs) ys k = col_after-append xs ys (if x == b'\n' then 1 else next_u32 k)

pub Reads-refl : (s : Scan) → Reads s s
Reads-refl s = record {
  read = [];
  splits = refl;
  pos_is = omega arith;
  line_is = refl;
  col_is = refl;
}

pub Reads-trans : {s t u : Scan} → Reads s t → Reads t u → Reads s u
Reads-trans {s} {t} {u} a b = record {
  read = a.read ++ b.read;
  splits = a.splits ∙ ap (◌++◌ a.read) b.splits ∙ sym (append_assoc a.read b.read u.rest);
  pos_is = omega (arith, length-append a.read b.read, a.pos_is, b.pos_is);
  line_is =
      b.line_is
      ∙ ap (λ l. line_after l b.read) a.line_is
      ∙ sym (line_after-append a.read b.read s.line);
  col_is =
      b.col_is ∙ ap (λ k. col_after k b.read) a.col_is ∙ sym (col_after-append a.read b.read s.col);
}

pub Reads-advance_over :
    (c : ℕ) (cs : Bytes) (s : Scan) → s.rest ≡ c ∷ cs → Reads s (advance_over (c ∷ cs) s)
unfolding advance_over
Reads-advance_over c cs s e = elim (Bool-cases (c == b'\n')) [
  | inl h ↦
      rw h
        (record { read = c ∷ []; splits = e; pos_is = omega arith; line_is = rw h; col_is = rw h })
  | inr h ↦
      rw h
        (record { read = c ∷ []; splits = e; pos_is = omega arith; line_is = rw h; col_is = rw h })
]

pub rest-advance_over : (c : ℕ) (cs : Bytes) (s : Scan) → (advance_over (c ∷ cs) s).rest ≡ cs
unfolding advance_over
rest-advance_over c cs s = ground arith

pub advance-eq : (s : Scan) {cs : Bytes} → s.rest ≡ cs → advance s ≡ advance_over cs s
unfolding advance
advance-eq s e = ap (λ r. advance_over r s) e

-- What was read does not come back.
pub length-Reads : {s t : Scan} → Reads s t → length t.rest ≤ length s.rest
length-Reads {s} {t} r = omega (arith, ap length r.splits, length-append r.read t.rest)

-- Reading that takes a byte at least.
pub record Takes (s t : Scan) : Type 0 where
  pub reads : Reads s t
  pub fewer : length t.rest < length s.rest

pub Takes-trans : {s t u : Scan} → Takes s t → Reads t u → Takes s u
Takes-trans a b = record {
  reads = Reads-trans a.reads b;
  fewer = omega (arith, a.fewer, length-Reads b);
}

pub Takes-advance_over :
    (c : ℕ) (cs : Bytes) (s : Scan) → s.rest ≡ c ∷ cs → Takes s (advance_over (c ∷ cs) s)
Takes-advance_over c cs s e = record {
  reads = Reads-advance_over c cs s e;
  fewer = omega (arith, ap length e, ap length (rest-advance_over c cs s));
}

-- There is a byte to read.
abbrev pub IsLive : Scan → Type 0
IsLive s = s.rest ≢ []

pub IsLive-cur : (s : Scan) (k : ℕ) → k ≢ 0 → (cur s == k) ≡ true → IsLive s
unfolding cur
IsLive-cur s k h e empty = h (sym ((==_iff (cur s) k).0 e) ∙ ap (λ r. get_or r 0 0) empty)

pub IsLive-nonzero : (s : Scan) → (cur s == 0) ≡ false → IsLive s
unfolding cur
IsLive-nonzero s e empty = cc (rw empty at e)

Takes-rest : (cs : Bytes) (s : Scan) → s.rest ≡ cs → cs ≢ [] → Takes s (advance_over cs s)
Takes-rest [] s e h = absurd (h refl)
Takes-rest (c ∷ cs) s e h = Takes-advance_over c cs s e

pub Takes-advance : (s : Scan) → IsLive s → Takes s (advance s)
unfolding advance
Takes-advance s h = Takes-rest s.rest s refl h

IsLive-rest :
    (cs : Bytes) (s : Scan) (k : ℕ)
    → k ≢ 0
    → (get_or cs 1 0 == k) ≡ true
    → IsLive (advance_over cs s)
IsLive-rest [] s k h e = absurd (h (sym ((==_iff 0 k).0 e)))
IsLive-rest (c ∷ []) s k h e = absurd (h (sym ((==_iff 0 k).0 e)))
IsLive-rest (c ∷ d ∷ cs) s k h e = rw rest-advance_over (λ x. cc x)

-- A byte seen by `look` is there to read behind the next one.
pub IsLive-look : (s : Scan) (k : ℕ) → k ≢ 0 → (look s 1 == k) ≡ true → IsLive (advance s)
unfolding advance look
IsLive-look s k h e = IsLive-rest s.rest s k h e

module _ (p : ℕ → Bool) where
  Reads-eat_over : (cs : Bytes) (s : Scan) → s.rest ≡ cs → Reads s (eat_over p cs s).1
  unfolding eat_over
  Reads-eat_over [] s e = Reads-refl s
  Reads-eat_over (c ∷ cs) s e = elim (Bool-cases (p c)) [
    | inl h ↦
        rw h (
          Reads-trans (Reads-advance_over c cs s e)
            (Reads-eat_over cs _ (rest-advance_over c cs s)))
    | inr h ↦ rw h (Reads-refl s)
  ]

  pub Reads-eat : (s : Scan) → Reads s (eat p s).1
  unfolding eat
  Reads-eat s = Reads-eat_over s.rest s refl

  -- A first byte that `p` holds of is taken.
  Takes-eat_over :
      (cs : Bytes) (s : Scan)
      → s.rest ≡ cs
      → cs ≢ []
      → p (get_or cs 0 0) ≡ true
      → Takes s (eat_over p cs s).1
  unfolding eat_over
  Takes-eat_over [] s e live h = absurd (live refl)
  Takes-eat_over (c ∷ cs) s e live h =
      rw h
        (Takes-trans (Takes-advance_over c cs s e) (Reads-eat_over cs _ (rest-advance_over c cs s)))

  pub Takes-eat : (s : Scan) → IsLive s → p (cur s) ≡ true → Takes s (eat p s).1
  unfolding eat cur
  Takes-eat s live h = Takes-eat_over s.rest s refl live h

  eat_over-nothing : (cs : Bytes) (s : Scan) → p (get_or cs 0 0) ≡ false → eat_over p cs s ≡ ([], s)
  unfolding eat_over
  eat_over-nothing [] s h = refl
  eat_over-nothing (c ∷ cs) s h = rw h refl

  -- Where the next byte fails `p` nothing is taken.
  pub eat-nothing : (s : Scan) → p (cur s) ≡ false → eat p s ≡ ([], s)
  unfolding eat cur
  eat-nothing s h = eat_over-nothing s.rest s h
