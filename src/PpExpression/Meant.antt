-- ===== src/PpExpression/Meant.antt =====
-- `precedence`, `apply`, `unary` and `number` of lib/Lex/PPExpression.cpp do what the standard says.
use tensorium_cc.Prelude.{
  ℕ, ◌-◌, ◌*◌, ◌/◌, ◌^◌, ◌%◌, ◌≤◌, ◌≡◌, refl, sym, ap, ◌∙◌, Bool, true, false, not, ◌&&◌, ◌||◌,
  some, ltb, leb, ◌==◌, if◌then◌else◌, Bool-cases, inl, inr, codes, same_bytes, arith,
}
use tensorium_cc.Prelude.Int.{less_ℤ, quotient_ℤ, remainder_ℤ, shift_right_ℤ, signed64, bits64}
use tensorium_cc.Location.{SourceLoc}
use tensorium_cc.PpExpression.State.{State, Value, bool_value}
use tensorium_cc.PpExpression.Operators.{
  precedence, is_relational, is_logical, is_shift, is_unsigned, word, relate, shift, divide,
  apply_now, apply,
}
use tensorium_cc.PpExpression.Parse.{is_unary, after_unary}
use tensorium_cc.PpExpression.Grammar.{is_active}
use tensorium_cc.PpExpression.Meaning.{
  BinaryOperator, or, and, bitwise_or, bitwise_xor, bitwise_and, equal, unequal, less, at_most,
  greater, at_least, left_shift, right_shift, plus, minus, times, over, modulo, spelling, level,
  common, integer, kept, truth, Order, below, same, above, is_below, is_above, only_if, meaning,
  Yields, evaluates, skipped, goes_right, UnaryOperator, positive, negative, complement, negation,
  unary_spelling, unary_value,
}

some_inj {ℓ} : {A : Type ℓ} (a b : A) → some a ≡ some b → a ≡ b
some_inj a b h = cc

pub precedence-spelling : (o : BinaryOperator) → precedence (codes (spelling o)) ≡ level o
unfolding precedence same_bytes
precedence-spelling or = refl
precedence-spelling and = refl
precedence-spelling bitwise_or = refl
precedence-spelling bitwise_xor = refl
precedence-spelling bitwise_and = refl
precedence-spelling equal = refl
precedence-spelling unequal = refl
precedence-spelling less = refl
precedence-spelling at_most = refl
precedence-spelling greater = refl
precedence-spelling at_least = refl
precedence-spelling left_shift = refl
precedence-spelling right_shift = refl
precedence-spelling plus = refl
precedence-spelling minus = refl
precedence-spelling times = refl
precedence-spelling over = refl
precedence-spelling modulo = refl

-- Tests and values of the code and of the standard.
bool_value-truth : (x : Bool) → bool_value x ≡ truth x
bool_value-truth true = refl
bool_value-truth false = refl

less-integer :
    (u : Bool) (x y : ℕ)
    → (if u then ltb x y else less_ℤ (signed64 x) (signed64 y)) ≡ less_ℤ (integer u x) (integer u y)
less-integer true x y = refl
less-integer false x y = refl

abbrev ordered : Bool → Bool → Order
ordered k e = if k then below else if e then same else above

is_below-ordered : (k e : Bool) → k ≡ is_below (ordered k e)
is_below-ordered true e = refl
is_below-ordered false true = refl
is_below-ordered false false = refl

is_above-ordered : (k e : Bool) → not k && not e ≡ is_above (ordered k e)
is_above-ordered true e = refl
is_above-ordered false true = refl
is_above-ordered false false = refl

not_above-ordered : (k e : Bool) → (k || e) ≡ not (is_above (ordered k e))
not_above-ordered true e = refl
not_above-ordered false true = refl
not_above-ordered false false = refl

kept-kept : (u : Bool) (n : ℕ) → kept u n ≡ kept u (n % 2 ^ 64)
kept-kept u n = ap (λ (m : ℕ). record { bits = m; unsigned_value = u }) (omega arith)

module _ (loc at : SourceLoc) (a b : Value) (s : State) where
  abbrev with_state : Value → Value × State
  with_state v = (v, s)

  -- An operation that is always defined.
  defined :
      (o : BinaryOperator) (w : Value)
      → meaning o a b ≡ some w
      → apply_now loc (codes (spelling o)) a b at s ≡ (w, s)
      → (v : Value) → meaning o a b ≡ some v
      → apply_now loc (codes (spelling o)) a b at s ≡ (v, s)
  defined o w m h v e = h ∙ ap with_state (some_inj w v (sym m ∙ e))

  -- The truth of a test.
  test : (x y : Bool) → x ≡ y → with_state (bool_value x) ≡ with_state (truth y)
  test x y h = ap with_state (bool_value-truth x ∙ ap truth h)

  left_shift-meaning :
      (u : Bool) (n k : ℕ) (v : Value)
      → only_if (ltb k 64) (kept u (n * 2 ^ k)) ≡ some v
      → shift loc (codes "<<") u n k at s ≡ (v, s)
  unfolding shift same_bytes
  left_shift-meaning u n k v h = elim (Bool-cases (leb 64 k)) [
    | inl e ↦ let far : ltb k 64 ≡ false = ground arith in cc (rw far at h)
    | inr e ↦
        let near : ltb k 64 ≡ true = ground arith in
        rw (shift, e) (ap with_state (some_inj _ v (rw near at h)))
  ]

  right_shift-meaning :
      (u : Bool) (n k : ℕ) (v : Value)
      → only_if (ltb k 64) (kept u (bits64 (shift_right_ℤ (integer u n) k))) ≡ some v
      → shift loc (codes ">>") u n k at s ≡ (v, s)
  unfolding shift same_bytes
  right_shift-meaning u n k v h = elim (Bool-cases (leb 64 k)) [
    | inl e ↦ let far : ltb k 64 ≡ false = ground arith in cc (rw far at h)
    | inr e ↦
        let near : ltb k 64 ≡ true = ground arith in
        let is_v = some_inj _ v (rw near at h) in rw (shift, e) (by_type u is_v)
  ]
    where
      by_type :
          (w : Bool)
          → kept w (bits64 (shift_right_ℤ (integer w n) k)) ≡ v
          → (if w
              then with_state (word (n / 2 ^ k) w)
              else with_state (word (bits64 (shift_right_ℤ (signed64 n) k)) w))
            ≡ with_state v
      by_type true h = ap with_state (kept-kept true (n / 2 ^ k) ∙ h)
      by_type false h = ap with_state h

  over-meaning :
      (u : Bool) (n k : ℕ) (v : Value)
      → only_if
          (not (k == 0) && (u || not (n == 2 ^ 63 && k == 2 ^ 64 - 1)))
          (kept u (bits64 (quotient_ℤ (integer u n) (integer u k))))
        ≡ some v
      → divide loc (codes "/") u n k at s ≡ (v, s)
  unfolding divide same_bytes
  over-meaning true n k v h = elim (Bool-cases (k == 0)) [
    | inl e ↦ cc (rw e at h)
    | inr e ↦ rw (divide, e) (ap with_state (kept-kept true (n / k) ∙ some_inj _ v (rw e at h)))
  ]
  over-meaning false n k v h = elim (Bool-cases (k == 0)) [
    | inl e ↦ cc (rw e at h)
    | inr e ↦ elim (Bool-cases (n == 2 ^ 63 && k == 2 ^ 64 - 1)) [
      | inl o ↦ cc (rw (e, o) at h)
      | inr o ↦ rw (divide, e, o) (ap with_state (some_inj _ v (rw (e, o) at h)))
    ]
  ]

  modulo-meaning :
      (u : Bool) (n k : ℕ) (v : Value)
      → only_if
          (not (k == 0) && (u || not (n == 2 ^ 63 && k == 2 ^ 64 - 1)))
          (kept u (bits64 (remainder_ℤ (integer u n) (integer u k))))
        ≡ some v
      → divide loc (codes "%") u n k at s ≡ (v, s)
  unfolding divide same_bytes
  modulo-meaning true n k v h = elim (Bool-cases (k == 0)) [
    | inl e ↦ cc (rw e at h)
    | inr e ↦ rw (divide, e) (ap with_state (kept-kept true (n % k) ∙ some_inj _ v (rw e at h)))
  ]
  modulo-meaning false n k v h = elim (Bool-cases (k == 0)) [
    | inl e ↦ cc (rw e at h)
    | inr e ↦ elim (Bool-cases (n == 2 ^ 63 && k == 2 ^ 64 - 1)) [
      | inl o ↦ cc (rw (e, o) at h)
      | inr o ↦ rw (divide, e, o) (ap with_state (some_inj _ v (rw (e, o) at h)))
    ]
  ]

  apply_now-meaning :
      (o : BinaryOperator) (v : Value)
      → meaning o a b ≡ some v
      → apply_now loc (codes (spelling o)) a b at s ≡ (v, s)
  unfolding meaning apply_now same_bytes is_relational is_shift is_unsigned relate shift divide
  apply_now-meaning or = defined or _ refl (test _ _ refl)
  apply_now-meaning and = defined and _ refl (test _ _ refl)
  apply_now-meaning bitwise_or = defined bitwise_or _ refl refl
  apply_now-meaning bitwise_xor = defined bitwise_xor _ refl refl
  apply_now-meaning bitwise_and = defined bitwise_and _ refl refl
  apply_now-meaning equal = defined equal _ refl (test _ _ refl)
  apply_now-meaning unequal = defined unequal _ refl (test _ _ refl)
  apply_now-meaning less =
      defined less _ refl
        (test _ _ (less-integer (common a b) a.bits b.bits ∙ is_below-ordered _ (a.bits == b.bits)))
  apply_now-meaning at_most = defined at_most _ refl (
      test _ _ (
        ap (λ k. k || a.bits == b.bits) (less-integer (common a b) a.bits b.bits)
        ∙ not_above-ordered _ (a.bits == b.bits)))
  apply_now-meaning greater = defined greater _ refl (
      test _ _ (
        ap (λ k. not k && not (a.bits == b.bits)) (less-integer (common a b) a.bits b.bits)
        ∙ is_above-ordered _ (a.bits == b.bits)))
  apply_now-meaning at_least = defined at_least _ refl (
      test _ _
        (ap not (less-integer (common a b) a.bits b.bits ∙ is_below-ordered _ (a.bits == b.bits))))
  apply_now-meaning left_shift = left_shift-meaning a.unsigned_value a.bits b.bits
  apply_now-meaning right_shift = right_shift-meaning a.unsigned_value a.bits b.bits
  apply_now-meaning plus = defined plus _ refl refl
  apply_now-meaning minus = defined minus _ refl refl
  apply_now-meaning times = defined times _ refl refl
  apply_now-meaning over = over-meaning (common a b) a.bits b.bits
  apply_now-meaning modulo = modulo-meaning (common a b) a.bits b.bits

pub apply-Yields :
    (loc at : SourceLoc) (o : BinaryOperator) (a b : Value) (e : Bool) (v : Value) (s : State)
    → Yields o a b e v
    → apply loc (codes (spelling o)) a b e at s ≡ (v, s)
unfolding apply same_bytes is_logical is_relational is_shift is_unsigned
apply-Yields loc at o a b _ v s (evaluates h) = apply_now-meaning loc at a b s o v h
apply-Yields loc at or a b _ _ s skipped = refl
apply-Yields loc at and a b _ _ s skipped = refl
apply-Yields loc at bitwise_or a b _ _ s skipped = refl
apply-Yields loc at bitwise_xor a b _ _ s skipped = refl
apply-Yields loc at bitwise_and a b _ _ s skipped = refl
apply-Yields loc at equal a b _ _ s skipped = refl
apply-Yields loc at unequal a b _ _ s skipped = refl
apply-Yields loc at less a b _ _ s skipped = refl
apply-Yields loc at at_most a b _ _ s skipped = refl
apply-Yields loc at greater a b _ _ s skipped = refl
apply-Yields loc at at_least a b _ _ s skipped = refl
apply-Yields loc at left_shift a b _ _ s skipped = refl
apply-Yields loc at right_shift a b _ _ s skipped = refl
apply-Yields loc at plus a b _ _ s skipped = refl
apply-Yields loc at minus a b _ _ s skipped = refl
apply-Yields loc at times a b _ _ s skipped = refl
apply-Yields loc at over a b _ _ s skipped = refl
apply-Yields loc at modulo a b _ _ s skipped = refl

pub is_unary-unary_spelling : (o : UnaryOperator) → is_unary (codes (unary_spelling o)) ≡ true
unfolding is_unary same_bytes
is_unary-unary_spelling positive = refl
is_unary-unary_spelling negative = refl
is_unary-unary_spelling complement = refl
is_unary-unary_spelling negation = refl

zero-truth :
    (z : Bool) → record { bits = if z then 1 else 0; unsigned_value = false } ≡ truth (not (not z))
zero-truth true = refl
zero-truth false = refl

pub after_unary-unary_value :
    (o : UnaryOperator) (e : Bool) (v : Value)
    → after_unary (codes (unary_spelling o)) e v ≡ unary_value o e v
unfolding after_unary same_bytes
after_unary-unary_value positive true v = refl
after_unary-unary_value negative true v = refl
after_unary-unary_value complement true v = refl
after_unary-unary_value negation true v = zero-truth (v.bits == 0)
after_unary-unary_value positive false v = refl
after_unary-unary_value negative false v = refl
after_unary-unary_value complement false v = refl
after_unary-unary_value negation false v = refl

and_true : (z : Bool) → (z && true) ≡ z
and_true true = refl
and_true false = refl

-- Which operands are evaluated.
pub is_active-goes_right :
    (e : Bool) (o : BinaryOperator) (a : Value)
    → is_active e (codes (spelling o)) a ≡ goes_right e o a
unfolding same_bytes
is_active-goes_right false o a = false_right o
  where
    false_right : (p : BinaryOperator) → false ≡ goes_right false p a
    false_right or = refl
    false_right and = refl
    false_right _ = refl
is_active-goes_right true or a = refl
is_active-goes_right true and a = and_true (not (a.bits == 0))
is_active-goes_right true _ a = refl

pub level-range : (o : BinaryOperator) → 1 ≤ level o × level o ≤ 10
level-range or = (omega arith, omega arith)
level-range and = (omega arith, omega arith)
level-range bitwise_or = (omega arith, omega arith)
level-range bitwise_xor = (omega arith, omega arith)
level-range bitwise_and = (omega arith, omega arith)
level-range equal = (omega arith, omega arith)
level-range unequal = (omega arith, omega arith)
level-range less = (omega arith, omega arith)
level-range at_most = (omega arith, omega arith)
level-range greater = (omega arith, omega arith)
level-range at_least = (omega arith, omega arith)
level-range left_shift = (omega arith, omega arith)
level-range right_shift = (omega arith, omega arith)
level-range plus = (omega arith, omega arith)
level-range minus = (omega arith, omega arith)
level-range times = (omega arith, omega arith)
level-range over = (omega arith, omega arith)
level-range modulo = (omega arith, omega arith)
