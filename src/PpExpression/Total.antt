-- ===== src/PpExpression/Total.antt =====
-- The fuel of `evaluate_pp_expression` is enough on every input.
use tensorium_cc.Prelude.{
  ℕ, zero, suc, ◌+◌, ◌*◌, ◌≤◌, ◌<◌, ◌≡◌, refl, ap, Bool, true, not, ◌&&◌, ◌||◌, Option, none, some,
  List, [], ◌∷◌, ltb, if_ind, and_right, length, Bytes, codes, arith,
}
use tensorium_cc.Diagnostic.{DiagnosticEngine, has_errors}
use tensorium_cc.Preprocessor.{PpToken, PpTokenKind}
use tensorium_cc.PpExpression.State.{State, Value, fail, next_is, tail, skip_token}
use tensorium_cc.PpExpression.Operators.{is, precedence}
use tensorium_cc.PpExpression.Numbers.{number}
use tensorium_cc.PpExpression.Parse.{
  Setting, Answer, ◌>>=◌, character, is_unary, expect, primary, unary_at, unary_next, round,
  branches, unary, binary, binary_loop, conditional, enough, evaluate_pp_expression,
}
use tensorium_cc.PpExpression.Rest.{
  rest-fail, length-tail, length-expect, rest-number, SameRest-apply,
}

-- An answer that leaves `n` tokens at most.
abbrev pub EndsWithin : ℕ → Answer → Type 0
EndsWithin n none = ⊥
EndsWithin n (some (v, s)) = length s.rest ≤ n

EndsWithin-bind :
    (m n : ℕ) (a : Answer) (f : Value × State → Answer)
    → EndsWithin m a
    → ((v : Value) (s : State) → length s.rest ≤ m → EndsWithin n (f (v, s)))
    → EndsWithin n (a >>= f)
EndsWithin-bind m n none f h k = absurd h
EndsWithin-bind m n (some (v, s)) f h k = k v s h

EndsWithin-le : (m n : ℕ) (a : Answer) → m ≤ n → EndsWithin m a → EndsWithin n a
EndsWithin-le m n none le h = h
EndsWithin-le m n (some (v, s)) le h = omega arith

module _ (set : Setting) where
  EndsWithin-primary :
      (kind : PpTokenKind) (token : PpToken) (s : State)
      → EndsWithin (length s.rest) (primary set kind token s)
  unfolding primary character
  EndsWithin-primary PpTokenKind.number token s =
      omega (
        arith,
        ap length (rest-number set.loc token s),
        length-tail (number set.loc token s).1.rest,
      )
  EndsWithin-primary PpTokenKind.identifier token s = length-tail s.rest
  EndsWithin-primary PpTokenKind.character token s = length-tail s.rest
  EndsWithin-primary _ token s =
      let failed = fail set.loc "expected integer expression after #if" s in
      omega (
        arith,
        ap length (rest-fail set.loc "expected integer expression after #if" s),
        length-tail failed.rest,
      )

  -- A call on fewer tokens ends with no more than it was given.
  abbrev Shorter : ℕ → (Bool → State → Answer) → Type 0
  Shorter n call =
      (e : Bool) (s : State) → length s.rest < n → EndsWithin (length s.rest) (call e s)

  EndsWithin-unary_next :
      (recurse nested : Bool → State → Answer) (e : Bool) (tokens : List PpToken) (s : State)
      → s.rest ≡ tokens
      → Shorter (length s.rest) recurse
      → Shorter (length s.rest) nested
      → EndsWithin (length s.rest) (unary_next set recurse nested e tokens s)
  unfolding unary_next unary_at
  EndsWithin-unary_next recurse nested e [] s eq hr hn =
      omega (arith, ap length (rest-fail set.loc "expected integer expression after #if" s))
  EndsWithin-unary_next recurse nested e (token ∷ rest) s eq hr hn =
      let fewer : length (tail s.rest) < length s.rest = rw eq (omega arith) in
      let P = EndsWithin (length s.rest) in
      if_ind P (is_unary token.text)
        (λ _.
          EndsWithin-bind (length (tail s.rest)) (length s.rest) (recurse e (skip_token s)) _
            (hr e (skip_token s) fewer) (λ v t le. omega arith))
        λ _.
          if_ind P (is token.text "(")
            (λ _.
              EndsWithin-bind (length (tail s.rest)) (length s.rest) (nested e (skip_token s)) _
                (hn e (skip_token s) fewer)
                (λ v t le. omega (arith, length-expect set ")" "expected ')' in #if expression" t)))
            (λ _. EndsWithin-primary token.kind token s)

  EndsWithin-round :
      (operand : ℕ → Bool → State → Answer) (again : Value → State → Answer) (minimum : ℕ)
      (e : Bool) (left : Value) (tokens : List PpToken) (s : State)
      → s.rest ≡ tokens
      → ((p : ℕ) → Shorter (length s.rest) (operand p))
      → ((v : Value) (t : State)
          → length t.rest < length s.rest
          → EndsWithin (length t.rest) (again v t))
      → EndsWithin (length s.rest) (round set operand again minimum e left tokens s)
  unfolding round
  EndsWithin-round operand again minimum e left [] s eq ho ha = omega arith
  EndsWithin-round operand again minimum e left (op ∷ rest) s eq ho ha =
      let fewer : length (tail s.rest) < length s.rest = rw eq (omega arith) in
      if_ind (EndsWithin (length s.rest))
        (has_errors s.diagnostics || ltb (precedence op.text) minimum) (λ _. omega arith)
        λ _.
          EndsWithin-bind (length (tail s.rest)) (length s.rest) _ _
            (ho (precedence op.text + 1) _ (skip_token s) fewer)
            λ v t le.
              let same = ap length (SameRest-apply set.loc op.text left v e op.loc t) in
              EndsWithin-le _ _ _ (omega arith) (ha _ _ (omega arith))

  next_is-length :
      (text : Bytes) (tokens : List PpToken)
      → next_is text tokens ≡ true
      → length (tail tokens) < length tokens
  next_is-length text [] h = cc
  next_is-length text (t ∷ ts) h = omega arith

  EndsWithin-branches :
      (recurse : Bool → State → Answer) (e : Bool) (value : Value) (s : State)
      → Shorter (length s.rest) recurse
      → EndsWithin (length s.rest) (branches set recurse e value s)
  unfolding branches
  EndsWithin-branches recurse e value s hr =
      if_ind (EndsWithin (length s.rest))
        (not (has_errors s.diagnostics) && next_is (codes "?") s.rest)
        (λ h.
          let fewer = next_is-length (codes "?") s.rest (and_right _ _ h) in
          EndsWithin-bind (length (tail s.rest)) (length s.rest) _ _ (hr _ (skip_token s) fewer)
            λ v t le.
              let le' = length-expect set ":" "expected ':' in #if expression" t in
              let u = expect set ":" "expected ':' in #if expression" t in
              EndsWithin-bind (length u.rest) (length s.rest) _ _ (hr _ u (omega arith))
                (λ w x le''. omega arith))
        (λ _. omega arith)

  mutual
    unfolding unary

    unary-EndsWithin :
        (fuel depth : ℕ) (e : Bool) (s : State)
        → 4 * length s.rest < fuel
        → EndsWithin (length s.rest) (unary set fuel depth e s)
    unary-EndsWithin zero depth e s h = elim h [ ]
    unary-EndsWithin (suc fuel) depth e s h =
        if_ind (EndsWithin (length s.rest)) (ltb 255 depth)
          (λ _.
            omega (arith, ap length (rest-fail set.loc "#if expression nesting limit exceeded" s)))
          (λ _.
            EndsWithin-unary_next (unary set fuel (depth + 1)) (conditional set fuel (depth + 1)) e
              s.rest s refl (λ e' t le. unary-EndsWithin fuel (depth + 1) e' t (omega arith))
              (λ e' t le. conditional-EndsWithin fuel (depth + 1) e' t (omega arith)))

    binary-EndsWithin :
        (fuel minimum depth : ℕ) (e : Bool) (s : State)
        → 4 * length s.rest + 1 < fuel
        → EndsWithin (length s.rest) (binary set fuel minimum depth e s)
    binary-EndsWithin zero minimum depth e s h = elim h [ ]
    binary-EndsWithin (suc fuel) minimum depth e s h =
        EndsWithin-bind (length s.rest) (length s.rest) (unary set fuel depth e s) _
          (unary-EndsWithin fuel depth e s (omega arith))
          λ v t le.
            EndsWithin-le (length t.rest) (length s.rest) _ le
              (binary_loop-EndsWithin fuel minimum depth e v t (omega arith))

    binary_loop-EndsWithin :
        (fuel minimum depth : ℕ) (e : Bool) (left : Value) (s : State)
        → 4 * length s.rest < fuel
        → EndsWithin (length s.rest) (binary_loop set fuel minimum depth e left s)
    binary_loop-EndsWithin zero minimum depth e left s h = elim h [ ]
    binary_loop-EndsWithin (suc fuel) minimum depth e left s h =
        EndsWithin-round _ _ minimum e left s.rest s refl
          (λ p e' t le. binary-EndsWithin fuel p depth e' t (omega arith))
          (λ v t le. binary_loop-EndsWithin fuel minimum depth e v t (omega arith))

    conditional-EndsWithin :
        (fuel depth : ℕ) (e : Bool) (s : State)
        → 4 * length s.rest + 2 < fuel
        → EndsWithin (length s.rest) (conditional set fuel depth e s)
    conditional-EndsWithin zero depth e s h = elim h [ ]
    conditional-EndsWithin (suc fuel) depth e s h =
        if_ind (EndsWithin (length s.rest)) (ltb 255 depth)
          (λ _.
            omega (arith, ap length (rest-fail set.loc "#if expression nesting limit exceeded" s)))
          (λ _.
            EndsWithin-bind (length s.rest) (length s.rest) _ _
              (binary-EndsWithin fuel 1 (depth + 1) e s (omega arith))
              λ v t le. EndsWithin-le (length t.rest) (length s.rest) _ le (
                EndsWithin-branches (conditional set fuel (depth + 1)) e v t
                  (λ e' u le'. conditional-EndsWithin fuel (depth + 1) e' u (omega arith))))

answered : (n : ℕ) (a : Answer) → EndsWithin n a → (r : Value × State) × (a ≡ some r)
answered n none h = absurd h
answered n (some r) h = (r, refl)

bind_some :
    {A B : Type 0} (a : Option A) (f : A → B) {r : A}
    → a ≡ some r
    → (x : B) × ((a >>= λ y. some (f y)) ≡ some x)
bind_some a f {r} e = (f r, ap (λ b. b >>= λ y. some (f y)) e)

-- The evaluation of a directive's expression ends with a result on every list of tokens, from every
-- state of the engine: the fuel `4 n + 3` for `n` tokens is never used up.
pub evaluate_pp_expression_total :
    (set : Setting) (tokens : List PpToken) (diagnostics : DiagnosticEngine)
    → (r : Bool × Bool × DiagnosticEngine) × (evaluate_pp_expression set tokens diagnostics
        ≡ some r)
unfolding evaluate_pp_expression
evaluate_pp_expression_total set tokens diagnostics =
    let start : State = record { rest = tokens; diagnostics = diagnostics } in
    let (r, e) =
      answered _ _ (conditional-EndsWithin set (enough tokens) 0 true start (omega arith)) in
    bind_some (conditional set (enough tokens) 0 true start) _ e
