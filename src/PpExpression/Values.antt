-- ===== src/PpExpression/Values.antt =====
-- lib/Lex/PPExpression.cpp computes the value of every expression of the grammar.
use Prim.Native.Nat.{max}
use mathlib.Core.List.{append_assoc}
use tensorium_cc.Prelude.{
  ℕ, zero, suc, ◌+◌, ◌*◌, ◌≤◌, ◌<◌, ◌≡◌, refl, ap, ◌∙◌, Bool, true, false, some, List, [], ◌∷◌,
  ◌++◌, ltb, length, length-append, lt→ltb, arith,
}
use tensorium_cc.Diagnostic.{DiagnosticEngine, has_errors}
use tensorium_cc.Preprocessor.{PpToken}
use tensorium_cc.PpExpression.State.{State, Value, skip_token, match_text}
use tensorium_cc.PpExpression.Operators.{is, precedence, apply}
use tensorium_cc.PpExpression.Parse.{
  Setting, Answer, is_unary, after_unary, expect, primary, unary_at, unary_next, round, branches,
  unary, binary, binary_loop, conditional,
}
use tensorium_cc.PpExpression.Grammar.{is_active, next_precedence, Closes, state, Closes-closing}

module _ (set : Setting) (dg : DiagnosticEngine) (clean : has_errors dg ≡ false) where
  -- `unary` consumes the tokens for the value.
  abbrev pub ReadsUnary : Bool → ℕ → List PpToken → Value → Type 0
  ReadsUnary e d ts v =
      (fuel depth : ℕ) (rest : List PpToken)
      → 4 * length (ts ++ rest) < fuel
      → depth + d ≤ 256
      → unary set fuel depth e (state (ts ++ rest) dg) ≡ some (v, state rest dg)

  -- `binary` comes to its loop behind the tokens with the value.
  abbrev pub ReadsBinary : ℕ → Bool → ℕ → List PpToken → Value → Type 0
  ReadsBinary l e d ts v =
      (fuel minimum depth : ℕ) (rest : List PpToken)
      → minimum ≤ l
      → next_precedence rest ≤ l
      → 4 * length (ts ++ rest) + 1 < fuel
      → depth + d ≤ 256
      → (left : ℕ) × ((4 * length rest < suc left)
          × (binary set fuel minimum depth e (state (ts ++ rest) dg)
              ≡ binary_loop set (suc left) minimum depth e v (state rest dg)))

  abbrev pub ReadsConditional : Bool → ℕ → List PpToken → Value → Type 0
  ReadsConditional e d ts v =
      (fuel depth : ℕ) (rest : List PpToken)
      → Closes rest
      → 4 * length (ts ++ rest) + 2 < fuel
      → depth + 1 + d ≤ 256
      → conditional set fuel depth e (state (ts ++ rest) dg) ≡ some (v, state rest dg)

  pub binary_loop-stops :
      (fuel minimum depth : ℕ) (e : Bool) (v : Value) (rest : List PpToken)
      → next_precedence rest < minimum
      → binary_loop set (suc fuel) minimum depth e v (state rest dg) ≡ some (v, state rest dg)
  unfolding binary_loop round
  binary_loop-stops fuel minimum depth e v [] h = refl
  binary_loop-stops fuel minimum depth e v (t ∷ rest) h = rw (clean, lt→ltb _ _ h)

  pub binary-unary :
      (e : Bool) (d : ℕ) (ts : List PpToken) (v : Value)
      → ReadsUnary e d ts v
      → ReadsBinary 11 e d ts v
  unfolding binary
  binary-unary e d ts v read zero minimum depth rest hm hn hf hd = elim hf [ ]
  binary-unary e d ts v read (suc zero) minimum depth rest hm hn hf hd = absurd (omega arith)
  binary-unary e d ts v read (suc (suc fuel)) minimum depth rest hm hn hf hd = (
    fuel,
    (omega (arith, length-append ts rest), rw (read (suc fuel) depth rest (omega arith) hd)),
  )

  branches-none :
      (call : Bool → State → Answer) (e : Bool) (v : Value) (rest : List PpToken)
      → Closes rest
      → branches set call e v (state rest dg) ≡ some (v, state rest dg)
  unfolding branches
  branches-none call e v rest closes = rw (clean, closes.no_question)

  pub ltb-depth : (depth d : ℕ) → depth + suc d ≤ 256 → ltb 255 depth ≡ false
  ltb-depth depth d h = ground arith

  ltb-not : (a b : ℕ) → b ≤ a → ltb a b ≡ false
  ltb-not a b h = ground arith

  one_less : (n m : ℕ) → m < n → (k : ℕ) × (n ≡ suc k)
  one_less zero m h = elim h [ ]
  one_less (suc k) m h = (k, refl)

  pub conditional-binary :
      (e : Bool) (l d : ℕ) (ts : List PpToken) (v : Value)
      → 1 ≤ l
      → ReadsBinary l e d ts v
      → ReadsConditional e d ts v
  unfolding conditional
  conditional-binary e l d ts v hl read zero depth rest closes hf hd = elim hf [ ]
  conditional-binary e l d ts v hl read (suc fuel) depth rest closes hf hd =
      let (left, (hleft, eq)) =
        read fuel 1 (depth + 1) rest hl (rw closes.no_operator (omega arith)) (omega arith)
          (omega arith) in
      let stop =
        binary_loop-stops left 1 (depth + 1) e v rest (rw closes.no_operator (omega arith)) in
      rw (ltb-depth depth d (omega arith), eq, stop) (branches-none _ e v rest closes)

  pub unary-constant :
      (e : Bool) (v : Value) (t : PpToken)
      → is_unary t.text ≡ false
      → is t.text "(" ≡ false
      → ((s : State) → primary set t.kind t s ≡ some (v, skip_token s))
      → ReadsUnary e 1 (t ∷ []) v
  unfolding unary unary_next unary_at
  unary-constant e v t h h' read zero depth rest hf hd = elim hf [ ]
  unary-constant e v t h h' read (suc fuel) depth rest hf hd =
      rw (ltb-depth depth 0 hd, h, h') (read _)

  pub unary-prefixed :
      (e : Bool) (d : ℕ) (ts : List PpToken) (v : Value) (op : PpToken)
      → is_unary op.text ≡ true
      → ReadsUnary e d ts v
      → ReadsUnary e (suc d) (op ∷ ts) (after_unary op.text e v)
  unfolding unary unary_next unary_at
  unary-prefixed e d ts v op h read zero depth rest hf hd = elim hf [ ]
  unary-prefixed e d ts v op h read (suc fuel) depth rest hf hd =
      rw (ltb-depth depth d hd, h, read fuel (depth + 1) rest (omega arith) (omega arith))

  pub unary-grouped :
      (e : Bool) (d : ℕ) (ts : List PpToken) (v : Value) (open_token close_token : PpToken)
      → is_unary open_token.text ≡ false
      → is open_token.text "(" ≡ true
      → is close_token.text ")" ≡ true
      → ReadsConditional e d ts v
      → ReadsUnary e (suc (suc d)) (open_token ∷ (ts ++ (close_token ∷ []))) v
  unfolding unary unary_next unary_at expect match_text
  unary-grouped e d ts v open_token close_token hu ho hc read zero depth rest hf hd = elim hf [ ]
  unary-grouped e d ts v open_token close_token hu ho hc read (suc fuel) depth rest hf hd =
      let assoc = append_assoc ts (close_token ∷ []) rest in
      let same = ap length assoc in
      let inner =
        read fuel (depth + 1) (close_token ∷ rest) (Closes-closing close_token rest hc)
          (omega arith) (omega arith) in
      rw (ltb-depth depth (suc d) hd, hu, ho, assoc, inner, hc)

  -- One round of the loop of `binary`.
  binary_loop-round :
      (left minimum depth : ℕ) (e : Bool) (va vb v : Value) (op : PpToken) (ts rest : List PpToken)
      → minimum ≤ precedence op.text
      → ((s : State) → apply set.loc op.text va vb e op.loc s ≡ (v, s))
      → (binary set left (precedence op.text + 1) depth (is_active e op.text va) (state ts dg)
          ≡ some (vb, state rest dg))
      → (binary_loop set (suc left) minimum depth e va (state (op ∷ ts) dg)
          ≡ binary_loop set left minimum depth e v (state rest dg))
  unfolding binary_loop round
  binary_loop-round left minimum depth e va vb v op ts rest hm ha eq =
      rw (clean, ltb-not (precedence op.text) minimum hm, eq, ha (state rest dg)) refl

  pub binary-joined :
      (e : Bool) (la lb da db q : ℕ) (xs ys : List PpToken) (va vb v : Value) (op : PpToken)
      → precedence op.text ≡ q
      → q ≤ la
      → q < lb
      → ((s : State) → apply set.loc op.text va vb e op.loc s ≡ (v, s))
      → ReadsBinary la e da xs va
      → ReadsBinary lb (is_active e op.text va) db ys vb
      → ReadsBinary q e (max da db) (xs ++ (op ∷ ys)) v
  binary-joined e la lb da db q xs ys va vb v op hq hla hlb ha read_x read_y fuel minimum depth rest
        hm hn hf hd =
      let assoc = append_assoc xs (op ∷ ys) rest in
      let len_x = length-append xs (op ∷ (ys ++ rest)) in
      let len_y = length-append ys rest in
      let same = ap length assoc in
      let (left, (hl, eq)) =
        read_x fuel minimum depth (op ∷ (ys ++ rest)) (omega arith) (omega arith) (omega arith)
          (omega arith) in
      let (left', (hl', eq')) =
        read_y left (precedence op.text + 1) depth rest (omega arith) (omega arith) (omega arith)
          (omega arith) in
      let stop =
        binary_loop-stops left' (precedence op.text + 1) depth (is_active e op.text va) vb rest
          (omega arith) in
      let (k, hk) = one_less left (4 * length rest) (omega arith) in
      let round_eq =
        binary_loop-round left minimum depth e va vb v op (ys ++ rest) rest (omega arith) ha
          (eq' ∙ stop) in
      (
        k,
        (
          omega arith,
          ap (λ ts. binary set fuel minimum depth e (state ts dg)) assoc
              ∙ eq
              ∙ round_eq
              ∙ ap (λ n. binary_loop set n minimum depth e v (state rest dg)) hk,
        ),
      )
