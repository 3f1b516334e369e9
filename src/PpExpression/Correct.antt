-- ===== src/PpExpression/Correct.antt =====
-- `evaluatePPExpression` of lib/Lex/PPExpression.cpp on the expressions of the grammar.
use Prim.Native.Nat.{max}
use mathlib.Core.List.{append-nil}
use tensorium_cc.Prelude.{
  ℕ, ◌≤◌, ◌<◌, ◌≡◌, refl, ap, sym, ◌∙◌, Bool, true, false, not, some, List, [], ◌∷◌, ◌==◌, length,
  suc, Bytes, String, codes, same_bytes, same_bytes_iff, arith,
}
use tensorium_cc.Diagnostic.{DiagnosticEngine, has_errors}
use tensorium_cc.Preprocessor.{PpToken}
use mathlib.Core.Path.{subst}
use tensorium_cc.PpExpression.State.{State, Value}
use tensorium_cc.PpExpression.Operators.{is, precedence, apply}
use tensorium_cc.PpExpression.Parse.{
  Setting, is_unary, after_unary, conditional, enough, evaluate_pp_expression,
}
use tensorium_cc.PpExpression.Grammar.{
  is_active, Denotes, constant, prefixed, grouped, joined, chosen, state,
}
use tensorium_cc.PpExpression.Meaning.{level}
use tensorium_cc.PpExpression.Meant.{
  precedence-spelling, apply-Yields, is_unary-unary_spelling, after_unary-unary_value,
  is_active-goes_right, level-range,
}
use tensorium_cc.PpExpression.Constants.{IsConstant-Plain, primary-IsConstant}
use tensorium_cc.PpExpression.Values.{
  ReadsUnary, ReadsBinary, ReadsConditional, binary-unary, conditional-binary, unary-constant,
  unary-prefixed, unary-grouped, binary-joined,
}
use tensorium_cc.PpExpression.Choice.{conditional-chosen}

is-codes : (text : Bytes) (word : String) → text ≡ codes word → is text word ≡ true
is-codes text word h = (same_bytes_iff text (codes word)).1 h

parenthesis_plain : is_unary (codes "(") ≡ false
unfolding is_unary same_bytes
parenthesis_plain = refl

module _ (set : Setting) (dg : DiagnosticEngine) (clean : has_errors dg ≡ false) where
  -- What the three functions do with an expression.
  record Reads (l : ℕ) (e : Bool) (d : ℕ) (ts : List PpToken) (v : Value) : Type 0 where
    by_unary : l ≡ 11 → ReadsUnary set dg clean e d ts v
    by_binary : 1 ≤ l → ReadsBinary set dg clean l e d ts v
    by_conditional : ReadsConditional set dg clean e d ts v

  Reads-unary :
      (e : Bool) (d : ℕ) (ts : List PpToken) (v : Value)
      → ReadsUnary set dg clean e d ts v
      → Reads 11 e d ts v
  Reads-unary e d ts v read =
      let by_b = binary-unary set dg clean e d ts v read in
      record {
        by_unary = λ h. read;
        by_binary = λ h. by_b;
        by_conditional = conditional-binary set dg clean e 11 d ts v (omega arith) by_b;
      }

  Denotes-Reads :
      {l d : ℕ} {e : Bool} {ts : List PpToken} {v : Value} → Denotes l e d ts v → Reads l e d ts v
  Denotes-Reads (constant {e} {v} t h) =
      let (no_operator, no_parenthesis) = IsConstant-Plain t v h in
      Reads-unary e 1 (t ∷ []) v (
        unary-constant set dg clean e v t no_operator no_parenthesis
          (λ s. primary-IsConstant set t v s h))
  Denotes-Reads (prefixed {e} {d} {ts} {v} o op same inner) =
      let unary_op = ap is_unary same ∙ is_unary-unary_spelling o in
      let value = ap (λ text. after_unary text e v) same ∙ after_unary-unary_value o e v in
      Reads-unary _ _ _ _ (
        subst (ReadsUnary set dg clean e (suc d) (op ∷ ts)) value
          (unary-prefixed set dg clean e d ts v op unary_op ((Denotes-Reads inner).by_unary refl)))
  Denotes-Reads (grouped {e} {l} {d} {ts} {v} open_token close_token ho hc inner) =
      Reads-unary _ _ _ _ (
        unary-grouped set dg clean e d ts v open_token close_token
          (ap is_unary ho ∙ parenthesis_plain) (is-codes open_token.text "(" ho)
          (is-codes close_token.text ")" hc) (Denotes-Reads inner).by_conditional)
  Denotes-Reads
        (joined {e} {la} {lb} {da} {db} {xs} {ys} {va} {vb} {v} o op same hla hlb left right
          yields) =
      let right_read =
        subst (λ (active : Bool). ReadsBinary set dg clean lb active db ys vb)
          (sym (ap (λ text. is_active e text va) same ∙ is_active-goes_right e o va))
          ((Denotes-Reads right).by_binary (omega (arith, level-range o))) in
      let applied = λ (s : State).
        ap (λ text. apply set.loc text va vb e op.loc s) same
        ∙ apply-Yields set.loc op.loc o va vb e v s yields in
      let by_b =
        binary-joined set dg clean e la lb da db (level o) xs ys va vb v op
          (ap precedence same ∙ precedence-spelling o) hla hlb applied
          ((Denotes-Reads left).by_binary (omega (arith, level-range o))) right_read in
      record {
        by_unary = λ h. absurd (omega (arith, level-range o));
        by_binary = λ h. by_b;
        by_conditional =
            conditional-binary set dg clean e (level o) (max da db) _ v (level-range o).0 by_b;
      }
  Denotes-Reads
        (chosen {e} {lc} {lt} {le} {dc} {dt} {de} {cs} {ts} {es} {vc} {vt} {ve} question colon hq hc
          hl condition then_branch else_branch) =
      record {
        by_unary = λ h. absurd (omega arith);
        by_binary = λ h. absurd (omega arith);
        by_conditional =
            conditional-chosen set dg clean e lc dc dt de cs ts es vc vt ve question colon
              (is-codes question.text "?" hq) (is-codes colon.text ":" hc) hl
              ((Denotes-Reads condition).by_binary hl) (Denotes-Reads then_branch).by_conditional
              (Denotes-Reads else_branch).by_conditional;
      }

  conditional-Denotes :
      (l d : ℕ) (ts : List PpToken) (v : Value)
      → Denotes l true d ts v
      → d < 256
      → conditional set (enough ts) 0 true (state ts dg) ≡ some (v, state [] dg)
  conditional-Denotes l d ts v h hd =
      let nil = append-nil ts in
      let all =
        (Denotes-Reads h).by_conditional (enough ts) 0 []
          (record { no_operator = refl; no_question = refl }) (omega (arith, ap length nil))
          (omega arith) in
      ap (λ us. conditional set (enough ts) 0 true (state us dg)) (sym nil) ∙ all

-- The directive's expression evaluates to the value that the C grammar gives it. Condition: the
-- tokens are an expression of the grammar with the value `v`: constants are names, which are 0,
-- integers with their suffixes, or characters; the operators have their levels and group from the
-- left, and each has its meaning on signed and unsigned integers of 64 bits, where one that is
-- evaluated is defined; operands behind `&&`, `||` and `?:` are evaluated only where they count; it
-- needs less than 256 levels of nesting, and the engine has no errors. Then the answer is whether `v`
-- is not 0, the second flag says that there is no error, and nothing is reported.
pub evaluate_pp_expression-Denotes :
    (set : Setting) (dg : DiagnosticEngine) (l d : ℕ) (tokens : List PpToken) (v : Value)
    → has_errors dg ≡ false
    → Denotes l true d tokens v
    → d < 256
    → evaluate_pp_expression set tokens dg ≡ some (not (v.bits == 0), true, dg)
unfolding evaluate_pp_expression
evaluate_pp_expression-Denotes set dg l d tokens v clean h hd =
    rw (conditional-Denotes set dg clean l d tokens v h hd, clean) refl
