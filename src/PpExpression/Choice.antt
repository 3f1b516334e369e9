-- ===== src/PpExpression/Choice.antt =====
-- lib/Lex/PPExpression.cpp computes the value of a conditional expression.
use Prim.Native.Nat.{max}
use mathlib.Core.List.{append_assoc}
use tensorium_cc.Prelude.{
  ℕ, zero, suc, ◌+◌, ◌≤◌, ◌≡◌, ap, Bool, true, false, not, ◌&&◌, ◌||◌, some, List, ◌∷◌, ◌++◌, ◌==◌,
  if◌then◌else◌, length, length-append, arith,
}
use tensorium_cc.Diagnostic.{DiagnosticEngine, has_errors}
use tensorium_cc.Preprocessor.{PpToken}
use tensorium_cc.PpExpression.State.{State, Value, match_text}
use tensorium_cc.PpExpression.Operators.{is}
use tensorium_cc.PpExpression.Parse.{Setting, Answer, expect, branches, conditional}
use tensorium_cc.PpExpression.Grammar.{state, Closes-colon, precedence-question}
use tensorium_cc.PpExpression.Values.{ReadsBinary, ReadsConditional, binary_loop-stops, ltb-depth}

module _ (set : Setting) (dg : DiagnosticEngine) (clean : has_errors dg ≡ false) where
  branches-chosen :
      (call : Bool → State → Answer) (e : Bool) (vc vt ve : Value) (question colon : PpToken)
      (ts es rest : List PpToken)
      → is question.text "?" ≡ true
      → is colon.text ":" ≡ true
      → call (e && not (vc.bits == 0)) (state ts dg) ≡ some (vt, state (colon ∷ es) dg)
      → call (e && vc.bits == 0) (state es dg) ≡ some (ve, state rest dg)
      → branches set call e vc (state (question ∷ ts) dg)
        ≡ some (
          record {
            bits = if vc.bits == 0 then ve.bits else vt.bits;
            unsigned_value = vt.unsigned_value || ve.unsigned_value;
          },
          state rest dg,
        )
  unfolding branches expect match_text
  branches-chosen call e vc vt ve question colon ts es rest hq hc ht he = rw (clean, hq, ht, hc, he)

  pub conditional-chosen :
      (e : Bool) (lc dc dt de : ℕ) (cs ts es : List PpToken) (vc vt ve : Value)
      (question colon : PpToken)
      → is question.text "?" ≡ true
      → is colon.text ":" ≡ true
      → 1 ≤ lc
      → ReadsBinary set dg clean lc e dc cs vc
      → ReadsConditional set dg clean (e && not (vc.bits == 0)) dt ts vt
      → ReadsConditional set dg clean (e && vc.bits == 0) de es ve
      → ReadsConditional set dg clean e
          (max dc (suc (max dt de)))
          (cs ++ (question ∷ (ts ++ (colon ∷ es))))
          (record {
            bits = if vc.bits == 0 then ve.bits else vt.bits;
            unsigned_value = vt.unsigned_value || ve.unsigned_value;
          })
  unfolding conditional
  conditional-chosen e lc dc dt de cs ts es vc vt ve question colon hq hc hl read_c read_t read_e
        zero depth rest closes hf hd =
      elim hf [ ]
  conditional-chosen e lc dc dt de cs ts es vc vt ve question colon hq hc hl read_c read_t read_e
        (suc fuel) depth rest closes hf hd =
      let assoc = append_assoc cs (question ∷ (ts ++ (colon ∷ es))) rest in
      let assoc' = append_assoc ts (colon ∷ es) rest in
      let same = ap length assoc in
      let same' = ap length assoc' in
      let len_c = length-append cs (question ∷ (ts ++ (colon ∷ (es ++ rest)))) in
      let len_t = length-append ts (colon ∷ (es ++ rest)) in
      let len_c' = length-append cs (question ∷ ((ts ++ (colon ∷ es)) ++ rest)) in
      let none_q = precedence-question question hq in
      let (left, (hleft, eq)) =
        read_c fuel 1 (depth + 1) (question ∷ (ts ++ (colon ∷ (es ++ rest)))) hl (omega arith)
          (omega arith) (omega arith) in
      let stop =
        binary_loop-stops set dg clean left 1 (depth + 1) e vc
          (question ∷ (ts ++ (colon ∷ (es ++ rest)))) (omega arith) in
      let eq_t =
        read_t fuel (depth + 1) (colon ∷ (es ++ rest)) (Closes-colon colon (es ++ rest) hc)
          (omega arith) (omega arith) in
      let eq_e = read_e fuel (depth + 1) rest closes (omega arith) (omega arith) in
      rw
        (
          ltb-depth set dg clean depth (max dc (suc (max dt de))) (omega arith),
          assoc,
          assoc',
          eq,
          stop,
        )
        (branches-chosen (conditional set fuel (depth + 1)) e vc vt ve question colon _ (es ++ rest)
          rest hq hc eq_t eq_e)
