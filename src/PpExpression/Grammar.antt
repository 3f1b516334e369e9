-- ===== src/PpExpression/Grammar.antt =====
-- lib/Lex/PPExpression.cpp evaluates the expressions of the C grammar: its levels of precedence, its
-- grouping from the left, and operands that are not evaluated.
use Prim.Native.Nat.{max}
use tensorium_cc.Prelude.{
  ℕ, suc, ◌≤◌, ◌<◌, ◌≡◌, refl, Bool, true, false, not, ◌&&◌, ◌||◌, List, [], ◌∷◌, ◌++◌, ◌==◌,
  if◌then◌else◌, Bytes, codes, same_bytes, same_bytes_iff,
}
use tensorium_cc.Diagnostic.{DiagnosticEngine}
use tensorium_cc.Preprocessor.{PpToken}
use tensorium_cc.PpExpression.State.{State, Value, next_is}
use tensorium_cc.PpExpression.Operators.{is, precedence}
use tensorium_cc.PpExpression.Meaning.{
  BinaryOperator, spelling, level, goes_right, Yields, UnaryOperator, unary_spelling, unary_value,
  IsConstant,
}

-- Whether `binary` evaluates the right operand of `op`.
abbrev pub is_active : Bool → Bytes → Value → Bool
is_active evaluate op left =
    evaluate && not (is op "&&" && left.bits == 0) && not (is op "||" && not (left.bits == 0))

-- The tokens are an expression of the grammar with this value. The level is 11 for a unary
-- expression, the level of the last operator for a binary one, and 0 for a conditional one; the flag
-- is whether it is evaluated; the number is the depth that it needs.
pub data Denotes : ℕ → Bool → ℕ → List PpToken → Value → Type 0 where
  constant : {e : Bool} {v : Value} (t : PpToken) → IsConstant t v → Denotes 11 e 1 (t ∷ []) v
  prefixed :
      {e : Bool} {d : ℕ} {ts : List PpToken} {v : Value} (o : UnaryOperator) (op : PpToken)
      → op.text ≡ codes (unary_spelling o)
      → Denotes 11 e d ts v
      → Denotes 11 e (suc d) (op ∷ ts) (unary_value o e v)
  grouped :
      {e : Bool} {l d : ℕ} {ts : List PpToken} {v : Value} (open_token close_token : PpToken)
      → open_token.text ≡ codes "("
      → close_token.text ≡ codes ")"
      → Denotes l e d ts v
      → Denotes 11 e (suc (suc d)) (open_token ∷ (ts ++ (close_token ∷ []))) v
  joined :
      {e : Bool} {la lb da db : ℕ} {xs ys : List PpToken} {va vb v : Value} (o : BinaryOperator)
      (op : PpToken)
      → op.text ≡ codes (spelling o)
      → level o ≤ la
      → level o < lb
      → Denotes la e da xs va
      → Denotes lb (goes_right e o va) db ys vb
      → Yields o va vb e v
      → Denotes (level o) e (max da db) (xs ++ (op ∷ ys)) v
  chosen :
      {e : Bool} {lc lt le dc dt de : ℕ} {cs ts es : List PpToken} {vc vt ve : Value}
      (question colon : PpToken)
      → question.text ≡ codes "?"
      → colon.text ≡ codes ":"
      → 1 ≤ lc
      → Denotes lc e dc cs vc
      → Denotes lt (e && not (vc.bits == 0)) dt ts vt
      → Denotes le (e && vc.bits == 0) de es ve
      → Denotes 0 e (max dc (suc (max dt de))) (cs ++ (question ∷ (ts ++ (colon ∷ es)))) (record {
        bits = if vc.bits == 0 then ve.bits else vt.bits;
        unsigned_value = vt.unsigned_value || ve.unsigned_value;
      })

-- The precedence of what stands next, 0 at the end.
abbrev pub next_precedence : List PpToken → ℕ
next_precedence [] = 0
next_precedence (t ∷ ts) = precedence t.text

-- Nothing that follows can go on with an expression.
pub record Closes (rest : List PpToken) : Type 0 where
  pub no_operator : next_precedence rest ≡ 0
  pub no_question : next_is (codes "?") rest ≡ false

abbrev pub state : List PpToken → DiagnosticEngine → State
state ts dg = record { rest = ts; diagnostics = dg }

pub precedence-closing : (t : PpToken) → is t.text ")" ≡ true → precedence t.text ≡ 0
precedence-closing t h =
    rw ((same_bytes_iff t.text (codes ")")).0 h) (unfold precedence same_bytes in refl)

pub precedence-colon : (t : PpToken) → is t.text ":" ≡ true → precedence t.text ≡ 0
precedence-colon t h =
    rw ((same_bytes_iff t.text (codes ":")).0 h) (unfold precedence same_bytes in refl)

pub precedence-question : (t : PpToken) → is t.text "?" ≡ true → precedence t.text ≡ 0
precedence-question t h =
    rw ((same_bytes_iff t.text (codes "?")).0 h) (unfold precedence same_bytes in refl)

pub Closes-closing : (t : PpToken) (rest : List PpToken) → is t.text ")" ≡ true → Closes (t ∷ rest)
Closes-closing t rest h = record {
  no_operator = precedence-closing t h;
  no_question = rw ((same_bytes_iff t.text (codes ")")).0 h) (unfold same_bytes in refl);
}

pub Closes-colon : (t : PpToken) (rest : List PpToken) → is t.text ":" ≡ true → Closes (t ∷ rest)
Closes-colon t rest h = record {
  no_operator = precedence-colon t h;
  no_question = rw ((same_bytes_iff t.text (codes ":")).0 h) (unfold same_bytes in refl);
}
