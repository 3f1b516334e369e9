-- ===== src/PpExpression/Parse.antt =====
-- `unary`, `binary`, `conditional` and `evaluate` of lib/Lex/PPExpression.cpp. The depth is an
-- argument: `Depth` counts it up in a call and down behind it. `none` means that the fuel ran out.
use tensorium_cc.Prelude.{
  ℕ, zero, suc, ◌+◌, ◌-◌, ◌*◌, ◌%◌, ◌^◌, Bool, true, false, not, ◌&&◌, ◌||◌, Option, none, some,
  List, [], ◌∷◌, ltb, ◌==◌, if◌then◌else◌, length, Bytes, String, codes,
}
use tensorium_cc.Location.{SourceLoc}
use tensorium_cc.Diagnostic.{DiagnosticEngine, has_errors}
use tensorium_cc.Numeral.{Conversion}
use tensorium_cc.Token.{Payload, int_val, float_val, char_val}
use tensorium_cc.Lexer.Next.{new_lexer, next}
use tensorium_cc.Preprocessor.{PpToken, PpTokenKind}
use tensorium_cc.PpExpression.State.{
  State, Value, no_value, fail, next_is, tail, skip_token, match_text,
}
use tensorium_cc.PpExpression.Operators.{is, precedence, apply}
use tensorium_cc.PpExpression.Numbers.{number}

-- `_loc`, `_options.allowLineComments` and the library's `std::stod`, which stay fixed.
pub record Setting : Type 0 where
  pub loc : SourceLoc
  pub allow_line_comments : Bool
  pub stod : Bytes → Conversion

abbrev pub Answer : Type 0
Answer = Option (Value × State)

infixl 5 ◌>>=◌
abbrev pub ◌>>=◌ : {A B : Type 0} → Option A → (A → Option B) → Option B
none >>= f = none
some a >>= f = f a

-- The byte that the union's `char_val` shows.
abbrev pub char_byte : Payload → ℕ
char_byte (int_val n) = n % 256
char_byte (float_val n) = n % 256
char_byte (char_val c) = c % 256

-- A character constant is lexed by a `Lexer` of its own, which reports to the same engine.
unfoldable pub character : Setting → PpToken → State → Value × State
character set token s =
    let (t, lx) = next set.stod (
      new_lexer token.text
        (record {
          filename = token.loc.filename;
          allow_line_comments = set.allow_line_comments;
          source_locations = token.spelling_locations;
        })
        s.diagnostics token.loc) in
    (
      record { bits = char_byte t.payload; unsigned_value = false },
      record { rest = tail s.rest; diagnostics = lx.diagnostics },
    )

unfoldable pub is_unary : Bytes → Bool
is_unary op = is op "+" || is op "-" || is op "!" || is op "~"

-- What `unary` makes of its operand's value.
unfoldable pub after_unary : Bytes → Bool → Value → Value
after_unary op evaluate value =
    if is op "!"
    then record { bits = if evaluate && value.bits == 0 then 1 else 0; unsigned_value = false }
    else if not evaluate
    then record { bits = 0; unsigned_value = value.unsigned_value }
    else if is op "-"
    then record value { bits = (2 ^ 64 - value.bits) % 2 ^ 64 }
    else if is op "~"
    then record value { bits = 2 ^ 64 - 1 - value.bits }
    else value

-- `if (!match(text)) error(message);`
unfoldable pub expect : Setting → String → String → State → State
expect set text message s =
    let (found, t) = match_text text s in if found then t else fail set.loc message s

-- The branches of `unary` by the token's kind.
unfoldable pub primary : Setting → PpTokenKind → PpToken → State → Answer
primary set PpTokenKind.number token s =
    let (value, t) = number set.loc token s in some (value, skip_token t)
primary set PpTokenKind.identifier token s = some (no_value, skip_token s)
primary set PpTokenKind.character token s = some (character set token s)
primary set _ token s =
    some (no_value, skip_token (fail set.loc "expected integer expression after #if" s))

-- The body of `unary` where there is a token, by its calls of `unary` and `conditional`.
unfoldable pub unary_at :
    Setting → (Bool → State → Answer) → (Bool → State → Answer) → Bool → PpToken → State → Answer
unary_at set recurse nested evaluate token s =
    if is_unary token.text
    then (do
      (value, t) ← recurse evaluate (skip_token s)
      some (after_unary token.text evaluate value, t))
    else if is token.text "("
    then (do
      (value, t) ← nested evaluate (skip_token s)
      some (value, expect set ")" "expected ')' in #if expression" t))
    else primary set token.kind token s

unfoldable pub unary_next :
    Setting
    → (Bool → State → Answer)
    → (Bool → State → Answer)
    → Bool
    → List PpToken
    → State
    → Answer
unary_next set recurse nested evaluate [] s =
    some (no_value, fail set.loc "expected integer expression after #if" s)
unary_next set recurse nested evaluate (token ∷ rest) s =
    unary_at set recurse nested evaluate token s

-- The loop of `binary`, one round, by its call of `binary` and the rest of the loop.
unfoldable pub round :
    Setting
    → (ℕ → Bool → State → Answer)
    → (Value → State → Answer)
    → ℕ
    → Bool
    → Value
    → List PpToken
    → State
    → Answer
round set operand again minimum evaluate left [] s = some (left, s)
round set operand again minimum evaluate left (op ∷ rest) s =
    if has_errors s.diagnostics || ltb (precedence op.text) minimum then some (left, s) else do
      let active =
          evaluate
          && not (is op.text "&&" && left.bits == 0)
          && not (is op.text "||" && not (left.bits == 0))
      (right, t) ← operand (precedence op.text + 1) active (skip_token s)
      let (value, u) = apply set.loc op.text left right evaluate op.loc t
      again value u

-- The body of `conditional` behind its condition, by its calls of itself.
unfoldable pub branches : Setting → (Bool → State → Answer) → Bool → Value → State → Answer
branches set recurse evaluate value s =
    if not (has_errors s.diagnostics) && next_is (codes "?") s.rest
    then (do
      (then_value, t) ← recurse (evaluate && not (value.bits == 0)) (skip_token s)
      (otherwise, u) ←
          recurse (evaluate && value.bits == 0) (expect set ":" "expected ':' in #if expression" t)
      some (
        record {
          bits = if value.bits == 0 then otherwise.bits else then_value.bits;
          unsigned_value = then_value.unsigned_value || otherwise.unsigned_value;
        },
        u,
      ))
    else some (value, s)

unfoldable mutual
  pub unary : Setting → ℕ → ℕ → Bool → State → Answer
  unary set zero depth evaluate s = none
  unary set (suc fuel) depth evaluate s =
      if ltb 255 depth
      then some (no_value, fail set.loc "#if expression nesting limit exceeded" s)
      else unary_next set (unary set fuel (depth + 1)) (conditional set fuel (depth + 1)) evaluate
          s.rest s

  pub binary : Setting → ℕ → ℕ → ℕ → Bool → State → Answer
  binary set zero minimum depth evaluate s = none
  binary set (suc fuel) minimum depth evaluate s = do
    (left, t) ← unary set fuel depth evaluate s
    binary_loop set fuel minimum depth evaluate left t

  pub binary_loop : Setting → ℕ → ℕ → ℕ → Bool → Value → State → Answer
  binary_loop set zero minimum depth evaluate left s = none
  binary_loop set (suc fuel) minimum depth evaluate left s =
      round set (λ prec active t. binary set fuel prec depth active t)
        (binary_loop set fuel minimum depth evaluate) minimum evaluate left s.rest s

  pub conditional : Setting → ℕ → ℕ → Bool → State → Answer
  conditional set zero depth evaluate s = none
  conditional set (suc fuel) depth evaluate s =
      if ltb 255 depth
      then some (no_value, fail set.loc "#if expression nesting limit exceeded" s)
      else do
        (value, t) ← binary set fuel 1 (depth + 1) evaluate s
        branches set (conditional set fuel (depth + 1)) evaluate value t

-- More fuel than the calls of any run over as many tokens.
abbrev pub enough : List PpToken → ℕ
enough rest = 4 * length rest + 3

abbrev pub no_more : List PpToken → Bool
no_more [] = true
no_more (t ∷ ts) = false

-- The result and whether the engine has no errors.
unfoldable pub evaluate_pp_expression :
    Setting → List PpToken → DiagnosticEngine → Option (Bool × Bool × DiagnosticEngine)
evaluate_pp_expression set tokens diagnostics = do
  (value, s) ←
      conditional set (enough tokens) 0 true (record { rest = tokens; diagnostics = diagnostics })
  let t = if no_more s.rest then s else fail set.loc "unexpected token in #if expression" s
  some (not (value.bits == 0), not (has_errors t.diagnostics), t.diagnostics)
