-- ===== src/Tests/DirectiveTheorems.antt =====
-- The theorems on lib/Lex/PPExpression.cpp at concrete directives.
use tensorium_cc.Prelude.{ℕ, ◌≡◌, refl, Bool, true, false, [], ◌∷◌, some, inl, codes, arith}
use tensorium_cc.Diagnostic.{
  DiagnosticEngine, new_engine, add_source, line_starts_from, put_source, has_errors,
}
use tensorium_cc.Numeral.{string_to, scan_digits, digit_value, in_range, has_hex_prefix}
use tensorium_cc.PpExpression.State.{Value}
use tensorium_cc.PpExpression.Parse.{evaluate_pp_expression}
use tensorium_cc.Preprocessor.{PpToken, PpTokenKind}
use tensorium_cc.PpExpression.Meaning.{
  times, plus, meaning, evaluates, no_letters, lower_case, no_suffix, suffix_u, integer_constant,
  character_constant,
}
use tensorium_cc.PpExpression.Grammar.{Denotes, constant, joined}
use tensorium_cc.PpExpression.Total.{evaluate_pp_expression_total}
use tensorium_cc.PpExpression.Correct.{evaluate_pp_expression-Denotes}
use tensorium_cc.Tests.Directives.{setting, num, op}

abbrev word : ℕ → Value
word n = record { bits = n; unsigned_value = false }

abbrev quoted : PpToken
quoted = record (num "'a'") { kind = PpTokenKind.character }

abbrev engine : DiagnosticEngine
engine = new_engine false "a.c" []

-- Two integer constants and a character constant.
one : {e : Bool} → Denotes 11 e 1 (num "1" ∷ []) (word 1)
unfolding string_to scan_digits digit_value in_range has_hex_prefix
one = constant (num "1") (
    integer_constant b'1' [] 1 1 refl refl (omega arith) (omega arith) refl no_letters no_suffix
      (inl (omega arith)))

two : {e : Bool} → Denotes 11 e 1 (num "2u" ∷ []) (record { bits = 2; unsigned_value = true })
unfolding string_to scan_digits digit_value in_range has_hex_prefix
two = constant (num "2u") (
    integer_constant b'2' (codes "u") 2 1 refl refl (omega arith) (omega arith) refl
      (lower_case (omega arith) no_letters) suffix_u (inl (omega arith)))

letter : {e : Bool} → Denotes 11 e 1 (quoted ∷ []) (word 97)
letter = constant quoted (character_constant b'a' refl (omega arith) refl)

product :
    Denotes 10 true 1
      (num "2u" ∷ op "*" ∷ quoted ∷ [])
      (record { bits = 194; unsigned_value = true })
unfolding meaning
product =
    joined {la = 11} {lb = 11} times (op "*") refl (omega arith) (omega arith) two letter
      (evaluates refl)

sum_of_product :
    Denotes 9 true 1
      (num "1" ∷ op "+" ∷ num "2u" ∷ op "*" ∷ quoted ∷ [])
      (record { bits = 195; unsigned_value = true })
unfolding meaning
sum_of_product =
    joined {la = 11} {lb = 10} plus (op "+") refl (omega arith) (omega arith) one product
      (evaluates refl)

evaluate_pp_expression-Denotes_example :
    evaluate_pp_expression setting (num "1" ∷ op "+" ∷ num "2u" ∷ op "*" ∷ quoted ∷ []) engine
    ≡ some (true, true, engine)
unfolding has_errors new_engine add_source line_starts_from put_source
evaluate_pp_expression-Denotes_example =
    evaluate_pp_expression-Denotes setting engine 9 1
      (num "1" ∷ op "+" ∷ num "2u" ∷ op "*" ∷ quoted ∷ [])
      (record { bits = 195; unsigned_value = true }) refl sum_of_product (omega arith)

evaluate_pp_expression_total_example :
    (r : Bool × Bool × DiagnosticEngine) × (evaluate_pp_expression setting
        (op "(" ∷ num "1" ∷ op "?" ∷ num "2" ∷ [])
        engine
      ≡ some r)
evaluate_pp_expression_total_example =
    evaluate_pp_expression_total setting (op "(" ∷ num "1" ∷ op "?" ∷ num "2" ∷ []) engine
