-- ===== src/Tests/Directives.antt =====
-- Runs of lib/Lex/PPExpression.cpp.
use mathlib.Core.Option
use tensorium_cc.Prelude.{
  ◌≡◌, refl, Bool, true, false, List, [], ◌∷◌, Option, some, String, codes, same_bytes,
}
use tensorium_cc.Location.{unset}
use tensorium_cc.Diagnostic.{
  DiagnosticEngine, new_engine, add_source, line_starts_from, put_source, report, has_errors,
}
use tensorium_cc.Numeral.{string_to, scan_digits, digit_value, in_range, has_hex_prefix}
use tensorium_cc.Preprocessor.{PpToken, PpTokenKind}
use tensorium_cc.PpExpression.State.{fail_at, fail, match_text}
use tensorium_cc.PpExpression.Operators.{
  precedence, is_relational, is_logical, is_shift, is_unsigned, relate, shift, divide, apply_now,
  apply,
}
use tensorium_cc.PpExpression.Numbers.{lower, is_suffix, has_u, suffixed, number}
use tensorium_cc.PpExpression.Parse.{
  Setting, is_unary, after_unary, expect, primary, unary_at, unary_next, round, branches, unary,
  evaluate_pp_expression,
}
use tensorium_cc.Tests.Lexing.{whole_stod}

abbrev pub setting : Setting
setting = record { loc = unset; allow_line_comments = true; stod = whole_stod }

abbrev pub num : String → PpToken
num text = record {
  kind = PpTokenKind.number;
  text = codes text;
  loc = unset;
  leading_space = false;
  spelling_locations = [];
  hide_set = [];
  original_spelling = [];
  expansion_loc = unset;
}

abbrev pub op : String → PpToken
op text = record (num text) { kind = PpTokenKind.punct }

run : List PpToken → Option (Bool × Bool)
unfolding same_bytes string_to scan_digits digit_value in_range has_hex_prefix new_engine add_source
    line_starts_from put_source report has_errors fail_at fail match_text precedence is_relational
    is_logical is_shift is_unsigned relate shift divide apply_now apply lower is_suffix has_u
    suffixed number is_unary after_unary expect primary unary_at unary_next round branches unary
    evaluate_pp_expression
run tokens =
    Option.map (λ (r : Bool × Bool × DiagnosticEngine). (r.0, r.1))
      (evaluate_pp_expression setting tokens (new_engine false "a.c" []))

precedence_holds :
    run (num "1" ∷ op "+" ∷ num "2" ∷ op "*" ∷ num "3" ∷ op "==" ∷ num "7" ∷ []) ≡ some (true, true)
unfolding run
precedence_holds = refl

left_associative : run (num "7" ∷ op "-" ∷ num "4" ∷ op "-" ∷ num "3" ∷ []) ≡ some (false, true)
unfolding run
left_associative = refl

unsigned_wins : run (op "-" ∷ num "1" ∷ op "<" ∷ num "0u" ∷ []) ≡ some (false, true)
unfolding run
unsigned_wins = refl

signed_order : run (op "-" ∷ num "1" ∷ op "<" ∷ num "0" ∷ []) ≡ some (true, true)
unfolding run
signed_order = refl

division_by_zero_is_skipped :
    run (num "0" ∷ op "&&" ∷ num "1" ∷ op "/" ∷ num "0" ∷ []) ≡ some (false, true)
unfolding run
division_by_zero_is_skipped = refl

division_by_zero : run (num "1" ∷ op "/" ∷ num "0" ∷ []) ≡ some (false, false)
unfolding run
division_by_zero = refl
