-- ===== src/Preprocessor/Condition.antt =====
-- `condition` of lib/Lex/Preprocessor.cpp.
pub mod Returns
use tensorium_cc.Prelude.{
  ℕ, zero, suc, Bool, true, false, not, ◌&&◌, ◌||◌, Option, none, some, List, [], ◌∷◌,
  if◌then◌else◌, Bytes, String, codes,
}
use tensorium_cc.Location.{SourceLoc}
use tensorium_cc.Diagnostic.{DiagnosticEngine}
use tensorium_cc.LangOptions.{LangOptions}
use tensorium_cc.PpExpression.Parse.{evaluate_pp_expression}
use tensorium_cc.Preprocessor.{PpToken, PpTokenKind}
use tensorium_cc.Preprocessor.State.{
  State, Setting, Outcome, ok, failed, out_of_range, out_of_fuel, ◌>>=◌, engine, with_engine, fail,
  is_defined,
}
use tensorium_cc.Preprocessor.Define.{is, is_identifier, first_is}
use tensorium_cc.Preprocessor.Tokenize.{plain_token}
use tensorium_cc.Preprocessor.Expand.{expand}

-- The operand of `defined`: its name and the number of tokens it takes.
pub data Operand : Type 0 where
  operand : Bytes → ℕ → Operand
  refused : String → Operand

abbrev bare : List PpToken → Operand
bare [] = refused "expected macro name after defined"
bare (t ∷ ts) =
    if is_identifier t then operand t.text 1 else refused "expected macro name after defined"

-- Behind the opening parenthesis.
abbrev enclosed : List PpToken → Operand
enclosed [] = refused "expected macro name after defined"
enclosed (t ∷ ts) =
    if not (is_identifier t)
    then refused "expected macro name after defined"
    else if first_is ts ")"
    then operand t.text 3
    else refused "expected ')' after defined"

unfoldable pub operand_of : List PpToken → Operand
operand_of [] = bare []
operand_of (t ∷ ts) = if is t "(" then enclosed ts else bare (t ∷ ts)

pub data Defined : Type 0 where
  defined : List PpToken → Defined
  wrong : SourceLoc → String → Defined

abbrev pub add_token : PpToken → Defined → Defined
add_token t (defined ts) = defined (t ∷ ts)
add_token t (wrong at message) = wrong at message

-- The loop, where the number is how far `i` is ahead.
unfoldable pub replace_defined : (Bytes → Bool) → ℕ → List PpToken → Defined
replace_defined exists ahead [] = defined []
replace_defined exists (suc ahead) (t ∷ rest) = replace_defined exists ahead rest
replace_defined exists zero (t ∷ rest) = elim (is_identifier t && is t "defined") [
  | false ↦ add_token t (replace_defined exists 0 rest)
  | true ↦ elim (operand_of rest) [
    | refused message ↦ wrong t.loc message
    | operand name width ↦
        add_token (plain_token PpTokenKind.number (codes (if exists name then "1" else "0")) t.loc)
          (replace_defined exists width rest)
  ]
]

unfoldable pub evaluated : Option (Bool × Bool × DiagnosticEngine) → State → Outcome Bool
evaluated none p = out_of_fuel
evaluated (some (result, true, d)) p = ok result (with_engine d p)
evaluated (some (result, false, d)) p = failed (with_engine d p)

unfoldable pub condition_of : Setting → SourceLoc → Defined → State → Outcome Bool
condition_of set loc (wrong at message) p = fail at (codes message) p
condition_of set loc (defined prepared) p = expand set prepared p >>= λ expanded q.
    evaluated
      (evaluate_pp_expression
        (record {
          loc = loc;
          allow_line_comments = set.options.allow_line_comments;
          stod = set.system.stod;
        })
        expanded (engine q))
      q

unfoldable pub condition : Setting → List PpToken → SourceLoc → State → Outcome Bool
condition set input loc p =
    condition_of set loc (replace_defined (is_defined set.options p) 0 input) p
