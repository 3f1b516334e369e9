-- ===== src/PpExpression/State.antt =====
-- The state of an `Expression` of lib/Lex/PPExpression.cpp, its values, `error` and `match`.
use tensorium_cc.Prelude.{
  ℕ, Bool, true, false, none, some, List, [], ◌∷◌, if◌then◌else◌, Bytes, String, codes, same_bytes,
}
use tensorium_cc.Location.{SourceLoc}
use tensorium_cc.Diagnostic.{DiagnosticEngine, error, report, has_errors}
use tensorium_cc.Preprocessor.{PpToken}

-- `rest` is `_tokens` from `_pos` on.
pub record State : Type 0 where
  pub rest : List PpToken
  pub diagnostics : DiagnosticEngine

pub record Value : Type 0 where
  pub bits : ℕ
  pub unsigned_value : Bool

-- `{}`.
abbrev pub no_value : Value
no_value = record { bits = 0; unsigned_value = false }

abbrev pub bool_value : Bool → Value
bool_value true = record { bits = 1; unsigned_value = false }
bool_value false = record { bits = 0; unsigned_value = false }

abbrev pub here : SourceLoc → List PpToken → SourceLoc
here loc [] = loc
here loc (t ∷ ts) = t.loc

-- A location with no file name gives way to that of the next token, or of the directive.
abbrev pub place : SourceLoc → SourceLoc → List PpToken → SourceLoc
place at loc rest = elim at.filename [ none ↦ here loc rest | some f ↦ at ]

-- Only the first error is reported. `loc` is `_loc`.
unfoldable pub fail_at : SourceLoc → SourceLoc → String → State → State
fail_at loc at message s = if has_errors s.diagnostics then s else record s {
  diagnostics = report error (place at loc s.rest) (codes message) 1 s.diagnostics;
}

abbrev pub nowhere : SourceLoc
nowhere = record { filename = none; line = 0; col = 0 }

-- `error(message)`.
unfoldable pub fail : SourceLoc → String → State → State
fail loc message s = fail_at loc nowhere message s

abbrev pub next_is : Bytes → List PpToken → Bool
next_is text [] = false
next_is text (t ∷ ts) = same_bytes t.text text

abbrev pub tail : List PpToken → List PpToken
tail [] = []
tail (t ∷ ts) = ts

-- `++_pos;`
abbrev pub skip_token : State → State
skip_token s = record s { rest = tail s.rest }

-- `match(text)`.
unfoldable pub match_text : String → State → Bool × State
match_text text s = if next_is (codes text) s.rest then (true, skip_token s) else (false, s)
