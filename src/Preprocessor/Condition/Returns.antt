-- ===== src/Preprocessor/Condition/Returns.antt =====
-- `condition` of lib/Lex/Preprocessor.cpp returns.
use mathlib.Core.Path.{subst}
use tensorium_cc.Prelude.{
  ◌≡◌, refl, sym, Bool, true, false, not, Option, none, some, List, ap, not-false, ◌==◌,
  if◌then◌else◌, codes, arith,
}
use tensorium_cc.Location.{SourceLoc}
use tensorium_cc.Diagnostic.{DiagnosticEngine, has_errors, or_else}
use tensorium_cc.PpExpression.State.{Value, State as PpState, fail}
use tensorium_cc.PpExpression.Parse.{
  ◌>>=◌ as bind, no_more, Setting as PpSetting, conditional, enough, evaluate_pp_expression,
}
use tensorium_cc.PpExpression.Total.{evaluate_pp_expression_total}
use tensorium_cc.Preprocessor.{PpToken}
use tensorium_cc.Preprocessor.State.{State, Setting, engine, is_defined}
use tensorium_cc.Preprocessor.Ends.{Ends-bind, Ends-weaken, Returns}
use tensorium_cc.Preprocessor.Define.Valid.{ValidMacros, WellFormed, refusal-WellFormed}
use tensorium_cc.Preprocessor.Expand.{expand}
use tensorium_cc.Preprocessor.Expand.Ends.{Grown}
use tensorium_cc.Preprocessor.Expand.Returns.{expand-Keeps}
use tensorium_cc.Preprocessor.Condition.{
  Defined, defined, wrong, replace_defined, evaluated, condition_of, condition,
}

-- The expansion leaves the macros well formed.
pub Grown-WellFormed : (p q : State) → Grown p q → WellFormed p → WellFormed q
Grown-WellFormed p q g w = subst ValidMacros (sym g.0) w

pub expand-Returns :
    (set : Setting) (input : List PpToken) (p : State)
    → WellFormed p
    → Returns WellFormed (expand set input p)
expand-Returns set input p w =
    Ends-weaken (λ _ q. Grown p q) (λ _ q. WellFormed q)
      (λ q. Grown p q × has_errors (engine q) ≡ true)
      (λ q. WellFormed q × has_errors (engine q) ≡ true) (expand set input p)
      (expand-Keeps set input p w) (λ _ q g. Grown-WellFormed p q g w)
      (λ q (g, e). (Grown-WellFormed p q g w, e))

-- What the evaluator returns behind the expression.
abbrev finish : PpSetting → Value × PpState → Bool × Bool × DiagnosticEngine
finish set (value, s) =
    let t = if no_more s.rest then s else fail set.loc "unexpected token in #if expression" s in
    (not (value.bits == 0), not (has_errors t.diagnostics), t.diagnostics)

finish_success :
    (set : PpSetting) (o : Option (Value × PpState)) (r : Bool × Bool × DiagnosticEngine)
    → bind o (λ y. some (finish set y)) ≡ some r
    → r.1 ≡ not (has_errors r.2)
finish_success set none r h = absurd (ground (arith, h))
finish_success set (some y) r h =
    let same : finish set y ≡ r = ap (λ o. or_else o r) h in
    subst (λ (q : Bool × Bool × DiagnosticEngine). q.1 ≡ not (has_errors q.2)) same refl

-- The evaluator succeeds just if there is no error.
evaluate_success :
    (set : PpSetting) (tokens : List PpToken) (d : DiagnosticEngine)
    (r : Bool × Bool × DiagnosticEngine)
    → evaluate_pp_expression set tokens d ≡ some r
    → r.1 ≡ not (has_errors r.2)
unfolding evaluate_pp_expression
evaluate_success set tokens d r h =
    finish_success set
      (conditional set (enough tokens) 0 true (record { rest = tokens; diagnostics = d })) r h

evaluated-Returns :
    (r : Bool × Bool × DiagnosticEngine) (p : State)
    → r.1 ≡ not (has_errors r.2)
    → WellFormed p
    → Returns WellFormed (evaluated (some r) p)
unfolding evaluated
evaluated-Returns (result, true, d) p e w = w
evaluated-Returns (result, false, d) p e w = (w, not-false (has_errors d) (sym e))

condition_of-Returns :
    (set : Setting) (loc : SourceLoc) (prepared : Defined) (p : State)
    → WellFormed p
    → Returns WellFormed (condition_of set loc prepared p)
unfolding condition_of
condition_of-Returns set loc (wrong at message) p w = refusal-WellFormed at (codes message) p w
condition_of-Returns set loc (defined prepared) p w =
    Ends-bind (λ _ q. WellFormed q) (λ _ q. WellFormed q)
      (λ q. WellFormed q × has_errors (engine q) ≡ true) (expand set prepared p) _
      (expand-Returns set prepared p w)
      λ expanded q w'.
        let at : PpSetting = record {
          loc = loc;
          allow_line_comments = set.options.allow_line_comments;
          stod = set.system.stod;
        } in
        let (r, e) = evaluate_pp_expression_total at expanded (engine q) in
        rw e (evaluated-Returns r q (evaluate_success at expanded (engine q) r e) w')

pub condition-Returns :
    (set : Setting) (input : List PpToken) (loc : SourceLoc) (p : State)
    → WellFormed p
    → Returns WellFormed (condition set input loc p)
unfolding condition
condition-Returns set input loc p w =
    condition_of-Returns set loc (replace_defined (is_defined set.options p) 0 input) p w
