-- ===== src/Preprocessor/Expand/Returns.antt =====
-- `expand` of lib/Lex/Preprocessor.cpp returns on every input, within its limits and its vectors.
use tensorium_cc.Prelude.{
  ℕ, zero, suc, ◌+◌, ◌-◌, ◌≤◌, ◌≡◌, refl, sym, true, false, not, ◌&&◌, ◌||◌, Option, none, some,
  List, [], ◌∷◌, ltb, leb, if_ind, elim_ind, length, arith,
}
use mathlib.Core.Path.{subst}
use tensorium_cc.Diagnostic.{has_errors}
use tensorium_cc.Preprocessor.{PpToken}
use tensorium_cc.Preprocessor.State.{
  Macro, State, Setting, Outcome, ok, failed, out_of_range, out_of_fuel, ◌>>=◌, engine, member,
  is_predefined, fail,
}
use tensorium_cc.Preprocessor.Define.{is_identifier, first_is}
use tensorium_cc.Preprocessor.Define.Valid.{
  ValidMacro, ValidMacros, WellFormed, FoundValid, find_macro-FoundValid,
}
use tensorium_cc.Preprocessor.Predefined.{predefined}
use tensorium_cc.Preprocessor.Expand.{
  replace, Round, copied, builtin, invoked, round, round_of_macro, append_output, within_depth,
  too_deep, first_or, counted, limit, expand_from, expand,
}
use tensorium_cc.Preprocessor.Ends.{Ends}
use tensorium_cc.Preprocessor.Expand.Ends.{Grown, report_at-Broken, Grown-refl}
use tensorium_cc.Preprocessor.Expand.Replacing.{Keeps, Keeps-from, Keeps-bind, replace-Keeps}

append_output-Keeps :
    (t : PpToken) (p : State) (m : Outcome (List PpToken)) → Keeps p m → Keeps p (append_output t m)
append_output-Keeps t p (ok ts q) h = h
append_output-Keeps t p (failed q) h = h
append_output-Keeps t p out_of_range h = h
append_output-Keeps t p out_of_fuel h = h

abbrev GoodRound : Round → Type 0
GoodRound (invoked macro) = ValidMacro macro
GoodRound _ = Unit

round_of_macro-Good :
    (o : Option Macro) (rest : List PpToken) → FoundValid o → GoodRound (round_of_macro o rest)
unfolding round_of_macro
round_of_macro-Good none rest v = _
round_of_macro-Good (some macro) rest v =
    if_ind GoodRound (macro.function_like && not (first_is rest "(")) (λ _. _) (λ _. v)

round-Good :
    (set : Setting) (t : PpToken) (rest : List PpToken) (p : State)
    → WellFormed p
    → GoodRound (round set t rest p)
unfolding round
round-Good set t rest p w =
    if_ind GoodRound (not (is_identifier t) || member t.text t.hide_set) (λ _. _)
      λ _.
        if_ind GoodRound (is_predefined set.options t.text) (λ _. _)
          (λ _. round_of_macro-Good _ rest (find_macro-FoundValid t.text p.macros w))

-- Enough fuel for the invocations that the limit still allows.
abbrev Fueled : ℕ → State → Type 0
Fueled fuel p = WellFormed p × limit + 1 ≤ fuel + p.expansions

Fueled-Grown : (fuel : ℕ) (p q : State) → Fueled fuel p → Grown p q → Fueled fuel q
Fueled-Grown fuel p q h g = (subst ValidMacros (sym g.0) h.0, omega (arith, h.1, g.1))

counted-Grown : (p : State) → Grown p (counted p)
counted-Grown p = (refl, omega arith)

counted-Fueled : (fuel : ℕ) (p : State) → Fueled (suc fuel) p → Fueled fuel (counted p)
counted-Fueled fuel p h = (h.0, omega (arith, h.1))

abbrev Runs : Setting → ℕ → List PpToken → Type 0
Runs set fuel ts =
    (depth : ℕ) (p : State) → Fueled fuel p → Keeps p (expand_from set fuel depth ts p)

module _ (set : Setting) (depth : ℕ) (t : PpToken) (rest : List PpToken) (p : State) where
  builtin-Keeps :
      (fuel : ℕ)
      → Fueled fuel p
      → Runs set fuel rest
      → Keeps p (elim (ltb limit (p.expansions + 1)) [
        | true ↦ fail t.loc too_deep (counted p)
        | false ↦ append_output (predefined set t) (expand_from set fuel depth rest (counted p))
      ])
  builtin-Keeps fuel h more =
      elim_ind (Keeps p) (ltb limit (p.expansions + 1))
        (λ _. report_at-Broken p (counted p) t.loc _ (counted-Grown p))
        λ _. append_output-Keeps (predefined set t) p _ (
          Keeps-from p (counted p) _ (counted-Grown p)
            (more depth (counted p) (Fueled-Grown fuel p (counted p) h (counted-Grown p))))

  last_round-Keeps :
      (r : Round)
      → round set t rest p ≡ r
      → GoodRound r
      → Fueled zero p
      → Runs set zero rest
      → Keeps p (expand_from set zero depth (t ∷ rest) p)
  unfolding expand_from
  last_round-Keeps copied e v h more =
      rw (expand_from, e) (append_output-Keeps t p _ (more depth p h))
  last_round-Keeps builtin e v h more = rw (expand_from, e) (builtin-Keeps zero h more)
  last_round-Keeps (invoked macro) e v h more =
      rw (expand_from, e)
        (elim_ind (Keeps p) (leb 128 (length t.hide_set))
          (λ _. report_at-Broken p p t.loc _ (Grown-refl p))
          λ _.
            elim_ind (Keeps p) (ltb limit (p.expansions + 1))
              (λ _. report_at-Broken p (counted p) t.loc _ (counted-Grown p))
              (λ below. ground (arith, below, h.1)))

  invoked-Keeps :
      (fuel : ℕ) (macro : Macro)
      → ValidMacro macro
      → Fueled (suc fuel) p
      → ((ts : List PpToken) → Runs set fuel ts)
      → Keeps (counted p) (
          replace set
            (λ input q.
              within_depth (depth + 1) input (λ r. expand_from set fuel (depth + 1) input r) q)
            macro
            t
            rest
            (counted p)
          >>= λ pending q. expand_from set fuel depth pending q)
  invoked-Keeps fuel macro v h deeper =
      let fueled : (q : State) → Grown (counted p) q → Fueled fuel q =
        λ q. Fueled-Grown fuel (counted p) q (counted-Fueled fuel p h) in
      Keeps-bind (counted p) _ (λ pending q. expand_from set fuel depth pending q)
        (replace-Keeps set _ macro t rest (counted p) v λ input q g.
          elim_ind (Keeps q) (leb 128 (depth + 1))
            (λ _. report_at-Broken q q (first_or q.end input) _ (Grown-refl q))
            (λ _. deeper input (depth + 1) q (fueled q g)))
        (λ pending q g. deeper pending depth q (fueled q g))

  round-Keeps :
      (fuel : ℕ) (r : Round)
      → round set t rest p ≡ r
      → GoodRound r
      → Fueled (suc fuel) p
      → Runs set (suc fuel) rest
      → ((ts : List PpToken) → Runs set fuel ts)
      → Keeps p (expand_from set (suc fuel) depth (t ∷ rest) p)
  unfolding expand_from
  round-Keeps fuel copied e v h more deeper =
      rw (expand_from, e) (append_output-Keeps t p _ (more depth p h))
  round-Keeps fuel builtin e v h more deeper = rw (expand_from, e) (builtin-Keeps (suc fuel) h more)
  round-Keeps fuel (invoked macro) e v h more deeper =
      rw (expand_from, e)
        (elim_ind (Keeps p) (leb 128 (length t.hide_set))
          (λ _. report_at-Broken p p t.loc _ (Grown-refl p))
          λ _.
            elim_ind (Keeps p) (ltb limit (p.expansions + 1))
              (λ _. report_at-Broken p (counted p) t.loc _ (counted-Grown p))
              (λ below.
                Keeps-from p (counted p) _ (counted-Grown p) (invoked-Keeps fuel macro v h deeper)))

expand_from-Keeps : (set : Setting) (fuel : ℕ) (ts : List PpToken) → Runs set fuel ts
unfolding expand_from
expand_from-Keeps set zero [] depth p h = Grown-refl p
expand_from-Keeps set (suc fuel) [] depth p h = Grown-refl p
expand_from-Keeps set zero (t ∷ rest) depth p h =
    last_round-Keeps set depth t rest p (round set t rest p) refl (round-Good set t rest p h.0) h
      (expand_from-Keeps set zero rest)
expand_from-Keeps set (suc fuel) (t ∷ rest) depth p h =
    round-Keeps set depth t rest p fuel (round set t rest p) refl (round-Good set t rest p h.0) h
      (expand_from-Keeps set (suc fuel) rest) (λ ts. expand_from-Keeps set fuel ts)

-- Where the macros are well formed, the expansion of any tokens comes to an end, with a result or,
-- where it fails, with an error in the engine, without reading a vector out of range: not `arguments`,
-- `commas`, `macro.replacement`, `substituted`, `pasted` or `input.locations`. The fuel, one invocation for each that the
-- limit of 100000 still allows, is enough. The macros stay as they are, and the count of expansions
-- does not fall.
pub expand-Keeps :
    (set : Setting) (input : List PpToken) (p : State)
    → WellFormed p
    → Ends (λ _ q. Grown p q) (λ q. Grown p q × has_errors (engine q) ≡ true) (expand set input p)
unfolding expand
expand-Keeps set input p w =
    expand_from-Keeps set (limit + 1 - p.expansions) input 0 p (w, omega arith)
