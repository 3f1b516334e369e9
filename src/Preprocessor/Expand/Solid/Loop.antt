-- ===== src/Preprocessor/Expand/Solid/Loop.antt =====
-- The loop of `expand` (lib/Lex/Preprocessor.cpp) makes tokens with a text.
use mathlib.Core.Path.{subst}
use tensorium_cc.Prelude.{
  ℕ, zero, suc, ◌+◌, ◌-◌, ◌/◌, ◌%◌, ◌≡◌, refl, sym, ◌∙◌, true, false, not, ◌&&◌, ◌||◌, Option, none,
  some, List, [], ◌∷◌, ◌==◌, if_ind, elim_ind, ltb, leb, length, Bytes,
}
use tensorium_cc.Diagnostic.Render.{to_string, decimal_over}
use tensorium_cc.LangOptions.{Standard, c89, c99, c11, c17}
use tensorium_cc.Preprocessor.{PpToken}
use tensorium_cc.Preprocessor.State.{
  fail, Macro, State, Setting, Outcome, ok, failed, out_of_range, out_of_fuel, ◌>>=◌, member,
  is_predefined,
}
use tensorium_cc.Preprocessor.Define.{is, is_empty, is_identifier, first_is}
use tensorium_cc.Preprocessor.Define.Valid.{ValidMacros, FoundValid, find_macro-FoundValid}
use tensorium_cc.Preprocessor.Predefined.{quote, predefined, context_of, version}
use tensorium_cc.Preprocessor.Expand.{
  counted, limit, replace, Round, copied, builtin, invoked, round_of_macro, round, append_output,
  first_or, too_deep, within_depth, expand_from, expand,
}
use tensorium_cc.Preprocessor.Expand.Solid.{Solid, AllSolid, AllLexed-AllSolid, Yields, Yields-bind}
use tensorium_cc.Preprocessor.Expand.Solid.Run.{replace-Solid}

decimal_over-full : (fuel n d : ℕ) (ds : Bytes) → is_empty (decimal_over fuel n (d ∷ ds)) ≡ false
unfolding decimal_over
decimal_over-full zero n d ds = refl
decimal_over-full (suc fuel) n d ds =
    if_ind (λ (s : Bytes). is_empty s ≡ false) (n / 10 == 0) (λ _. refl)
      (λ _. decimal_over-full fuel (n / 10) (b'0' + n % 10) (d ∷ ds))

to_string-full : (n : ℕ) → is_empty (to_string n) ≡ false
unfolding to_string decimal_over
to_string-full n =
    if_ind (λ (s : Bytes). is_empty s ≡ false) (n / 10 == 0) (λ _. refl)
      (λ _. decimal_over-full n (n / 10) (b'0' + n % 10) [])

version-full : (std : Standard) → is_empty (version std) ≡ false
version-full c89 = refl
version-full c99 = refl
version-full c11 = refl
version-full c17 = refl

predefined-Solid : (set : Setting) (t : PpToken) → Solid (predefined set t)
unfolding predefined quote
predefined-Solid set t =
    if_ind Solid (is t "__FILE__") (λ _. refl)
      λ _.
        if_ind Solid (is t "__LINE__") (λ _. to_string-full (context_of t).line)
          λ _.
            if_ind Solid (is t "__DATE__" || is t "__TIME__") (λ _. refl)
              λ _.
                if_ind Solid (is t "__STDC_HOSTED__") (λ _. refl)
                  (λ _.
                    if_ind Solid (is t "__STDC_VERSION__") (λ _. version-full set.options.std)
                      (λ _. refl))

append_output-Solid :
    (macros : List (Bytes × Macro)) (t : PpToken) (m : Outcome (List PpToken))
    → Solid t
    → Yields macros AllSolid m
    → Yields macros AllSolid (append_output t m)
append_output-Solid macros t (ok ts q) h k = ((h, k.0), k.1)
append_output-Solid macros t (failed q) h k = _
append_output-Solid macros t out_of_range h k = _
append_output-Solid macros t out_of_fuel h k = _

abbrev GoodRound : Round → Type 0
GoodRound (invoked macro) = AllSolid macro.replacement
GoodRound _ = Unit

round_of_macro-Good :
    (o : Option Macro) (rest : List PpToken) → FoundValid o → GoodRound (round_of_macro o rest)
unfolding round_of_macro
round_of_macro-Good none rest v = _
round_of_macro-Good (some macro) rest v =
    if_ind GoodRound (macro.function_like && not (first_is rest "(")) (λ _. _)
      (λ _. AllLexed-AllSolid macro.replacement v.lexed)

round-Good :
    (set : Setting) (t : PpToken) (rest : List PpToken) (p : State)
    → ValidMacros p.macros
    → GoodRound (round set t rest p)
unfolding round
round-Good set t rest p w =
    if_ind GoodRound (not (is_identifier t) || member t.text t.hide_set) (λ _. _)
      λ _.
        if_ind GoodRound (is_predefined set.options t.text) (λ _. _)
          (λ _. round_of_macro-Good _ rest (find_macro-FoundValid t.text p.macros w))

module _ (set : Setting) (macros : List (Bytes × Macro)) (valid : ValidMacros macros) where
  abbrev Runs : ℕ → List PpToken → Type 0
  Runs fuel ts =
      (depth : ℕ) (p : State)
      → AllSolid ts
      → p.macros ≡ macros
      → Yields macros AllSolid (expand_from set fuel depth ts p)

  module _ (depth : ℕ) (t : PpToken) (rest : List PpToken) (p : State) (h : AllSolid (t ∷ rest))
      (e : p.macros ≡ macros) where
    builtin-Solid :
        (fuel : ℕ)
        → Runs fuel rest
        → Yields macros AllSolid (elim (ltb limit (p.expansions + 1)) [
          | true ↦ fail t.loc too_deep (counted p)
          | false ↦ append_output (predefined set t) (expand_from set fuel depth rest (counted p))
        ])
    builtin-Solid fuel more =
        elim_ind (Yields macros AllSolid) (ltb limit (p.expansions + 1)) (λ _. _)
          (λ _.
            append_output-Solid macros (predefined set t) _ (predefined-Solid set t)
              (more depth (counted p) h.1 e))

    last_round-Solid :
        (r : Round)
        → round set t rest p ≡ r
        → Runs zero rest
        → Yields macros AllSolid (expand_from set zero depth (t ∷ rest) p)
    unfolding expand_from
    last_round-Solid copied eq more =
        rw (expand_from, eq) (append_output-Solid macros t _ h.0 (more depth p h.1 e))
    last_round-Solid builtin eq more = rw (expand_from, eq) (builtin-Solid zero more)
    last_round-Solid (invoked macro) eq more =
        let P = Yields macros AllSolid in
        rw (expand_from, eq)
          (elim_ind P (leb 128 (length t.hide_set)) (λ _. _)
            (λ _. elim_ind P (ltb limit (p.expansions + 1)) (λ _. _) (λ _. _)))

    invoked-Solid :
        (fuel : ℕ) (macro : Macro)
        → AllSolid macro.replacement
        → ((ts : List PpToken) → Runs fuel ts)
        → Yields macros AllSolid (
            replace set
              (λ input q.
                within_depth (depth + 1) input (λ r. expand_from set fuel (depth + 1) input r) q)
              macro
              t
              rest
              (counted p)
            >>= λ pending q. expand_from set fuel depth pending q)
    invoked-Solid fuel macro m deeper =
        let nested : List PpToken → State → Outcome (List PpToken) = λ input q.
          within_depth (depth + 1) input (λ r. expand_from set fuel (depth + 1) input r) q in
        let below : (input : List PpToken) (q : State)
            → AllSolid input
            → q.macros ≡ macros
            → Yields macros AllSolid (nested input q) =
          λ input q s e'.
            elim_ind (Yields macros AllSolid) (leb 128 (depth + 1))
              {x = fail (first_or q.end input) too_deep q} (λ _. _)
              (λ _. deeper input (depth + 1) q s e') in
        Yields-bind macros AllSolid AllSolid (replace set nested macro t rest (counted p))
          (λ pending q. expand_from set fuel depth pending q)
          (subst (λ ms. Yields ms AllSolid (replace set nested macro t rest (counted p))) e
            (replace-Solid set nested macro t rest (counted p) m h.1 λ input q s e'.
              subst (λ ms. Yields ms AllSolid (nested input q)) (sym e) (below input q s (e' ∙ e))))
          (λ pending q s e'. deeper pending depth q s e')

    round-Solid :
        (fuel : ℕ) (r : Round)
        → round set t rest p ≡ r
        → GoodRound r
        → Runs (suc fuel) rest
        → ((ts : List PpToken) → Runs fuel ts)
        → Yields macros AllSolid (expand_from set (suc fuel) depth (t ∷ rest) p)
    unfolding expand_from
    round-Solid fuel copied eq m more deeper =
        rw (expand_from, eq) (append_output-Solid macros t _ h.0 (more depth p h.1 e))
    round-Solid fuel builtin eq m more deeper = rw (expand_from, eq) (builtin-Solid (suc fuel) more)
    round-Solid fuel (invoked macro) eq m more deeper =
        let P = Yields macros AllSolid in
        rw (expand_from, eq)
          (elim_ind P (leb 128 (length t.hide_set)) (λ _. _)
            λ _.
              elim_ind P (ltb limit (p.expansions + 1)) (λ _. _)
                (λ _. invoked-Solid fuel macro m deeper))

  expand_from-Solid : (fuel : ℕ) (ts : List PpToken) → Runs fuel ts
  unfolding expand_from
  expand_from-Solid zero [] depth p h e = (_, e)
  expand_from-Solid (suc fuel) [] depth p h e = (_, e)
  expand_from-Solid zero (t ∷ rest) depth p h e =
      last_round-Solid depth t rest p h e (round set t rest p) refl (expand_from-Solid zero rest)
  expand_from-Solid (suc fuel) (t ∷ rest) depth p h e =
      round-Solid depth t rest p h e fuel (round set t rest p) refl
        (round-Good set t rest p (subst ValidMacros (sym e) valid))
        (expand_from-Solid (suc fuel) rest) (λ ts. expand_from-Solid fuel ts)

pub expand-Solid :
    (set : Setting) (ts : List PpToken) (p : State)
    → ValidMacros p.macros
    → AllSolid ts
    → Yields p.macros AllSolid (expand set ts p)
unfolding expand
expand-Solid set ts p w h =
    expand_from-Solid set p.macros w (limit + 1 - p.expansions) ts 0 p h refl
