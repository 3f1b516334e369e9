-- ===== src/Preprocessor/Expand/Ends.antt =====
-- How the parts of `expand` (lib/Lex/Preprocessor.cpp) end, and what they leave alone.
use tensorium_cc.Prelude.{
  ℕ, zero, suc, ◌+◌, ◌≤◌, ◌≡◌, refl, ap, sym, ◌∙◌, Bool, true, false, ◌&&◌, some, List, [], ◌∷◌,
  ◌++◌, ◌==◌, if_ind, elim_ind, length, length-append, take, drop, Bytes, codes, arith,
}
use tensorium_cc.Location.{SourceLoc}
use tensorium_cc.Diagnostic.{has_errors}
use tensorium_cc.Preprocessor.{PpToken}
use tensorium_cc.Preprocessor.State.{engine, Macro, State, report_at}
use tensorium_cc.Preprocessor.Ends.{Ends, report_at-has_errors}
use tensorium_cc.Preprocessor.Define.{is, is_empty}
use tensorium_cc.Preprocessor.Define.Valid.{ValidMacro, Parameters}
use tensorium_cc.Preprocessor.Expand.Arguments.{
  Collected, closed, unclosed, add_argument, nested, collect, join_variable, merge_variable,
  no_arguments, wrong_number, check_arguments,
}

-- The macros are the same, and no invocation was taken back.
abbrev pub Grown : State → State → Type 0
Grown p q = q.macros ≡ p.macros × p.expansions ≤ q.expansions

pub Grown-refl : (p : State) → Grown p p
Grown-refl p = (refl, omega arith)

pub Grown-trans : (p q r : State) → Grown p q → Grown q r → Grown p r
Grown-trans p q r g h = (h.0 ∙ g.0, omega (arith, g.1, h.1))

-- A run that fails has reported why.
abbrev pub Broken : State → State → Type 0
Broken p q = Grown p q × has_errors (engine q) ≡ true

pub report_at-Broken :
    (p q : State) (at : SourceLoc) (message : Bytes) → Grown p q → Broken p (report_at at message q)
unfolding report_at
report_at-Broken p q at message g = (g, report_at-has_errors at message q)

-- There is a comma between two arguments.
abbrev pub OneMore : Collected → Type 0
OneMore (closed arguments commas end rest) = length arguments ≡ suc (length commas)
OneMore unclosed = Unit

OneMore-add_argument :
    (argument : List PpToken) (comma : PpToken) (c : Collected)
    → OneMore c
    → OneMore (add_argument argument comma c)
OneMore-add_argument argument comma (closed arguments commas end rest) h = ap suc h
OneMore-add_argument argument comma unclosed h = _

pub collect-OneMore :
    (nesting : ℕ) (argument ts : List PpToken) → OneMore (collect nesting argument ts)
unfolding collect
collect-OneMore nesting argument [] = _
collect-OneMore nesting argument (part ∷ rest) =
    elim_ind OneMore (is part ")" && nesting == 0) (λ _. refl)
      λ _.
        elim_ind OneMore (is part "," && nesting == 0)
          (λ _. OneMore-add_argument argument part _ (collect-OneMore 0 [] rest))
          (λ _. collect-OneMore (nested part nesting) (argument ++ (part ∷ [])) rest)

length-drop :
    {A : Type 0} (n : ℕ) (xs : List A) → n ≤ length xs → n + length (drop n xs) ≡ length xs
length-drop zero xs h = omega arith
length-drop (suc n) [] h = omega (arith, h)
length-drop (suc n) (x ∷ xs) h = omega (arith, length-drop n xs (omega (arith, h)))

length-take : {A : Type 0} (n : ℕ) (xs : List A) → n ≤ length xs → length (take n xs) ≡ n
length-take zero xs h = refl
length-take (suc n) [] h = omega (arith, h)
length-take (suc n) (x ∷ xs) h = ap suc (length-take n xs (omega (arith, h)))

join_variable-some :
    (arguments : List (List PpToken)) (commas : List PpToken)
    → length arguments ≡ suc (length commas)
    → (joined : List PpToken) × join_variable arguments commas ≡ some joined
unfolding join_variable
join_variable-some [] commas h = absurd (omega (arith, h))
join_variable-some (argument ∷ []) commas h = (argument, refl)
join_variable-some (argument ∷ next ∷ more) [] h = absurd (omega (arith, h))
join_variable-some (argument ∷ next ∷ more) (comma ∷ commas) h =
    let (joined, e) = join_variable-some (next ∷ more) commas (omega (arith, h)) in
    (argument ++ (comma ∷ joined), rw (join_variable, e) refl)

merge_variable-some :
    (n : ℕ) (arguments : List (List PpToken)) (commas : List PpToken)
    → 1 ≤ n
    → n ≤ length arguments
    → length arguments ≡ suc (length commas)
    → (values : List (List PpToken)) × merge_variable n arguments commas ≡ some values
      × length values ≡ n
unfolding merge_variable
merge_variable-some zero arguments commas pos le h = absurd (omega (arith, pos))
merge_variable-some (suc n) arguments commas pos le h =
    let (joined, e) = join_variable-some (drop n arguments) (drop n commas) (
      omega (
        arith,
        le,
        h,
        length-drop n arguments (omega (arith, le)),
        length-drop n commas (omega (arith, le, h)),
      )) in
    (
      take n arguments ++ (joined ∷ []),
      rw (merge_variable, e) refl,
      omega (
        arith,
        length-append (take n arguments) (joined ∷ []),
        length-take n arguments (omega (arith, le)),
      ),
    )

-- As many arguments as parameters.
abbrev pub Matches : Macro → State → List (List PpToken) → State → Type 0
Matches macro p values q = length values ≡ length macro.parameters × Grown p q

Parameters-pos :
    (variadic : Bool) (names : List Bytes)
    → Parameters variadic names
    → variadic ≡ true
    → is_empty names ≡ false
Parameters-pos true [] (d, i, (init, e, fresh)) h =
    absurd (omega (arith, ap length e, length-append init (codes "__VA_ARGS__" ∷ [])))
Parameters-pos true (x ∷ xs) n h = refl
Parameters-pos false names n h = cc

is_empty-pos : {A : Type 0} (xs : List A) → is_empty xs ≡ false → 1 ≤ length xs
is_empty-pos [] h = cc
is_empty-pos (x ∷ xs) h = omega arith

no_arguments_same :
    (macro : Macro) (arguments : List (List PpToken))
    → is_empty macro.parameters ≡ false
    → no_arguments macro arguments ≡ arguments
no_arguments_same macro [] h = refl
no_arguments_same macro ([] ∷ []) h = rw h refl
no_arguments_same macro ([] ∷ next ∷ more) h = refl
no_arguments_same macro ((t ∷ ts) ∷ more) h = refl

enough :
    (macro : Macro) (arguments : List (List PpToken))
    → macro.variadic ≡ true
    → wrong_number macro arguments ≡ false
    → length macro.parameters ≤ length arguments
enough macro arguments e h = ground (arith, e, h)

same_number :
    (macro : Macro) (arguments : List (List PpToken))
    → macro.variadic ≡ false
    → wrong_number macro arguments ≡ false
    → length arguments ≡ length macro.parameters
same_number macro arguments e h = ground (arith, e, h)

pub check_arguments-Matches :
    (macro : Macro) (t : PpToken) (arguments : List (List PpToken)) (commas : List PpToken)
    (p : State)
    → ValidMacro macro
    → length arguments ≡ suc (length commas)
    → Ends
        (Matches macro p)
        (Broken p)
        (check_arguments macro t (no_arguments macro arguments) commas p)
unfolding check_arguments
check_arguments-Matches macro t arguments commas p v h =
    let P = Ends (Matches macro p) (Broken p) in
    if_ind P (wrong_number macro (no_arguments macro arguments))
      (λ _. report_at-Broken p p t.loc _ (Grown-refl p))
      λ right.
        if_ind P macro.variadic
          (λ e.
            let some_names = Parameters-pos macro.variadic macro.parameters v.named e in
            let same = no_arguments_same macro arguments some_names in
            let (values, found, count) =
              merge_variable-some (length macro.parameters) arguments commas
                (is_empty-pos macro.parameters some_names)
                (enough macro arguments e (rw (sym same) right)) h in
            rw (same, found) (count, Grown-refl p))
          (λ e. (same_number macro (no_arguments macro arguments) e right, Grown-refl p))
