-- ===== src/Preprocessor/Expand/Arguments.antt =====
-- The part of `expand` of lib/Lex/Preprocessor.cpp that reads the arguments of an invocation.
use tensorium_cc.Prelude.{
  ℕ, zero, suc, Bool, true, false, not, ◌&&◌, ◌||◌, Option, none, some, List, [], ◌∷◌, ◌++◌, ◌==◌,
  ltb, if◌then◌else◌, length, take, drop, Bytes,
}
use tensorium_cc.Preprocessor.{PpToken}
use tensorium_cc.Preprocessor.State.{Macro, State, Outcome, ok, out_of_range, fail, member}
use tensorium_cc.Preprocessor.Define.{is, is_empty, named}

-- The arguments, the commas between them, the closing parenthesis and what stands behind it.
pub data Collected : Type 0 where
  closed : List (List PpToken) → List PpToken → PpToken → List PpToken → Collected
  unclosed : Collected

abbrev pub add_argument : List PpToken → PpToken → Collected → Collected
add_argument argument comma (closed arguments commas end rest) =
    closed (argument ∷ arguments) (comma ∷ commas) end rest
add_argument argument comma unclosed = unclosed

abbrev pub nested : PpToken → ℕ → ℕ
nested part nesting =
    if is part "("
    then suc nesting
    else if is part ")"
    then elim nesting [ zero ↦ zero | suc n ↦ n ]
    else nesting

-- The loop behind the opening parenthesis, with the argument being read.
unfoldable pub collect : ℕ → List PpToken → List PpToken → Collected
collect nesting argument [] = unclosed
collect nesting argument (part ∷ rest) = elim (is part ")" && nesting == 0) [
  | true ↦ closed (argument ∷ []) [] part rest
  | false ↦ elim (is part "," && nesting == 0) [
    | true ↦ add_argument argument part (collect 0 [] rest)
    | false ↦ collect (nested part nesting) (argument ++ (part ∷ [])) rest
  ]
]

-- The loop that erases from `hide` what another set does not hold.
unfoldable pub intersect : List Bytes → List Bytes → List Bytes
intersect [] others = []
intersect (name ∷ names) others =
    let more = intersect names others in if member name others then name ∷ more else more

-- The arguments of an ellipsis with their commas, as one. `none` is an access out of range.
unfoldable pub join_variable : List (List PpToken) → List PpToken → Option (List PpToken)
join_variable [] commas = none
join_variable (argument ∷ []) commas = some argument
join_variable (argument ∷ next ∷ more) [] = none
join_variable (argument ∷ next ∷ more) (comma ∷ commas) =
    elim (join_variable (next ∷ more) commas) [
      | none ↦ none
      | some joined ↦ some (argument ++ (comma ∷ joined))
    ]

unfoldable pub merge_variable :
    ℕ → List (List PpToken) → List PpToken → Option (List (List PpToken))
merge_variable zero arguments commas = none
merge_variable (suc n) arguments commas = elim (join_variable (drop n arguments) (drop n commas)) [
  | none ↦ none
  | some joined ↦ some (take n arguments ++ (joined ∷ []))
]

-- `F()` has no argument where F has no parameter.
abbrev pub no_arguments : Macro → List (List PpToken) → List (List PpToken)
no_arguments macro ([] ∷ []) = if is_empty macro.parameters then [] else [] ∷ []
no_arguments macro arguments = arguments

abbrev pub wrong_number : Macro → List (List PpToken) → Bool
wrong_number macro arguments =
    not macro.variadic && not (length arguments == length macro.parameters)
    || macro.variadic && ltb (length arguments) (length macro.parameters)

abbrev pub in_range : Option (List (List PpToken)) → State → Outcome (List (List PpToken))
in_range none p = out_of_range
in_range (some arguments) p = ok arguments p

-- The arguments as the parameters take them. `t` is the macro's name.
unfoldable pub check_arguments :
    Macro → PpToken → List (List PpToken) → List PpToken → State → Outcome (List (List PpToken))
check_arguments macro t arguments commas p =
    if wrong_number macro arguments
    then fail t.loc (named "wrong number of arguments to macro '" t.text "'") p
    else if macro.variadic
    then in_range (merge_variable (length macro.parameters) arguments commas) p
    else ok arguments p
