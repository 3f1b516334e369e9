-- ===== src/Preprocessor/Expand/Solid.antt =====
-- The tokens that `expand` of lib/Lex/Preprocessor.cpp makes have a text.
pub mod Parts
pub mod Run
pub mod Loop
use mathlib.Core.Path.{subst}
use tensorium_cc.Prelude.{
  ℕ, zero, suc, ◌+◌, ◌-◌, ◌/◌, ◌%◌, ◌≡◌, refl, ap, sym, ◌∙◌, Bool, true, false, not, ◌&&◌, ◌||◌,
  Option, none, some, List, [], ◌∷◌, ◌++◌, ◌==◌, if◌then◌else◌, if_ind, elim_ind, ltb, leb, take,
  drop, length, get_elem?, Bytes, codes, same_bytes,
}
use tensorium_cc.Location.{SourceLoc}
use tensorium_cc.Diagnostic.Render.{to_string, decimal_over}
use tensorium_cc.Preprocessor.{PpToken, PpTokenKind}
use tensorium_cc.Preprocessor.Tokenize.{tokenize_input}
use tensorium_cc.Preprocessor.Tokenize.Lexed.{tokenize_input-AllLexed}
use tensorium_cc.Preprocessor.State.{
  Macro, State, Setting, Outcome, ok, failed, out_of_range, out_of_fuel, ◌>>=◌, engine, find_macro,
  member, is_predefined,
}
use tensorium_cc.Preprocessor.Define.{is, is_empty, is_identifier, first_is}
use tensorium_cc.Preprocessor.Define.Valid.{
  Lexed, AllLexed, ValidMacro, ValidMacros, FoundValid, find_macro-FoundValid,
}
use tensorium_cc.Preprocessor.Predefined.{quote, stringify, spelling, predefined, context_of}
use tensorium_cc.Preprocessor.Expand.Arguments.{
  Collected, closed, unclosed, add_argument, nested, collect, join_variable, merge_variable,
  no_arguments, wrong_number, in_range, check_arguments,
}
use tensorium_cc.Preprocessor.Expand.Substitute.{
  Part, plain, Action, stringizing, no_parameter, pasting, copying, argument, action, Prepared,
  insert_argument, rest_of_argument, moved, prepend, prepare, value_of, find_prepared, string_of,
  string_part, with_part, substitute,
}
use tensorium_cc.Preprocessor.Expand.Paste.{
  is_pasted, scan_fragment, joined, join_parts, paste_from, reverse_onto, paste_all,
}
use tensorium_cc.Preprocessor.Expand.{
  add_names, replacement_of, or_space, put_back, counted, limit, Invocation, tail, invoke_closed,
  invoke, replace, Round, copied, builtin, invoked, round_of_macro, round, append_output,
  within_depth, expand_from, expand,
}

abbrev pub Solid : PpToken → Type 0
Solid t = is_empty t.text ≡ false

abbrev pub AllSolid : List PpToken → Type 0
AllSolid [] = Unit
AllSolid (t ∷ ts) = Solid t × AllSolid ts

abbrev pub EachSolid : List (List PpToken) → Type 0
EachSolid [] = Unit
EachSolid (ts ∷ more) = AllSolid ts × EachSolid more

abbrev pub SolidParts : List Part → Type 0
SolidParts [] = Unit
SolidParts (part ∷ parts) = Solid part.token × SolidParts parts

pub AllLexed-AllSolid : (ts : List PpToken) → AllLexed ts → AllSolid ts
AllLexed-AllSolid [] h = _
AllLexed-AllSolid (t ∷ ts) h = (h.0.1, AllLexed-AllSolid ts h.1)

pub AllSolid-append : (ts us : List PpToken) → AllSolid ts → AllSolid us → AllSolid (ts ++ us)
AllSolid-append [] us h k = k
AllSolid-append (t ∷ ts) us h k = (h.0, AllSolid-append ts us h.1 k)

pub SolidParts-append : (ps qs : List Part) → SolidParts ps → SolidParts qs → SolidParts (ps ++ qs)
SolidParts-append [] qs h k = k
SolidParts-append (p ∷ ps) qs h k = (h.0, SolidParts-append ps qs h.1 k)

-- A run that, if it succeeds, gives a value that `Q` holds of and leaves the macros.
abbrev pub Yields : {A : Type 0} → List (Bytes × Macro) → (A → Type 0) → Outcome A → Type 0
Yields macros Q (ok a q) = Q a × q.macros ≡ macros
Yields macros Q _ = Unit

pub Yields-bind :
    {A B : Type 0} (macros : List (Bytes × Macro)) (Q : A → Type 0) (R : B → Type 0) (m : Outcome A)
    (f : A → State → Outcome B)
    → Yields macros Q m
    → ((a : A) (q : State) → Q a → q.macros ≡ macros → Yields macros R (f a q))
    → Yields macros R (m >>= f)
Yields-bind macros Q R (ok a q) f h k = k a q h.0 h.1
Yields-bind macros Q R (failed q) f h k = _
Yields-bind macros Q R out_of_range f h k = _
Yields-bind macros Q R out_of_fuel f h k = _

-- Reading the arguments.
abbrev pub CollectedSolid : Collected → Type 0
CollectedSolid (closed arguments commas end rest) =
    EachSolid arguments × AllSolid commas × AllSolid rest
CollectedSolid unclosed = Unit

add_argument-Solid :
    (ts : List PpToken) (comma : PpToken) (c : Collected)
    → AllSolid ts
    → Solid comma
    → CollectedSolid c
    → CollectedSolid (add_argument ts comma c)
add_argument-Solid ts comma (closed arguments commas end rest) h k l = ((h, l.0), (k, l.1), l.2)
add_argument-Solid ts comma unclosed h k l = _

pub collect-Solid :
    (nesting : ℕ) (ts pending : List PpToken)
    → AllSolid ts
    → AllSolid pending
    → CollectedSolid (collect nesting ts pending)
unfolding collect
collect-Solid nesting ts [] h k = _
collect-Solid nesting ts (part ∷ rest) h k =
    elim_ind CollectedSolid (is part ")" && nesting == 0) (λ _. ((h, _), _, k.1))
      λ _.
        elim_ind CollectedSolid (is part "," && nesting == 0)
          (λ _. add_argument-Solid ts part _ h k.0 (collect-Solid 0 [] rest _ k.1))
          (λ _.
            collect-Solid (nested part nesting) (ts ++ (part ∷ [])) rest
              (AllSolid-append ts (part ∷ []) h (k.0, _)) k.1)

AllSolid-drop : (n : ℕ) (ts : List PpToken) → AllSolid ts → AllSolid (drop n ts)
AllSolid-drop zero ts h = h
AllSolid-drop (suc n) [] h = _
AllSolid-drop (suc n) (t ∷ ts) h = AllSolid-drop n ts h.1

EachSolid-drop : (n : ℕ) (lists : List (List PpToken)) → EachSolid lists → EachSolid (drop n lists)
EachSolid-drop zero lists h = h
EachSolid-drop (suc n) [] h = _
EachSolid-drop (suc n) (ts ∷ lists) h = EachSolid-drop n lists h.1

EachSolid-take-snoc :
    (n : ℕ) (lists : List (List PpToken)) (last : List PpToken)
    → EachSolid lists
    → AllSolid last
    → EachSolid (take n lists ++ (last ∷ []))
EachSolid-take-snoc zero lists last h k = (k, _)
EachSolid-take-snoc (suc n) [] last h k = (k, _)
EachSolid-take-snoc (suc n) (ts ∷ lists) last h k = (h.0, EachSolid-take-snoc n lists last h.1 k)

abbrev pub IfSome : {A : Type 0} → (A → Type 0) → Option A → Type 0
IfSome P none = Unit
IfSome P (some a) = P a

join-Solid :
    (ts : List PpToken) (comma : PpToken) (o : Option (List PpToken))
    → AllSolid ts
    → Solid comma
    → IfSome AllSolid o
    → IfSome AllSolid (elim o [ none ↦ none | some joined ↦ some (ts ++ (comma ∷ joined)) ])
join-Solid ts comma none h k l = _
join-Solid ts comma (some joined) h k l = AllSolid-append ts (comma ∷ joined) h (k, l)

join_variable-Solid :
    (lists : List (List PpToken)) (commas : List PpToken)
    → EachSolid lists
    → AllSolid commas
    → IfSome AllSolid (join_variable lists commas)
unfolding join_variable
join_variable-Solid [] commas h k = _
join_variable-Solid (ts ∷ []) commas h k = h.0
join_variable-Solid (ts ∷ next ∷ more) [] h k = _
join_variable-Solid (ts ∷ next ∷ more) (comma ∷ commas) h k =
    join-Solid ts comma _ h.0 k.0 (join_variable-Solid (next ∷ more) commas h.1 k.1)

snoc-Solid :
    (n : ℕ) (lists : List (List PpToken)) (o : Option (List PpToken))
    → EachSolid lists
    → IfSome AllSolid o
    → IfSome EachSolid (elim o [ none ↦ none | some joined ↦ some (take n lists ++ (joined ∷ [])) ])
snoc-Solid n lists none h k = _
snoc-Solid n lists (some joined) h k = EachSolid-take-snoc n lists joined h k

merge_variable-Solid :
    (n : ℕ) (lists : List (List PpToken)) (commas : List PpToken)
    → EachSolid lists
    → AllSolid commas
    → IfSome EachSolid (merge_variable n lists commas)
unfolding merge_variable
merge_variable-Solid zero lists commas h k = _
merge_variable-Solid (suc n) lists commas h k = snoc-Solid n lists _ h (
    join_variable-Solid (drop n lists) (drop n commas) (EachSolid-drop n lists h)
      (AllSolid-drop n commas k))

pub no_arguments-Solid :
    (macro : Macro) (lists : List (List PpToken))
    → EachSolid lists
    → EachSolid (no_arguments macro lists)
no_arguments-Solid macro [] h = h
no_arguments-Solid macro ([] ∷ []) h =
    if_ind EachSolid (is_empty macro.parameters) (λ _. _) (λ _. h)
no_arguments-Solid macro ([] ∷ next ∷ more) h = h
no_arguments-Solid macro ((t ∷ ts) ∷ more) h = h

in_range-Solid :
    (o : Option (List (List PpToken))) (p : State)
    → IfSome EachSolid o
    → Yields p.macros EachSolid (in_range o p)
in_range-Solid none p h = _
in_range-Solid (some lists) p h = (h, refl)

pub check_arguments-Solid :
    (macro : Macro) (t : PpToken) (lists : List (List PpToken)) (commas : List PpToken) (p : State)
    → EachSolid lists
    → AllSolid commas
    → Yields p.macros EachSolid (check_arguments macro t lists commas p)
unfolding check_arguments
check_arguments-Solid macro t lists commas p h k =
    let P = Yields p.macros EachSolid in
    if_ind P (wrong_number macro lists) (λ _. _)
      λ _.
        if_ind P macro.variadic
          (λ _.
            in_range-Solid _ p (merge_variable-Solid (length macro.parameters) lists commas h k))
          (λ _. (h, refl))
