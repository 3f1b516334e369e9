-- ===== src/Preprocessor/Define/WellFormed.antt =====
-- The macros that `define` of lib/Lex/Preprocessor.cpp stores are well formed.
use mathlib.Core.Bool.{true≢false}
use tensorium_cc.Prelude.{
  ◌≡◌, refl, not, ◌&&◌, ◌||◌, Option, none, some, List, [], ◌∷◌, if_ind, Bytes,
}
use tensorium_cc.Location.{SourceLoc}
use tensorium_cc.LangOptions.{LangOptions, Standard}
use tensorium_cc.Preprocessor.{PpToken}
use tensorium_cc.Preprocessor.State.{Macro, State, find_macro, member, is_predefined}
use tensorium_cc.Preprocessor.Ends.{Returns}
use tensorium_cc.Preprocessor.Define.{
  is, ParameterList, parsed, wrong, is_identifier, first_is, macro_head, Head, head, bad_head,
  close_parameters, define_head, define_checked, conflicts, store_macro, define,
}
use tensorium_cc.Preprocessor.Define.Valid.{
  AllFit, AllLexed, ValidMacro, WellFormed, ValidMacros-put_macro, refusal-WellFormed,
}
use tensorium_cc.Preprocessor.Define.Check.{check_replacement-AllFit}
use tensorium_cc.Preprocessor.Define.Names.{GoodList, parse_parameters-Good}

-- A head is a valid macro where its replacement passes the check.
abbrev GoodHead : Head → Type 0
GoodHead (bad_head at message) = Unit
GoodHead (head macro) = AllFit macro none macro.replacement → ValidMacro macro

close_parameters-Good :
    (at : SourceLoc) (list : ParameterList) → GoodList list → GoodHead (close_parameters at list)
unfolding close_parameters
close_parameters-Good at (wrong place message) g = _
close_parameters-Good at (parsed names variadic []) g = _
close_parameters-Good at (parsed names variadic (t ∷ body)) g =
    if_ind GoodHead (is t ")")
      (λ _ fits. record {
        named = g.0;
        fits = fits;
        lexed = g.1.1;
        object = λ e. absurd (true≢false e);
      })
      (λ _. _)

macro_head-Good :
    (std : Standard) (at : SourceLoc) (ts : List PpToken)
    → AllLexed ts
    → GoodHead (macro_head std at ts)
unfolding macro_head member
macro_head-Good std at [] l =
    λ fits. record { named = (_, _, refl); fits = fits; lexed = _; object = λ e. refl }
macro_head-Good std at (t ∷ rest) l =
    if_ind GoodHead (is t "(" && not t.leading_space)
      (λ _. close_parameters-Good at _ (
        if_ind GoodList (first_is rest ")") (λ _. ((_, _, refl), l.1))
          (λ _. parse_parameters-Good std [] rest (_, _, refl) l.1)))
      (λ _ fits. record { named = (_, _, refl); fits = fits; lexed = l; object = λ e. refl })

store_macro-WellFormed :
    (t : PpToken) (macro : Macro) (p : State)
    → ValidMacro macro
    → WellFormed p
    → Returns WellFormed (store_macro t macro p)
unfolding store_macro
store_macro-WellFormed t macro p v w =
    if_ind (Returns WellFormed) (conflicts (find_macro t.text p.macros) macro)
      (λ _. refusal-WellFormed t.loc _ p w) (λ _. ValidMacros-put_macro t.text macro p.macros v w)

define_checked-WellFormed :
    (t : PpToken) (macro : Macro) (found : Option (SourceLoc × Bytes)) (p : State)
    → (found ≡ none → ValidMacro macro)
    → WellFormed p
    → Returns WellFormed (define_checked t macro found p)
unfolding define_checked
define_checked-WellFormed t macro none p v w = store_macro-WellFormed t macro p (v refl) w
define_checked-WellFormed t macro (some (at, message)) p v w = refusal-WellFormed at message p w

define_head-WellFormed :
    (t : PpToken) (h : Head) (p : State)
    → GoodHead h
    → WellFormed p
    → Returns WellFormed (define_head t h p)
unfolding define_head
define_head-WellFormed t (bad_head at message) p g w = refusal-WellFormed at message p w
define_head-WellFormed t (head macro) p g w =
    define_checked-WellFormed t macro _ p
      (λ e. g (check_replacement-AllFit macro none macro.replacement e)) w

-- Whatever tokens `define` is given, it returns without reading out of range, false only with an error
-- in the engine, and every macro of the table stays well formed: the parameters are distinct identifiers, with `__VA_ARGS__` at
-- the end just where there is an ellipsis; no `##` stands first, last or next to another; in a
-- function-like macro every `#` stands in front of a parameter; `__VA_ARGS__` occurs only where there
-- is an ellipsis. The tokens must be such as the scanner gives, identifiers just if they begin as one.
pub define-WellFormed :
    (options : LangOptions) (ts : List PpToken) (loc : SourceLoc) (p : State)
    → AllLexed ts
    → WellFormed p
    → Returns WellFormed (define options ts loc p)
unfolding define
define-WellFormed options [] loc p l w = refusal-WellFormed loc _ p w
define-WellFormed options (t ∷ rest) loc p l w =
    let P = Returns WellFormed in
    if_ind P (not (is_identifier t) || is t "defined" || is t "__VA_ARGS__")
      (λ _. refusal-WellFormed loc _ p w)
      λ _.
        if_ind P (is_predefined options t.text) (λ _. refusal-WellFormed t.loc _ p w)
          λ _. define_head-WellFormed t _ p (macro_head-Good options.std t.loc rest l.1) w
