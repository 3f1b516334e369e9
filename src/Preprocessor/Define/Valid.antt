-- ===== src/Preprocessor/Define/Valid.antt =====
-- What makes a macro of lib/Lex/Preprocessor.cpp well formed.
use tensorium_cc.Prelude.{
  ◌≡◌, Bool, true, false, Option, none, some, List, [], ◌∷◌, ◌++◌, if_ind, Bytes, codes, same_bytes,
}
use tensorium_cc.Location.{SourceLoc}
use tensorium_cc.Diagnostic.{has_errors}
use tensorium_cc.Lexer.Bytes.{is_ident_start}
use tensorium_cc.Preprocessor.{PpToken}
use tensorium_cc.Preprocessor.State.{
  engine, Macro, State, find_macro, put_macro, erase_macro, member, report_at,
}
use tensorium_cc.Preprocessor.Ends.{report_at-has_errors}
use tensorium_cc.Preprocessor.Define.{is, is_empty, names_parameter, behind_paste, is_identifier}

-- The last of a list, with what stands in front of it.
abbrev pub last_of : Option PpToken → List PpToken → Option PpToken
last_of previous [] = previous
last_of previous (t ∷ ts) = last_of (some t) ts

-- What a token of a replacement asks for, in a macro and between two parts of the replacement. `##`
-- joins two tokens, `#` stands in front of a parameter, and `__VA_ARGS__` needs an ellipsis.
pub record Fits (macro : Macro) (previous : Option PpToken) (t : PpToken) (rest : List PpToken)
    : Type 0 where
  pub pastes : is t "##" ≡ true → behind_paste previous ≡ false × is_empty rest ≡ false
  pub stringizes :
      macro.function_like ≡ true → is t "#" ≡ true → names_parameter macro.parameters rest ≡ true
  pub varies : is t "__VA_ARGS__" ≡ true → macro.variadic ≡ true

-- Every token of a replacement fits.
abbrev pub AllFit : Macro → Option PpToken → List PpToken → Type 0
AllFit macro previous [] = Unit
AllFit macro previous (t ∷ ts) = Fits macro previous t ts × AllFit macro (some t) ts

-- No name stands twice.
abbrev pub Distinct : List Bytes → Type 0
Distinct [] = Unit
Distinct (x ∷ xs) = member x xs ≡ false × Distinct xs

abbrev pub va_args : Bytes
va_args = codes "__VA_ARGS__"

-- A name that begins as an identifier does, and a token that has a text and begins so just if it is an
-- identifier.
abbrev pub starts_ident : Bytes → Bool
starts_ident [] = false
starts_ident (c ∷ s) = is_ident_start c

abbrev pub Lexed : PpToken → Type 0
Lexed t = starts_ident t.text ≡ is_identifier t × is_empty t.text ≡ false

abbrev pub AllLexed : List PpToken → Type 0
AllLexed [] = Unit
AllLexed (t ∷ ts) = Lexed t × AllLexed ts

abbrev pub Identifiers : List Bytes → Type 0
Identifiers [] = Unit
Identifiers (x ∷ xs) = starts_ident x ≡ true × Identifiers xs

-- The parameters of a macro: identifiers, of which none stands twice, and with an ellipsis the last
-- and only the last is `__VA_ARGS__`.
abbrev pub Parameters : Bool → List Bytes → Type 0
Parameters false names = Distinct names × Identifiers names × member va_args names ≡ false
Parameters true names =
    Distinct names
    × Identifiers names
    × ((init : List Bytes) × names ≡ init ++ (va_args ∷ []) × member va_args init ≡ false)

-- A macro that `expand` can use.
pub record ValidMacro (macro : Macro) : Type 0 where
  pub named : Parameters macro.variadic macro.parameters
  pub fits : AllFit macro none macro.replacement
  pub lexed : AllLexed macro.replacement
  pub object : macro.function_like ≡ false → macro.parameters ≡ []

abbrev pub ValidMacros : List (Bytes × Macro) → Type 0
ValidMacros [] = Unit
ValidMacros ((name, macro) ∷ rest) = ValidMacro macro × ValidMacros rest

abbrev pub WellFormed : State → Type 0
WellFormed p = ValidMacros p.macros

pub ValidMacros-put_macro :
    (name : Bytes) (macro : Macro) (macros : List (Bytes × Macro))
    → ValidMacro macro
    → ValidMacros macros
    → ValidMacros (put_macro name macro macros)
unfolding put_macro
ValidMacros-put_macro name macro [] h hs = (h, _)
ValidMacros-put_macro name macro ((other, n) ∷ rest) h hs =
    if_ind ValidMacros (same_bytes other name) (λ _. (h, hs.1))
      (λ _. (hs.0, ValidMacros-put_macro name macro rest h hs.1))

pub ValidMacros-erase_macro :
    (name : Bytes) (macros : List (Bytes × Macro))
    → ValidMacros macros
    → ValidMacros (erase_macro name macros)
unfolding erase_macro
ValidMacros-erase_macro name [] hs = _
ValidMacros-erase_macro name ((other, n) ∷ rest) hs =
    if_ind ValidMacros (same_bytes other name) (λ _. hs.1)
      (λ _. (hs.0, ValidMacros-erase_macro name rest hs.1))

abbrev pub FoundValid : Option Macro → Type 0
FoundValid none = Unit
FoundValid (some macro) = ValidMacro macro

pub find_macro-FoundValid :
    (name : Bytes) (macros : List (Bytes × Macro))
    → ValidMacros macros
    → FoundValid (find_macro name macros)
unfolding find_macro
find_macro-FoundValid name [] hs = _
find_macro-FoundValid name ((other, n) ∷ rest) hs =
    if_ind FoundValid (same_bytes other name) (λ _. hs.0)
      (λ _. find_macro-FoundValid name rest hs.1)

-- An error leaves the macros alone.
pub refusal-WellFormed :
    (at : SourceLoc) (message : Bytes) (p : State)
    → WellFormed p
    → WellFormed (report_at at message p) × has_errors (engine (report_at at message p)) ≡ true
unfolding report_at
refusal-WellFormed at message p w = (w, report_at-has_errors at message p)
