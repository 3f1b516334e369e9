-- ===== src/Preprocessor/Define.antt =====
-- `define` of lib/Lex/Preprocessor.cpp.
pub mod Valid
pub mod Check
pub mod Names
pub mod WellFormed
use tensorium_cc.Prelude.{
  ℕ, Bool, true, false, ◌&&◌, ◌||◌, not, ◌==◌, Option, none, some, List, [], ◌∷◌, ◌++◌,
  if◌then◌else◌, Bytes, String, codes, same_bytes,
}
use tensorium_cc.Location.{SourceLoc, unset}
use tensorium_cc.LangOptions.{LangOptions, Standard, is_c89}
use tensorium_cc.Preprocessor.{PpToken, PpTokenKind}
use tensorium_cc.Preprocessor.State.{
  Macro, State, Setting, Outcome, ok, fail, find_macro, put_macro, member, is_predefined,
}

abbrev pub is : PpToken → String → Bool
is t text = same_bytes t.text (codes text)

abbrev pub is_identifier : PpToken → Bool
is_identifier t = elim t.kind [ PpTokenKind.identifier ↦ true | _ ↦ false ]

abbrev pub first_is : List PpToken → String → Bool
first_is [] text = false
first_is (t ∷ ts) text = is t text

abbrev pub named : String → Bytes → String → Bytes
named front name back = codes front ++ name ++ codes back

-- The parameters, whether the list ends in an ellipsis, and the tokens behind it; or an error.
pub data ParameterList : Type 0 where
  parsed : List Bytes → Bool → List PpToken → ParameterList
  wrong : SourceLoc → Bytes → ParameterList

-- What the loop over the parameters makes of a token.
pub data Parameter : Type 0 where
  ellipsis named_one : Parameter
  refused : SourceLoc → Bytes → Parameter

unfoldable pub parameter : Standard → List Bytes → PpToken → Parameter
parameter std names part =
    if is part "..."
    then (if is_c89 std
        then refused part.loc (codes "variadic macros require C99 or later")
        else ellipsis)
    else if not (is_identifier part) || is part "__VA_ARGS__"
    then refused part.loc (codes "expected macro parameter name")
    else if member part.text names
    then refused part.loc (named "duplicate macro parameter '" part.text "'")
    else named_one

abbrev pub first_loc : List PpToken → SourceLoc
first_loc [] = unset
first_loc (t ∷ ts) = t.loc

-- The loop, behind the parameters in `names`.
unfoldable pub parse_parameters : Standard → List Bytes → List PpToken → ParameterList
parse_parameters std names [] = parsed names false []
parse_parameters std names (part ∷ []) = elim (parameter std names part) [
  | ellipsis ↦ parsed (names ++ (codes "__VA_ARGS__" ∷ [])) true []
  | refused at message ↦ wrong at message
  | named_one ↦ parsed (names ++ (part.text ∷ [])) false []
]
parse_parameters std names (part ∷ comma ∷ more) = elim (parameter std names part) [
  | ellipsis ↦ parsed (names ++ (codes "__VA_ARGS__" ∷ [])) true (comma ∷ more)
  | refused at message ↦ wrong at message
  | named_one ↦ elim (is comma ",") [
    | false ↦ parsed (names ++ (part.text ∷ [])) false (comma ∷ more)
    | true ↦ elim (first_is more ")") [
      | true ↦ wrong (first_loc more) (codes "expected macro parameter name")
      | false ↦ parse_parameters std (names ++ (part.text ∷ [])) more
    ]
  ]
]

-- The part of `define` behind the macro's name: the macro, before its replacement is checked.
pub data Head : Type 0 where
  head : Macro → Head
  bad_head : SourceLoc → Bytes → Head

-- Behind the parameters, a `)` has to stand.
unfoldable pub close_parameters : SourceLoc → ParameterList → Head
close_parameters at (wrong place message) = bad_head place message
close_parameters at (parsed names variadic []) =
    bad_head at (codes "expected ')' after macro parameters")
close_parameters at (parsed names variadic (t ∷ body)) =
    if is t ")"
    then head (record {
      function_like = true;
      variadic = variadic;
      parameters = names;
      replacement = body;
    })
    else bad_head at (codes "expected ')' after macro parameters")

abbrev object_like : List PpToken → Macro
object_like body = record {
  function_like = false;
  variadic = false;
  parameters = [];
  replacement = body;
}

-- `at` is the location of the name.
unfoldable pub macro_head : Standard → SourceLoc → List PpToken → Head
macro_head std at [] = head (object_like [])
macro_head std at (t ∷ rest) =
    if is t "(" && not t.leading_space
    then close_parameters at
        (if first_is rest ")" then parsed [] false rest else parse_parameters std [] rest)
    else head (object_like (t ∷ rest))

abbrev pub is_empty {ℓ} : {A : Type ℓ} → List A → Bool
is_empty [] = true
is_empty (x ∷ xs) = false

abbrev pub names_parameter : List Bytes → List PpToken → Bool
names_parameter names [] = false
names_parameter names (t ∷ ts) = member t.text names

abbrev pub behind_paste : Option PpToken → Bool
behind_paste none = true
behind_paste (some t) = is t "##"

-- The error that the loop over the replacement finds, behind token `previous`.
unfoldable pub check_replacement :
    Macro → Option PpToken → List PpToken → Option (SourceLoc × Bytes)
check_replacement macro previous [] = none
check_replacement macro previous (part ∷ rest) =
    let more = check_replacement macro (some part) rest in
    if is part "##" && (behind_paste previous || is_empty rest)
    then some (part.loc, codes "'##' requires a token on each side")
    else if macro.function_like && is part "#" && not (names_parameter macro.parameters rest)
    then some (part.loc, codes "'#' must be followed by a macro parameter")
    else if is part "__VA_ARGS__" && not macro.variadic
    then some (part.loc, codes "__VA_ARGS__ is only valid in a variadic macro")
    else more

unfoldable pub same_names : List Bytes → List Bytes → Bool
same_names [] [] = true
same_names (x ∷ xs) (y ∷ ys) = same_bytes x y && same_names xs ys
same_names _ _ = false

abbrev pub same_bool : Bool → Bool → Bool
same_bool true b = b
same_bool false b = not b

-- The comparison of two replacements. The flag says that a token is the first.
unfoldable pub same_replacement : Bool → List PpToken → List PpToken → Bool
same_replacement first [] [] = true
same_replacement first (a ∷ more) (b ∷ others) =
    same_bytes a.text b.text
    && (first || same_bool a.leading_space b.leading_space)
    && same_replacement false more others
same_replacement first _ _ = false

unfoldable pub same_macro : Macro → Macro → Bool
same_macro a b =
    same_bool a.function_like b.function_like
    && same_bool a.variadic b.variadic
    && same_names a.parameters b.parameters
    && same_replacement true a.replacement b.replacement

-- Whether a definition is not the first of its name, and differs from the one before.
abbrev pub conflicts : Option Macro → Macro → Bool
conflicts none macro = false
conflicts (some previous) macro = not (same_macro previous macro)

-- The end of `define`, for the macro of token `t`.
unfoldable pub store_macro : PpToken → Macro → State → Outcome Unit
store_macro t macro p =
    if conflicts (find_macro t.text p.macros) macro
    then fail t.loc (named "incompatible redefinition of macro '" t.text "'") p
    else ok _ (record p { macros = put_macro t.text macro p.macros })

unfoldable pub define_checked : PpToken → Macro → Option (SourceLoc × Bytes) → State → Outcome Unit
define_checked t macro (some (at, message)) p = fail at message p
define_checked t macro none p = store_macro t macro p

unfoldable pub define_head : PpToken → Head → State → Outcome Unit
define_head t (bad_head at message) p = fail at message p
define_head t (head macro) p =
    define_checked t macro (check_replacement macro none macro.replacement) p

unfoldable pub define : LangOptions → List PpToken → SourceLoc → State → Outcome Unit
define options [] loc p = fail loc (codes "expected macro name after #define") p
define options (t ∷ rest) loc p =
    if not (is_identifier t) || is t "defined" || is t "__VA_ARGS__"
    then fail loc (codes "expected macro name after #define") p
    else if is_predefined options t.text
    then fail t.loc (named "cannot redefine predefined macro '" t.text "'") p
    else define_head t (macro_head options.std t.loc rest) p
