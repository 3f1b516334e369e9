-- ===== src/Preprocessor/Expand.antt =====
-- `expand` of lib/Lex/Preprocessor.cpp: the scan that replaces macros.
pub mod Arguments
pub mod Substitute
pub mod Paste
pub mod Ends
pub mod Joinable
pub mod Fitting
pub mod Substituting
pub mod Replacing
pub mod Returns
pub mod Solid
use tensorium_cc.Prelude.{
  ℕ, zero, suc, ◌+◌, ◌-◌, Bool, true, false, not, ◌&&◌, ◌||◌, Option, none, some, List, [], ◌∷◌,
  ◌++◌, ltb, leb, if◌then◌else◌, length, Bytes, String, codes,
}
use tensorium_cc.Location.{SourceLoc}
use tensorium_cc.Preprocessor.{PpToken, PpTokenKind}
use tensorium_cc.Preprocessor.State.{
  Macro, State, Setting, Outcome, ok, failed, out_of_range, out_of_fuel, ◌>>=◌, fail, find_macro,
  member, is_predefined,
}
use tensorium_cc.Preprocessor.Define.{is, is_identifier, first_is, named}
use tensorium_cc.Preprocessor.Predefined.{context_of, predefined}
use Arguments.{Collected, closed, unclosed, collect, intersect, no_arguments, check_arguments}
use Substitute.{Part, substitute}
use Paste.{paste_all}

-- `hideSet.insert(name)`, and the insertion of a whole set.
unfoldable pub add_name : Bytes → List Bytes → List Bytes
add_name name names = if member name names then names else name ∷ names

unfoldable pub add_names : List Bytes → List Bytes → List Bytes
add_names [] names = names
add_names (name ∷ more) names = add_name name (add_names more names)

-- The tokens of the parts that are not empty, under a hide set.
unfoldable pub replacement_of : List Bytes → List Part → List PpToken
replacement_of hide [] = []
replacement_of hide (part ∷ parts) =
    let more = replacement_of hide parts in
    if part.empty
    then more
    else record part.token { hide_set = add_names hide part.token.hide_set } ∷ more

abbrev or_space : PpToken → List PpToken → List PpToken
or_space t [] = []
or_space t (first ∷ rest) =
    record first { leading_space = first.leading_space || t.leading_space } ∷ rest

-- `pending` behind the replacement of token `t`.
unfoldable pub put_back : PpToken → List PpToken → List PpToken → List PpToken
put_back t [] pending = or_space t pending
put_back t (first ∷ rest) pending =
    record first { leading_space = t.leading_space } ∷ rest ++ pending

-- `++_expansions`, and what the limit is.
abbrev pub counted : State → State
counted p = record p { expansions = p.expansions + 1 }

abbrev pub limit : ℕ
limit = 100000

abbrev pub too_deep : Bytes
too_deep = codes "macro expansion limit exceeded"

-- What an invocation has read: the arguments, the hide set and the context of the replacement, and the
-- tokens behind it.
pub record Invocation : Type 0 where
  pub arguments : List (List PpToken)
  pub hide : List Bytes
  pub context : SourceLoc
  pub pending : List PpToken

abbrev pub tail : List PpToken → List PpToken
tail [] = []
tail (t ∷ ts) = ts

unfoldable pub invoke_closed : Macro → PpToken → Collected → State → Outcome Invocation
invoke_closed macro t unclosed p =
    fail t.loc (named "unterminated invocation of macro '" t.text "'") p
invoke_closed macro t (closed arguments commas end rest) p =
    check_arguments macro t (no_arguments macro arguments) commas p >>= λ values q.
    ok
      (record {
        arguments = values;
        hide = add_name t.text (intersect t.hide_set end.hide_set);
        context = context_of end;
        pending = rest;
      })
      q

-- `rest` is `pending` behind the macro's name `t`.
unfoldable pub invoke : Macro → PpToken → List PpToken → State → Outcome Invocation
invoke macro t rest p =
    if macro.function_like
    then invoke_closed macro t (collect 0 [] (tail rest)) p
    else ok
        (record {
          arguments = [];
          hide = add_name t.text t.hide_set;
          context = context_of t;
          pending = rest;
        })
        p

-- One replacement, up to the tokens that are scanned next.
unfoldable pub replace :
    Setting
    → (List PpToken → State → Outcome (List PpToken))
    → Macro
    → PpToken
    → List PpToken
    → State
    → Outcome (List PpToken)
replace set nested macro t rest p = invoke macro t rest p >>= λ call q.
    substitute nested macro t.loc call.context call.arguments false false macro.replacement [] q
    >>= λ parts r.
        paste_all set.options.allow_line_comments t.loc call.context parts r >>= λ pasted s.
        ok (put_back t (replacement_of call.hide pasted) call.pending) s

-- What a round does with token `t`.
pub data Round : Type 0 where
  copied builtin : Round
  invoked : Macro → Round

unfoldable pub round_of_macro : Option Macro → List PpToken → Round
round_of_macro none rest = copied
round_of_macro (some macro) rest =
    if macro.function_like && not (first_is rest "(") then copied else invoked macro

unfoldable pub round : Setting → PpToken → List PpToken → State → Round
round set t rest p =
    if not (is_identifier t) || member t.text t.hide_set
    then copied
    else if is_predefined set.options t.text
    then builtin
    else round_of_macro (find_macro t.text p.macros) rest

abbrev pub append_output : PpToken → Outcome (List PpToken) → Outcome (List PpToken)
append_output t (ok ts p) = ok (t ∷ ts) p
append_output t (failed p) = failed p
append_output t out_of_range = out_of_range
append_output t out_of_fuel = out_of_fuel

abbrev pub first_or : SourceLoc → List PpToken → SourceLoc
first_or end [] = end
first_or end (t ∷ ts) = t.loc

-- The limit on the depth.
abbrev pub within_depth :
    ℕ → List PpToken → (State → Outcome (List PpToken)) → State → Outcome (List PpToken)
within_depth depth input run p = elim (leb 128 depth) [
  | true ↦ fail (first_or p.end input) too_deep p
  | false ↦ run p
]

-- The loop over `pending`: what it appends to `output`. The fuel bounds the invocations.
unfoldable pub expand_from : Setting → ℕ → ℕ → List PpToken → State → Outcome (List PpToken)
expand_from set fuel depth [] p = ok [] p
expand_from set zero depth (t ∷ rest) p = elim (round set t rest p) [
  | copied ↦ append_output t (expand_from set zero depth rest p)
  | builtin ↦ elim (ltb limit (p.expansions + 1)) [
    | true ↦ fail t.loc too_deep (counted p)
    | false ↦ append_output (predefined set t) (expand_from set zero depth rest (counted p))
  ]
  | invoked macro ↦ elim (leb 128 (length t.hide_set)) [
    | true ↦ fail t.loc too_deep p
    | false ↦ elim (ltb limit (p.expansions + 1)) [
      | true ↦ fail t.loc too_deep (counted p)
      | false ↦ out_of_fuel
    ]
  ]
]
expand_from set (suc fuel) depth (t ∷ rest) p = elim (round set t rest p) [
  | copied ↦ append_output t (expand_from set (suc fuel) depth rest p)
  | builtin ↦ elim (ltb limit (p.expansions + 1)) [
    | true ↦ fail t.loc too_deep (counted p)
    | false ↦ append_output (predefined set t) (expand_from set (suc fuel) depth rest (counted p))
  ]
  | invoked macro ↦ elim (leb 128 (length t.hide_set)) [
    | true ↦ fail t.loc too_deep p
    | false ↦ elim (ltb limit (p.expansions + 1)) [
      | true ↦ fail t.loc too_deep (counted p)
      | false ↦
          replace set
            (λ input q.
              within_depth (depth + 1) input (λ r. expand_from set fuel (depth + 1) input r) q)
            macro t rest (counted p)
          >>= λ pending q. expand_from set fuel depth pending q
    ]
  ]
]

-- Every invocation counts, and from `limit` on none is left.
unfoldable pub expand : Setting → List PpToken → State → Outcome (List PpToken)
expand set input p = expand_from set (limit + 1 - p.expansions) 0 input p
