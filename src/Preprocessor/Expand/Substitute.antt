-- ===== src/Preprocessor/Expand/Substitute.antt =====
-- The part of `expand` of lib/Lex/Preprocessor.cpp that puts the arguments into the replacement.
use tensorium_cc.Prelude.{
  ℕ, suc, Bool, true, false, not, ◌&&◌, ◌||◌, Option, none, some, List, [], ◌∷◌, ◌++◌, ◌==◌,
  if◌then◌else◌, length, get_elem?, Bytes, same_bytes,
}
use tensorium_cc.Location.{SourceLoc}
use tensorium_cc.Preprocessor.{PpToken, PpTokenKind}
use tensorium_cc.Preprocessor.State.{
  Macro, State, Outcome, ok, failed, out_of_range, out_of_fuel, ◌>>=◌,
}
use tensorium_cc.Preprocessor.Define.{is, is_identifier, first_is}
use tensorium_cc.Preprocessor.Predefined.{stringify}

pub record Part : Type 0 where
  pub token : PpToken
  pub paste : Bool
  pub empty : Bool

abbrev pub plain : PpToken → Part
plain t = record { token = t; paste = false; empty = false }

-- Where `std::find` stops.
unfoldable pub index_of : Bytes → List Bytes → ℕ
index_of name [] = 0
index_of name (other ∷ names) = if same_bytes other name then 0 else suc (index_of name names)

-- The lambda `parameter`.
unfoldable pub parameter_index : Macro → PpToken → ℕ
parameter_index macro t =
    if is_identifier t then index_of t.text macro.parameters else length macro.parameters

-- What the loop does with a token: `#` turns an argument into a string, `##` stands for itself, and a
-- parameter gives its argument, which is expanded where no `##` stands beside it.
pub data Action : Type 0 where
  stringizing : ℕ → Action
  no_parameter : Action
  pasting copying : Action
  argument : ℕ → (pasted : Bool) → Action

abbrev pub hash : Macro → List PpToken → Action
hash macro [] = no_parameter
hash macro (t ∷ ts) = stringizing (parameter_index macro t)

-- `behind` says that the token in front is `##`.
unfoldable pub action : Macro → (behind : Bool) → PpToken → List PpToken → Action
action macro behind t rest =
    if macro.function_like && is t "#"
    then hash macro rest
    else if is t "##"
    then pasting
    else if not macro.function_like || parameter_index macro t == length macro.parameters
    then copying
    else argument (parameter_index macro t) (behind || first_is rest "##")

-- `expanded` and `prepared`: the arguments that were expanded.
abbrev pub Prepared : Type 0
Prepared = List (ℕ × List PpToken)

unfoldable pub find_prepared : ℕ → Prepared → Option (List PpToken)
find_prepared index [] = none
find_prepared index ((other, value) ∷ rest) =
    if other == index then some value else find_prepared index rest

-- The tokens of an argument, where the parameter stood.
abbrev pub rest_of_argument : List PpToken → List Part
rest_of_argument [] = []
rest_of_argument (t ∷ ts) = plain t ∷ rest_of_argument ts

unfoldable pub insert_argument : PpToken → Bool → List PpToken → List Part
insert_argument part pasted [] =
    if pasted then record { token = part; paste = false; empty = true } ∷ [] else []
insert_argument part pasted (t ∷ ts) =
    plain (record t { leading_space = part.leading_space }) ∷ rest_of_argument ts

-- A token of the replacement, at the invocation.
abbrev pub moved : SourceLoc → SourceLoc → PpToken → PpToken
moved at context t = record t { loc = at; expansion_loc = context; spelling_locations = [] }

-- The parts in front of what a run appends.
abbrev pub prepend : List Part → Outcome (List Part) → Outcome (List Part)
prepend parts (ok more p) = ok (parts ++ more) p
prepend parts (failed p) = failed p
prepend parts out_of_range = out_of_range
prepend parts out_of_fuel = out_of_fuel

-- `expanded[index]`, computed where it is not there yet.
unfoldable pub prepare :
    (List PpToken → State → Outcome (List PpToken))
    → ℕ
    → List PpToken
    → Prepared
    → State
    → Option (List PpToken)
    → Outcome (List PpToken × Prepared)
prepare expand index value prepared p (some ready) = ok (ready, prepared) p
prepare expand index value prepared p none =
    expand value p >>= λ ready q. ok (ready, (index, ready) ∷ prepared) q

-- An argument before its parameter is replaced: expanded once, if no `##` stands beside it.
unfoldable pub value_of :
    (List PpToken → State → Outcome (List PpToken))
    → List (List PpToken)
    → ℕ
    → Bool
    → Prepared
    → State
    → Outcome (List PpToken × Prepared)
value_of expand arguments index pasted prepared p = elim (get_elem? arguments index) [
  | none ↦ out_of_range
  | some value ↦ elim pasted [
    | true ↦ ok (value, prepared) p
    | false ↦ prepare expand index value prepared p (find_prepared index prepared)
  ]
]

abbrev pub string_of : PpToken → List PpToken → PpToken
string_of part value = record part {
  kind = PpTokenKind.string;
  text = stringify value;
  original_spelling = [];
}

abbrev pub string_part : PpToken → Option (List PpToken) → Option Part
string_part part none = none
string_part part (some value) = some (plain (string_of part value))

abbrev pub with_part : Option Part → Outcome (List Part) → Outcome (List Part)
with_part none more = out_of_range
with_part (some part) more = prepend (part ∷ []) more

module _ (expand : List PpToken → State → Outcome (List PpToken)) (macro : Macro)
    (at context : SourceLoc) (arguments : List (List PpToken)) where
  -- The loop over the replacement. `skipped` says that a `#` took the token, `behind` that the one in
  -- front is `##`.
  unfoldable pub substitute :
      (skipped behind : Bool) → List PpToken → Prepared → State → Outcome (List Part)
  substitute skipped behind [] prepared p = ok [] p
  substitute true behind (t ∷ rest) prepared p = substitute false (is t "##") rest prepared p
  substitute false behind (t ∷ rest) prepared p =
      let part = moved at context t in
      elim (action macro behind t rest) [
        | stringizing index ↦
            with_part (string_part part (get_elem? arguments index))
              (substitute true false rest prepared p)
        | no_parameter ↦ out_of_range
        | pasting ↦
            prepend (record { token = part; paste = true; empty = false } ∷ [])
              (substitute false true rest prepared p)
        | copying ↦ prepend (plain part ∷ []) (substitute false false rest prepared p)
        | argument index pasted ↦
            value_of expand arguments index pasted prepared p >>= λ (value, ready) q.
            prepend (insert_argument part pasted value) (substitute false false rest ready q)
      ]
