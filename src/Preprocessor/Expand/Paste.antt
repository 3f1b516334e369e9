-- ===== src/Preprocessor/Expand/Paste.antt =====
-- The part of `expand` of lib/Lex/Preprocessor.cpp for `##`.
use tensorium_cc.Prelude.{
  Bool, true, false, ◌||◌, Option, none, some, List, [], ◌∷◌, ◌++◌, if◌then◌else◌, Bytes, codes,
  same_bytes,
}
use tensorium_cc.Location.{SourceLoc}
use tensorium_cc.Diagnostic.{has_errors}
use tensorium_cc.Preprocessor.{PpToken, PpTokenKind}
use tensorium_cc.Preprocessor.Normalize.{Input}
use tensorium_cc.Preprocessor.Tokenize.{is_within, scan_input, tokenize_input}
use tensorium_cc.Preprocessor.State.{
  State, Outcome, ok, failed, out_of_range, ◌>>=◌, engine, with_engine, fail,
}
use tensorium_cc.Preprocessor.Define.{named}
use tensorium_cc.Preprocessor.Predefined.{spelling}
use tensorium_cc.Preprocessor.Expand.Arguments.{intersect}
use tensorium_cc.Preprocessor.Expand.Substitute.{Part, plain}

abbrev pub repeat : SourceLoc → Bytes → List SourceLoc
repeat at [] = []
repeat at (c ∷ text) = at ∷ repeat at text

-- Whether tokens are one that a paste may form.
abbrev pub is_pasted : List PpToken → Option PpToken
is_pasted (t ∷ []) = elim t.kind [
  | PpTokenKind.other ↦ none
  | PpTokenKind.newline ↦ none
  | _ ↦ some t
]
is_pasted _ = none

-- The input that `pasted` makes: each byte has the place of the invocation.
abbrev pub fragment : SourceLoc → Bytes → Input
fragment at text = record { text = text; locations = repeat at text; end = at }

abbrev pub begins_comment : Bytes → Bool
begins_comment text = same_bytes text (codes "/*") || same_bytes text (codes "//")

-- Whether the scanner is not called, or reads no location out of range.
unfoldable pub reads_within : Bool → SourceLoc → Bytes → Bool
reads_within allow at text = begins_comment text || is_within (scan_input allow (fragment at text))

-- A comment cannot be formed.
unfoldable pub scan_fragment : Bool → SourceLoc → Bytes → State → List PpToken × State
scan_fragment allow at text p =
    if begins_comment text
    then ([], p)
    else let (ts, d) = tokenize_input allow (fragment at text) (engine p) in (ts, with_engine d p)

unfoldable pub joined :
    SourceLoc → SourceLoc → Part → Part → Bytes → Option PpToken → State → Outcome Part
joined at context left right text none p =
    fail at (named "token paste does not form one preprocessing token: '" text "'") p
joined at context left right text (some t) p =
    ok
      (plain (record t {
        expansion_loc = context;
        leading_space = left.token.leading_space;
        spelling_locations = [];
        hide_set = intersect left.token.hide_set right.token.hide_set;
      }))
      p

-- The two parts beside a `##` as one.
unfoldable pub join_parts : Bool → SourceLoc → SourceLoc → Part → Part → State → Outcome Part
join_parts allow at context left right p =
    if left.empty
    then ok
        (record right { token = record right.token { leading_space = left.token.leading_space } }) p
    else if right.empty
    then ok left p
    else let text = spelling left.token ++ spelling right.token in
      let (ts, q) = scan_fragment allow at text p in
      elim (reads_within allow at text) [
        | true ↦
            if has_errors (engine q)
            then failed q
            else joined at context left right text (is_pasted ts) q
        | false ↦ out_of_range
      ]

-- The loop over the substituted parts. The parts of `pasted` stand with the last in front.
unfoldable pub paste_from :
    Bool → SourceLoc → SourceLoc → List Part → List Part → State → Outcome (List Part)
paste_from allow at context pasted [] p = ok pasted p
paste_from allow at context pasted (part ∷ []) p = elim part.paste [
  | true ↦ out_of_range
  | false ↦ ok (part ∷ pasted) p
]
paste_from allow at context [] (part ∷ right ∷ rest) p = elim part.paste [
  | true ↦ out_of_range
  | false ↦ paste_from allow at context (part ∷ []) (right ∷ rest) p
]
paste_from allow at context (left ∷ pasted) (part ∷ right ∷ rest) p = elim part.paste [
  | true ↦ join_parts allow at context left right p >>= λ made q.
      paste_from allow at context (made ∷ pasted) rest q
  | false ↦ paste_from allow at context (part ∷ left ∷ pasted) (right ∷ rest) p
]

abbrev pub reverse_onto {ℓ} : {A : Type ℓ} → List A → List A → List A
reverse_onto [] back = back
reverse_onto (x ∷ xs) back = reverse_onto xs (x ∷ back)

unfoldable pub paste_all : Bool → SourceLoc → SourceLoc → List Part → State → Outcome (List Part)
paste_all allow at context parts p =
    paste_from allow at context [] parts p >>= λ pasted q. ok (reverse_onto pasted []) q
