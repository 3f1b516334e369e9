-- ===== src/Preprocessor/Expand/Solid/Run.antt =====
-- The expansion (lib/Lex/Preprocessor.cpp) makes tokens with a text.
use mathlib.Core.Path.{subst}
use tensorium_cc.Prelude.{
  ◌≡◌, refl, Bool, false, Option, none, some, List, [], ◌∷◌, ◌++◌, if_ind, elim_ind, Bytes,
}
use tensorium_cc.Location.{SourceLoc}
use tensorium_cc.Diagnostic.{has_errors}
use tensorium_cc.Preprocessor.{PpToken, PpTokenKind}
use tensorium_cc.Preprocessor.Tokenize.Lexed.{tokenize_input-AllLexed}
use tensorium_cc.Preprocessor.State.{Macro, State, Setting, Outcome, ok, engine}
use tensorium_cc.Preprocessor.Predefined.{spelling}
use tensorium_cc.Preprocessor.Expand.Arguments.{
  Collected, closed, unclosed, nested, no_arguments, check_arguments,
}
use tensorium_cc.Preprocessor.Expand.Substitute.{Part, substitute}
use tensorium_cc.Preprocessor.Expand.Paste.{
  is_pasted, reads_within, scan_fragment, joined, join_parts, paste_from, reverse_onto, paste_all,
}
use tensorium_cc.Preprocessor.Expand.{
  replacement_of, or_space, put_back, Invocation, tail, invoke_closed, invoke, replace,
}
use tensorium_cc.Preprocessor.Expand.Solid.{
  Solid, AllSolid, EachSolid, SolidParts, AllLexed-AllSolid, AllSolid-append, Yields, Yields-bind,
  CollectedSolid, collect-Solid, IfSome, no_arguments-Solid, check_arguments-Solid,
}
use tensorium_cc.Preprocessor.Expand.Solid.Parts.{substitute-Solid}

kept-Solid :
    (kind : PpTokenKind) (t : PpToken)
    → Solid t
    → IfSome Solid
        (elim kind [ PpTokenKind.other ↦ none | PpTokenKind.newline ↦ none | _ ↦ some t ])
kept-Solid PpTokenKind.other t h = _
kept-Solid PpTokenKind.newline t h = _
kept-Solid PpTokenKind.identifier t h = h
kept-Solid PpTokenKind.number t h = h
kept-Solid PpTokenKind.string t h = h
kept-Solid PpTokenKind.character t h = h
kept-Solid PpTokenKind.header t h = h
kept-Solid PpTokenKind.punct t h = h

is_pasted-Solid : (ts : List PpToken) → AllSolid ts → IfSome Solid (is_pasted ts)
is_pasted-Solid [] h = _
is_pasted-Solid (t ∷ u ∷ ts) h = _
is_pasted-Solid (t ∷ []) h = kept-Solid t.kind t h.0

scan_fragment-Solid :
    (allow : Bool) (at : SourceLoc) (text : Bytes) (p : State)
    → AllSolid (scan_fragment allow at text p).0
      × (scan_fragment allow at text p).1.macros ≡ p.macros
unfolding scan_fragment
scan_fragment-Solid allow at text p =
    if_ind (λ (r : List PpToken × State). AllSolid r.0 × r.1.macros ≡ p.macros) _ (λ _. (_, refl))
      (λ _. (AllLexed-AllSolid _ (tokenize_input-AllLexed allow _ (engine p)), refl))

abbrev SolidPart : Part → Type 0
SolidPart part = Solid part.token

joined-Solid :
    (macros : List (Bytes × Macro)) (at context : SourceLoc) (left right : Part) (text : Bytes)
    (o : Option PpToken) (q : State)
    → IfSome Solid o
    → q.macros ≡ macros
    → Yields macros SolidPart (joined at context left right text o q)
unfolding joined
joined-Solid macros at context left right text none q h e = _
joined-Solid macros at context left right text (some t) q h e = (h, e)

join_parts-Solid :
    (allow : Bool) (at context : SourceLoc) (left right : Part) (p : State)
    → SolidPart left
    → SolidPart right
    → Yields p.macros SolidPart (join_parts allow at context left right p)
unfolding join_parts
join_parts-Solid allow at context left right p h k =
    let P = Yields p.macros SolidPart in
    if_ind P left.empty (λ _. (k, refl))
      λ _.
        if_ind P right.empty (λ _. (h, refl))
          λ _.
            let text = spelling left.token ++ spelling right.token in
            let scan = scan_fragment allow at text p in
            let (solid, same) = scan_fragment-Solid allow at text p in
            elim_ind P (reads_within allow at text)
              (λ _.
                if_ind P (has_errors (engine scan.1)) (λ _. _)
                  (λ _.
                    joined-Solid p.macros at context left right text (is_pasted scan.0) scan.1
                      (is_pasted-Solid scan.0 solid) same))
              (λ _. _)

module _ (macros : List (Bytes × Macro)) (allow : Bool) (at context : SourceLoc) where
  paste_from-Solid :
      (parts pasted : List Part) (p : State)
      → SolidParts parts
      → SolidParts pasted
      → p.macros ≡ macros
      → Yields macros SolidParts (paste_from allow at context pasted parts p)
  unfolding paste_from
  paste_from-Solid [] pasted p h k e = (k, e)
  paste_from-Solid (part ∷ []) pasted p h k e =
      elim_ind (Yields macros SolidParts) part.paste (λ _. _) (λ _. ((h.0, k), e))
  paste_from-Solid (part ∷ right ∷ rest) [] p h k e =
      elim_ind (Yields macros SolidParts) part.paste (λ _. _)
        (λ _. paste_from-Solid (right ∷ rest) (part ∷ []) p h.1 (h.0, _) e)
  paste_from-Solid (part ∷ right ∷ rest) (left ∷ pasted) p h k e =
      elim_ind (Yields macros SolidParts) part.paste
        (λ _.
          Yields-bind macros SolidPart SolidParts (join_parts allow at context left right p)
            (λ made q. paste_from allow at context (made ∷ pasted) rest q)
            (subst (λ ms. Yields ms SolidPart (join_parts allow at context left right p)) e
              (join_parts-Solid allow at context left right p k.0 h.1.0))
            (λ made q s e'. paste_from-Solid rest (made ∷ pasted) q h.1.1 (s, k.1) e'))
        (λ _. paste_from-Solid (right ∷ rest) (part ∷ left ∷ pasted) p h.1 (h.0, k) e)

  reverse_onto-Solid :
      (ps qs : List Part) → SolidParts ps → SolidParts qs → SolidParts (reverse_onto ps qs)
  reverse_onto-Solid [] qs h k = k
  reverse_onto-Solid (p ∷ ps) qs h k = reverse_onto-Solid ps (p ∷ qs) h.1 (h.0, k)

  paste_all-Solid :
      (parts : List Part) (p : State)
      → SolidParts parts
      → p.macros ≡ macros
      → Yields macros SolidParts (paste_all allow at context parts p)
  unfolding paste_all
  paste_all-Solid parts p h e =
      Yields-bind macros SolidParts SolidParts (paste_from allow at context [] parts p)
        (λ pasted q. ok (reverse_onto pasted []) q) (paste_from-Solid parts [] p h _ e)
        (λ pasted q s e'. (reverse_onto-Solid pasted [] s _, e'))

replacement_of-Solid :
    (hide : List Bytes) (parts : List Part)
    → SolidParts parts
    → AllSolid (replacement_of hide parts)
unfolding replacement_of
replacement_of-Solid hide [] h = _
replacement_of-Solid hide (part ∷ parts) h =
    if_ind AllSolid part.empty (λ _. replacement_of-Solid hide parts h.1)
      (λ _. (h.0, replacement_of-Solid hide parts h.1))

or_space-Solid : (t : PpToken) (ts : List PpToken) → AllSolid ts → AllSolid (or_space t ts)
or_space-Solid t [] h = _
or_space-Solid t (first ∷ rest) h = h

put_back-Solid :
    (t : PpToken) (ts pending : List PpToken)
    → AllSolid ts
    → AllSolid pending
    → AllSolid (put_back t ts pending)
unfolding put_back
put_back-Solid t [] pending h k = or_space-Solid t pending k
put_back-Solid t (first ∷ rest) pending h k = (h.0, AllSolid-append rest pending h.1 k)

abbrev Called : Invocation → Type 0
Called call = EachSolid call.arguments × AllSolid call.pending

invoke_closed-Solid :
    (macro : Macro) (t : PpToken) (c : Collected) (p : State)
    → CollectedSolid c
    → Yields p.macros Called (invoke_closed macro t c p)
unfolding invoke_closed
invoke_closed-Solid macro t unclosed p h = _
invoke_closed-Solid macro t (closed lists commas end rest) p h =
    Yields-bind p.macros EachSolid Called
      (check_arguments macro t (no_arguments macro lists) commas p) _
      (check_arguments-Solid macro t (no_arguments macro lists) commas p
        (no_arguments-Solid macro lists h.0) h.1)
      (λ values q s e. ((s, h.2), e))

tail-Solid : (ts : List PpToken) → AllSolid ts → AllSolid (tail ts)
tail-Solid [] h = _
tail-Solid (t ∷ ts) h = h.1

invoke-Solid :
    (macro : Macro) (t : PpToken) (rest : List PpToken) (p : State)
    → AllSolid rest
    → Yields p.macros Called (invoke macro t rest p)
unfolding invoke
invoke-Solid macro t rest p h =
    if_ind (Yields p.macros Called) macro.function_like
      (λ _. invoke_closed-Solid macro t _ p (collect-Solid 0 [] (tail rest) _ (tail-Solid rest h)))
      (λ _. ((_, h), refl))

pub replace-Solid :
    (set : Setting) (nested : List PpToken → State → Outcome (List PpToken)) (macro : Macro)
    (t : PpToken) (rest : List PpToken) (p : State)
    → AllSolid macro.replacement
    → AllSolid rest
    → ((input : List PpToken) (q : State)
        → AllSolid input
        → q.macros ≡ p.macros
        → Yields p.macros AllSolid (nested input q))
    → Yields p.macros AllSolid (replace set nested macro t rest p)
unfolding replace
replace-Solid set nested macro t rest p m h n =
    Yields-bind p.macros Called AllSolid (invoke macro t rest p) _ (invoke-Solid macro t rest p h)
      λ call q c e.
        Yields-bind p.macros SolidParts AllSolid
          (substitute nested macro t.loc call.context call.arguments false false macro.replacement
            [] q)
          _
          (substitute-Solid p.macros nested macro t.loc call.context call.arguments n c.0
            macro.replacement m false false [] q _ e)
          λ parts r s e'.
            Yields-bind p.macros SolidParts AllSolid
              (paste_all set.options.allow_line_comments t.loc call.context parts r) _
              (paste_all-Solid p.macros set.options.allow_line_comments t.loc call.context parts r s
                e')
              (λ pasted r' s' e''. (
                put_back-Solid t (replacement_of call.hide pasted) call.pending
                    (replacement_of-Solid call.hide pasted s') c.1,
                e'',
              ))
