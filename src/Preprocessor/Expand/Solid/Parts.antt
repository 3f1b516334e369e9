-- ===== src/Preprocessor/Expand/Solid/Parts.antt =====
-- The parts of a replacement (lib/Lex/Preprocessor.cpp) have a text.
use tensorium_cc.Prelude.{
  ℕ, zero, suc, ◌≡◌, refl, Bool, true, false, Option, none, some, List, [], ◌∷◌, ◌==◌, if_ind,
  elim_ind, get_elem?, Bytes,
}
use tensorium_cc.Location.{SourceLoc}
use tensorium_cc.Preprocessor.{PpToken}
use tensorium_cc.Preprocessor.State.{Macro, State, Outcome, ok, failed, out_of_range, out_of_fuel}
use tensorium_cc.Preprocessor.Define.{is}
use tensorium_cc.Preprocessor.Predefined.{stringify}
use tensorium_cc.Preprocessor.Expand.Substitute.{
  Part, plain, Action, stringizing, no_parameter, pasting, copying, argument, action, Prepared,
  insert_argument, rest_of_argument, moved, prepend, prepare, value_of, find_prepared, string_of,
  string_part, with_part, substitute,
}
use tensorium_cc.Preprocessor.Expand.Solid.{
  Solid, AllSolid, EachSolid, SolidParts, SolidParts-append, Yields, Yields-bind, IfSome,
}

abbrev PreparedSolid : Prepared → Type 0
PreparedSolid [] = Unit
PreparedSolid ((index, value) ∷ rest) = AllSolid value × PreparedSolid rest

find_prepared-Solid :
    (index : ℕ) (prepared : Prepared)
    → PreparedSolid prepared
    → IfSome AllSolid (find_prepared index prepared)
unfolding find_prepared
find_prepared-Solid index [] h = _
find_prepared-Solid index ((other, value) ∷ rest) h =
    if_ind (IfSome AllSolid) (other == index) (λ _. h.0) (λ _. find_prepared-Solid index rest h.1)

get_elem?-Solid :
    (lists : List (List PpToken)) (n : ℕ) → EachSolid lists → IfSome AllSolid (get_elem? lists n)
get_elem?-Solid [] n h = _
get_elem?-Solid (ts ∷ lists) zero h = h.0
get_elem?-Solid (ts ∷ lists) (suc n) h = get_elem?-Solid lists n h.1

rest_of_argument-Solid : (ts : List PpToken) → AllSolid ts → SolidParts (rest_of_argument ts)
rest_of_argument-Solid [] h = _
rest_of_argument-Solid (t ∷ ts) h = (h.0, rest_of_argument-Solid ts h.1)

insert_argument-Solid :
    (part : PpToken) (pasted : Bool) (value : List PpToken)
    → Solid part
    → AllSolid value
    → SolidParts (insert_argument part pasted value)
unfolding insert_argument
insert_argument-Solid part true [] h k = (h, _)
insert_argument-Solid part false [] h k = _
insert_argument-Solid part pasted (t ∷ ts) h k = (k.0, rest_of_argument-Solid ts k.1)

module _ (macros : List (Bytes × Macro)) (expand : List PpToken → State → Outcome (List PpToken))
    (macro : Macro) (at context : SourceLoc) (arguments : List (List PpToken))
    (expands : (input : List PpToken) (q : State)
      → AllSolid input
      → q.macros ≡ macros
      → Yields macros AllSolid (expand input q))
    (solid : EachSolid arguments) where
  abbrev Value : List PpToken × Prepared → Type 0
  Value (value, ready) = AllSolid value × PreparedSolid ready

  prepare-Solid :
      (index : ℕ) (value : List PpToken) (prepared : Prepared) (p : State)
      (o : Option (List PpToken))
      → AllSolid value
      → PreparedSolid prepared
      → IfSome AllSolid o
      → p.macros ≡ macros
      → Yields macros Value (prepare expand index value prepared p o)
  unfolding prepare
  prepare-Solid index value prepared p (some ready) h k l e = ((l, k), e)
  prepare-Solid index value prepared p none h k l e =
      Yields-bind macros AllSolid Value (expand value p)
        (λ ready q. ok (ready, (index, ready) ∷ prepared) q) (expands value p h e)
        (λ ready q s e'. ((s, (s, k)), e'))

  value_of-Solid :
      (index : ℕ) (pasted : Bool) (prepared : Prepared) (p : State) (o : Option (List PpToken))
      → get_elem? arguments index ≡ o
      → IfSome AllSolid o
      → PreparedSolid prepared
      → p.macros ≡ macros
      → Yields macros Value (value_of expand arguments index pasted prepared p)
  unfolding value_of
  value_of-Solid index pasted prepared p none found h k e = rw (value_of, found) _
  value_of-Solid index pasted prepared p (some value) found h k e =
      rw (value_of, found)
        (elim_ind (Yields macros Value) pasted (λ _. ((h, k), e))
          (λ _.
            prepare-Solid index value prepared p _ h k (find_prepared-Solid index prepared k) e))

  prepend-Solid :
      (parts : List Part) (m : Outcome (List Part))
      → SolidParts parts
      → Yields macros SolidParts m
      → Yields macros SolidParts (prepend parts m)
  prepend-Solid parts (ok more p) h k = (SolidParts-append parts more h k.0, k.1)
  prepend-Solid parts (failed p) h k = _
  prepend-Solid parts out_of_range h k = _
  prepend-Solid parts out_of_fuel h k = _

  with_part-Solid :
      (part : PpToken) (o : Option (List PpToken)) (m : Outcome (List Part))
      → Yields macros SolidParts m
      → Yields macros SolidParts (with_part (string_part part o) m)
  unfolding stringify
  with_part-Solid part none m k = _
  with_part-Solid part (some value) m k =
      prepend-Solid (plain (string_of part value) ∷ []) m (refl, _) k

  abbrev Substitutes : List PpToken → Type 0
  Substitutes ts =
      (skipped behind : Bool) (prepared : Prepared) (p : State)
      → PreparedSolid prepared
      → p.macros ≡ macros
      → Yields macros SolidParts
          (substitute expand macro at context arguments skipped behind ts prepared p)

  perform-Solid :
      (behind : Bool) (t : PpToken) (rest : List PpToken) (prepared : Prepared) (p : State)
      (act : Action)
      → action macro behind t rest ≡ act
      → Solid t
      → PreparedSolid prepared
      → p.macros ≡ macros
      → Substitutes rest
      → Yields macros SolidParts
          (substitute expand macro at context arguments false behind (t ∷ rest) prepared p)
  unfolding substitute
  perform-Solid behind t rest prepared p (stringizing index) e s k m more =
      rw (substitute, e)
        (with_part-Solid (moved at context t) (get_elem? arguments index) _
          (more true false prepared p k m))
  perform-Solid behind t rest prepared p no_parameter e s k m more = rw (substitute, e) _
  perform-Solid behind t rest prepared p pasting e s k m more =
      rw (substitute, e) (prepend-Solid (_ ∷ []) _ (s, _) (more false true prepared p k m))
  perform-Solid behind t rest prepared p copying e s k m more =
      rw (substitute, e) (prepend-Solid (_ ∷ []) _ (s, _) (more false false prepared p k m))
  perform-Solid behind t rest prepared p (argument index pasted) e s k m more =
      rw (substitute, e)
        (Yields-bind macros Value SolidParts (value_of expand arguments index pasted prepared p) _
          (value_of-Solid index pasted prepared p (get_elem? arguments index) refl
            (get_elem?-Solid arguments index solid) k m)
          λ (value, ready) q v m'.
            prepend-Solid (insert_argument (moved at context t) pasted value) _
              (insert_argument-Solid (moved at context t) pasted value s v.0)
              (more false false ready q v.1 m'))

  pub substitute-Solid : (ts : List PpToken) → AllSolid ts → Substitutes ts
  unfolding substitute
  substitute-Solid [] h true behind prepared p k m = (_, m)
  substitute-Solid [] h false behind prepared p k m = (_, m)
  substitute-Solid (t ∷ rest) h true behind prepared p k m =
      substitute-Solid rest h.1 false (is t "##") prepared p k m
  substitute-Solid (t ∷ rest) h false behind prepared p k m =
      perform-Solid behind t rest prepared p (action macro behind t rest) refl h.0 k m
        (substitute-Solid rest h.1)
