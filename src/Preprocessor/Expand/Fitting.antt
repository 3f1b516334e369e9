-- ===== src/Preprocessor/Expand/Fitting.antt =====
-- What the actions of the loop over a replacement (lib/Lex/Preprocessor.cpp) rely on.
use tensorium_cc.Prelude.{
  ◌≤◌, ◌<◌, ◌≡◌, ◌⊎◌, refl, sym, ◌∙◌, Bool, true, false, not, ◌&&◌, ◌||◌, Option, some, List, [],
  ◌∷◌, ◌==◌, if_ind, or_false, not-false, Bool-cases, inl, inr, length, and_left, and_right, arith,
}
use mathlib.Core.Bool.{true≢false}
use tensorium_cc.Preprocessor.{PpToken}
use tensorium_cc.Preprocessor.State.{Macro}
use tensorium_cc.Preprocessor.Define.{is, is_identifier, first_is, names_parameter}
use tensorium_cc.Preprocessor.Define.Valid.{AllFit, AllLexed, Identifiers}
use tensorium_cc.Preprocessor.Expand.Substitute.{
  index_of, parameter_index, Action, stringizing, no_parameter, pasting, copying, argument, hash,
  action,
}
use tensorium_cc.Preprocessor.Expand.Joinable.{
  Place, Ready, behind_hashes, behind_part, hashes_plain, index_of-member, is_ident-other,
  member-starts_ident, parameter_index_bound, start,
}

-- What an action is good for, behind a place and in front of `rest`.
abbrev pub Fitting : List (List PpToken) → Place → Bool → List PpToken → Action → Type 0
Fitting arguments place behind rest (stringizing index) =
    index < length arguments × first_is rest "##" ≡ false
Fitting arguments place behind rest no_parameter = ⊥
Fitting arguments place behind rest pasting = place ≡ behind_part × Ready behind_hashes true rest
Fitting arguments place behind rest copying = Unit
Fitting arguments place behind rest (argument index pasted) =
    index < length arguments
    × (pasted ≡ true ⊎ (pasted ≡ false × first_is rest "##" ≡ false × (place ≡ behind_hashes → ⊥)))

module _ (macro : Macro) (arguments : List (List PpToken))
    (identifiers : Identifiers macro.parameters)
    (count : macro.function_like ≡ true → length arguments ≡ length macro.parameters) where
  parameter_index-bound :
      (t : PpToken)
      → is_identifier t ≡ true
      → index_of t.text macro.parameters < length arguments
      → parameter_index macro t < length arguments
  unfolding parameter_index
  parameter_index-bound t e h = rw e h

  hash-Fitting :
      (place : Place) (behind : Bool) (rest : List PpToken)
      → macro.function_like ≡ true
      → AllLexed rest
      → names_parameter macro.parameters rest ≡ true
      → Fitting arguments place behind rest (hash macro rest)
  hash-Fitting place behind [] f l h = cc
  hash-Fitting place behind (t ∷ rest) f l h =
      let identifier : is_identifier t ≡ true =
        sym l.0.0 ∙ member-starts_ident t.text macro.parameters identifiers h in
      let bound = index_of-member t.text macro.parameters h in
      (
        parameter_index-bound t identifier (omega (arith, bound, count f)),
        is_ident-other t "##" (member-starts_ident t.text macro.parameters identifiers h)
            hashes_plain,
      )

  -- Behind a `##` stands no other.
  next_hashes :
      (t : PpToken) (rest : List PpToken)
      → AllFit macro (some t) rest
      → is t "##" ≡ true
      → first_is rest "##" ≡ false
  next_hashes t [] fits h = refl
  next_hashes t (next ∷ rest) (fit, fits) h = elim (Bool-cases (is next "##")) [
    | inl e ↦ absurd (true≢false (sym h ∙ (fit.pastes e).0))
    | inr e ↦ e
  ]

  pasting-Fitting :
      (place : Place) (behind : Bool) (t : PpToken) (rest : List PpToken)
      → Ready place behind (t ∷ rest)
      → is t "##" ≡ true
      → place ≡ behind_part
  pasting-Fitting start behind t rest ready h = absurd (true≢false (sym h ∙ ready.1))
  pasting-Fitting behind_part behind t rest ready h = refl
  pasting-Fitting behind_hashes behind t rest ready h = absurd (true≢false (sym h ∙ ready.1))

  -- Where the token in front is not `##`, the parts do not end in one.
  not_behind :
      (place : Place) (behind : Bool) (ts : List PpToken)
      → Ready place behind ts
      → behind ≡ false
      → place ≡ behind_hashes
      → ⊥
  not_behind start behind ts ready h e = ground (arith, e)
  not_behind behind_part behind ts ready h e = ground (arith, e)
  not_behind behind_hashes behind ts ready h e = true≢false (sym ready.2 ∙ h)

  -- A parameter beside no `##` stands where the parts do not end in one.
  beside :
      (place : Place) (behind : Bool) (t : PpToken) (rest : List PpToken)
      → Ready place behind (t ∷ rest)
      → ((behind || first_is rest "##") ≡ true)
        ⊎ ((behind || first_is rest "##") ≡ false
            × first_is rest "##" ≡ false
            × (place ≡ behind_hashes → ⊥))
  beside place behind t rest ready = elim (Bool-cases (behind || first_is rest "##")) [
    | inl e ↦ inl e
    | inr e ↦
        let (front, back) = or_false behind (first_is rest "##") e in
        inr (e, back, not_behind place behind (t ∷ rest) ready front)
  ]

  parameter-bound :
      (t : PpToken)
      → macro.function_like ≡ true
      → (parameter_index macro t == length macro.parameters) ≡ false
      → parameter_index macro t < length arguments
  parameter-bound t f h =
      let bound : parameter_index macro t ≤ length macro.parameters =
        parameter_index_bound macro t in
      ground (arith, h, bound, count f)

  pub action-Fitting :
      (place : Place) (behind : Bool) (t : PpToken) (rest : List PpToken)
      (previous : Option PpToken)
      → AllFit macro previous (t ∷ rest)
      → AllLexed rest
      → Ready place behind (t ∷ rest)
      → Fitting arguments place behind rest (action macro behind t rest)
  unfolding action
  action-Fitting place behind t rest previous (fit, fits) lexed ready =
      let P = Fitting arguments place behind rest in
      if_ind P (macro.function_like && is t "#")
        (λ h.
          let f = and_left macro.function_like (is t "#") h in
          hash-Fitting place behind rest f lexed
            (fit.stringizes f (and_right macro.function_like (is t "#") h)))
        λ _.
          if_ind P (is t "##")
            (λ h. (
              pasting-Fitting place behind t rest ready h,
              ((fit.pastes h).1, next_hashes t rest fits h, refl),
            ))
            λ _.
              if_ind P
                (not macro.function_like || parameter_index macro t == length macro.parameters)
                (λ _. _)
                λ h. (
                  parameter-bound t (not-false _ (or_false _ _ h).0) (or_false _ _ h).1,
                  beside place behind t rest ready,
                )
