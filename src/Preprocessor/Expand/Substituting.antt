-- ===== src/Preprocessor/Expand/Substituting.antt =====
-- The loop over a replacement (lib/Lex/Preprocessor.cpp) stays in range, and its parts can be joined.
use tensorium_cc.Prelude.{
  ℕ, ◌<◌, ◌≡◌, ◌⊎◌, refl, Bool, true, false, Option, none, some, List, [], ◌∷◌, ◌++◌, elim_ind, inl,
  inr, length,
}
use mathlib.Core.Bool.{true≢false}
use tensorium_cc.Location.{SourceLoc}
use tensorium_cc.Preprocessor.{PpToken}
use tensorium_cc.Preprocessor.State.{Macro, State, Outcome, ok, failed, out_of_range, out_of_fuel}
use tensorium_cc.Preprocessor.Define.{first_is}
use tensorium_cc.Preprocessor.Define.Valid.{AllFit, AllLexed, Identifiers}
use tensorium_cc.Preprocessor.Expand.Substitute.{
  Part, Action, stringizing, no_parameter, pasting, copying, argument, action, Prepared,
  insert_argument, moved, prepend, value_of, find_prepared, prepare, string_of, substitute,
}
use tensorium_cc.Preprocessor.Ends.{Ends, Ends-bind}
use tensorium_cc.Preprocessor.Expand.Ends.{Grown, Broken}
use tensorium_cc.Preprocessor.Expand.Joinable.{
  Joinable, Joinable-insert_argument, Joinable-plain, Place, Ready, behind_hashes, behind_part,
  get_elem?-some, next_place, start,
}
use tensorium_cc.Preprocessor.Expand.Fitting.{Fitting, action-Fitting}

module _ (expand : List PpToken → State → Outcome (List PpToken)) (macro : Macro)
    (at context : SourceLoc) (arguments : List (List PpToken)) (start_state : State)
    (expands : (input : List PpToken) (q : State)
      → Grown start_state q
      → Ends (λ _ r. Grown start_state r) (Broken start_state) (expand input q))
    (identifiers : Identifiers macro.parameters)
    (count : macro.function_like ≡ true → length arguments ≡ length macro.parameters) where
  abbrev pub Good : Place → List Part → State → Type 0
  Good place parts q = Joinable place parts × Grown start_state q

  prepend-Good :
      (place next : Place) (parts : List Part) (m : Outcome (List Part))
      → ((more : List Part) → Joinable next more → Joinable place (parts ++ more))
      → Ends (Good next) (Broken start_state) m
      → Ends (Good place) (Broken start_state) (prepend parts m)
  prepend-Good place next parts (ok more p) h g = (h more g.0, g.1)
  prepend-Good place next parts (failed p) h g = g
  prepend-Good place next parts out_of_range h g = g
  prepend-Good place next parts out_of_fuel h g = g

  abbrev Keeps : {A : Type 0} → Outcome A → Type 0
  Keeps m = Ends (λ _ q. Grown start_state q) (Broken start_state) m

  prepare-Keeps :
      (index : ℕ) (value : List PpToken) (prepared : Prepared) (p : State)
      (o : Option (List PpToken))
      → Grown start_state p
      → Keeps (prepare expand index value prepared p o)
  unfolding prepare
  prepare-Keeps index value prepared p (some ready) g = g
  prepare-Keeps index value prepared p none g =
      Ends-bind (λ _ q. Grown start_state q) (λ _ q. Grown start_state q) (Broken start_state)
        (expand value p) (λ ready q. ok (ready, (index, ready) ∷ prepared) q) (expands value p g)
        (λ ready q h. h)

  value_of-Keeps :
      (index : ℕ) (pasted : Bool) (prepared : Prepared) (p : State)
      → Grown start_state p
      → index < length arguments
      → Keeps (value_of expand arguments index pasted prepared p)
  unfolding value_of
  value_of-Keeps index pasted prepared p g h =
      let (value, found) = get_elem?-some arguments index h in
      rw (value_of, found)
        (elim_ind Keeps pasted (λ _. g)
          (λ _. prepare-Keeps index value prepared p (find_prepared index prepared) g))

  -- Where the loop stands: behind a `#`, at its parameter, or elsewhere.
  abbrev pub Standing : Place → Bool → Bool → List PpToken → Type 0
  Standing place true behind ts = place ≡ behind_part × first_is ts "##" ≡ false
  Standing place false behind ts = Ready place behind ts

  abbrev pub Substitutes : List PpToken → Type 0
  Substitutes ts =
      (skipped behind : Bool) (place : Place) (previous : Option PpToken) (prepared : Prepared)
      (p : State)
      → AllFit macro previous ts
      → AllLexed ts
      → Standing place skipped behind ts
      → Grown start_state p
      → Ends (Good place) (Broken start_state)
          (substitute expand macro at context arguments skipped behind ts prepared p)

  Joinable-none : (place : Place) (behind : Bool) → Ready place behind [] → Joinable place []
  Joinable-none start behind ready = _
  Joinable-none behind_part behind ready = _
  Joinable-none behind_hashes behind ready = true≢false ready.0

  Ready-next_place :
      (pasted : Bool) (place : Place) (value rest : List PpToken)
      → (pasted ≡ true)
        ⊎ (pasted ≡ false × first_is rest "##" ≡ false × (place ≡ behind_hashes → ⊥))
      → Ready (next_place pasted place value) false rest
  Ready-next_place true place value rest h = refl
  Ready-next_place false place (t ∷ ts) rest h = refl
  Ready-next_place false place [] rest (inl e) = cc
  Ready-next_place false start [] rest (inr h) = (refl, h.1)
  Ready-next_place false behind_part [] rest (inr h) = refl
  Ready-next_place false behind_hashes [] rest (inr h) = absurd (h.2 refl)

  perform-Good :
      (place : Place) (behind : Bool) (t : PpToken) (rest : List PpToken) (prepared : Prepared)
      (p : State) (act : Action)
      → action macro behind t rest ≡ act
      → Fitting arguments place behind rest act
      → Ready place behind (t ∷ rest)
      → AllFit macro (some t) rest
      → AllLexed rest
      → Grown start_state p
      → Substitutes rest
      → Ends
          (Good place)
          (Broken start_state)
          (substitute expand macro at context arguments false behind (t ∷ rest) prepared p)
  unfolding substitute
  perform-Good place behind t rest prepared p (stringizing index) e fitting ready fits l g more =
      let (value, found) = get_elem?-some arguments index fitting.0 in
      rw (substitute, e, found)
        (prepend-Good place behind_part (_ ∷ []) _
          (Joinable-plain place (string_of (moved at context t) value))
          (more true false behind_part (some t) prepared p fits l (refl, fitting.1) g))
  perform-Good place behind t rest prepared p no_parameter e fitting ready fits l g more =
      absurd fitting
  perform-Good place behind t rest prepared p pasting e fitting ready fits l g more =
      rw (substitute, e, fitting.0)
        (prepend-Good behind_part behind_hashes (_ ∷ []) _ (λ parts h. h)
          (more false true behind_hashes (some t) prepared p fits l fitting.1 g))
  perform-Good place behind t rest prepared p copying e fitting ready fits l g more =
      rw (substitute, e)
        (prepend-Good place behind_part (_ ∷ []) _ (Joinable-plain place (moved at context t))
          (more false false behind_part (some t) prepared p fits l refl g))
  perform-Good place behind t rest prepared p (argument index pasted) e fitting ready fits l g
        more =
      rw (substitute, e)
        (Ends-bind (λ _ q. Grown start_state q) (Good place) (Broken start_state)
          (value_of expand arguments index pasted prepared p) _
          (value_of-Keeps index pasted prepared p g fitting.0)
          λ (value, done) q h.
            prepend-Good place (next_place pasted place value)
              (insert_argument (moved at context t) pasted value) _
              (Joinable-insert_argument (moved at context t) pasted place value)
              (more false false (next_place pasted place value) (some t) done q fits l
                (Ready-next_place pasted place value rest fitting.1) h))

  pub substitute-Good : (ts : List PpToken) → Substitutes ts
  unfolding substitute
  substitute-Good [] true behind place previous prepared p fits l (e, h) g = rw e (_, g)
  substitute-Good [] false behind place previous prepared p fits l ready g =
      (Joinable-none place behind ready, g)
  substitute-Good (t ∷ rest) true behind place previous prepared p fits l (e, h) g =
      rw h (substitute-Good rest false false place (some t) prepared p fits.1 l.1 (rw e refl) g)
  substitute-Good (t ∷ rest) false behind place previous prepared p fits l ready g =
      perform-Good place behind t rest prepared p (action macro behind t rest) refl
        (action-Fitting macro arguments identifiers count place behind t rest previous fits l.1
          ready)
        ready fits.1 l.1 g (substitute-Good rest)
