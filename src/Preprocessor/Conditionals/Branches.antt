-- ===== src/Preprocessor/Conditionals/Branches.antt =====
-- Which branch of a conditional group (lib/Lex/Preprocessor.cpp) is active.
use tensorium_cc.Prelude.{
  ◌≡◌, refl, ap, sym, ◌∙◌, Bool, true, false, not, ◌&&◌, ◌||◌, List, [], ◌∷◌, ◌++◌, if◌then◌else◌,
}
use tensorium_cc.Location.{SourceLoc}
use tensorium_cc.Preprocessor.Conditionals.{
  Conditional, open_frame, wants_condition, elif_frame, else_frame,
}

-- What `#elif` sees of its condition, which is computed only where it is wanted.
abbrev seen : Conditional → Bool → Bool
seen frame value = if wants_condition frame then value else false

-- A group from a frame on: the values that the conditions of its `#elif`s have where they stand, and
-- whether an `#else` follows. The result says of each branch whether it is active.
unfoldable pub branches_from : Conditional → List Bool → Bool → List Bool
branches_from frame [] false = frame.active ∷ []
branches_from frame [] true = frame.active ∷ (else_frame frame).active ∷ []
branches_from frame (value ∷ values) has_else =
    frame.active ∷ branches_from (elif_frame (seen frame value) frame) values has_else

unfoldable pub group : Bool → SourceLoc → Bool → List Bool → Bool → List Bool
group active loc value values has_else = branches_from (open_frame active value loc) values has_else

-- The first that holds, and no other.
unfoldable pub first_only : Bool → List Bool → List Bool
first_only allowed [] = []
first_only allowed (value ∷ values) = (allowed && value) ∷ first_only (allowed && not value) values

abbrev pub conditions : Bool → List Bool → Bool → List Bool
conditions value values has_else = value ∷ values ++ (if has_else then true ∷ [] else [])

and_true : (a : Bool) → (a && true) ≡ a
and_true true = refl
and_true false = refl

-- The two members that `#elif` sets, for a parent, whether a branch was taken, and a condition.
elif_active :
    (parent taken value : Bool)
    → (parent && not taken && (if parent && not taken then value else false))
      ≡ (parent && not taken && value)
elif_active true true value = refl
elif_active true false value = refl
elif_active false taken value = refl

elif_open :
    (parent taken value : Bool)
    → (parent && not (taken || (parent && not taken && value))) ≡ (parent && not taken && not value)
elif_open true true value = refl
elif_open true false value = refl
elif_open false taken value = refl

-- The branches behind a frame may be active where the parent is and none was taken.
branches_from-first_only :
    (frame : Conditional) (values : List Bool) (has_else : Bool)
    → branches_from frame values has_else
      ≡ frame.active
        ∷ first_only
            (frame.parent_active && not frame.taken)
            (values ++ (if has_else then true ∷ [] else []))
unfolding branches_from first_only else_frame elif_frame
branches_from-first_only frame [] false = refl
branches_from-first_only frame [] true =
    ap (λ b. frame.active ∷ b ∷ []) (sym (and_true (frame.parent_active && not frame.taken)))
branches_from-first_only frame (value ∷ values) has_else =
    ap (λ bs. frame.active ∷ bs)
      (branches_from-first_only (elif_frame (seen frame value) frame) values has_else
        ∙ rw
            (
              elif_active frame.parent_active frame.taken value,
              elif_open frame.parent_active frame.taken value,
            )
            refl)

open_allowed : (active value : Bool) → (active && not (active && value)) ≡ (active && not value)
open_allowed true value = refl
open_allowed false value = refl

-- Of the branches of a group, the first whose condition holds is active and no other, where `#else`
-- counts as a condition that holds; in text that is not active none is. Conditions that are not
-- looked at, since an earlier branch was taken or the text is not active, do not matter.
pub group-first_only :
    (active : Bool) (loc : SourceLoc) (value : Bool) (values : List Bool) (has_else : Bool)
    → group active loc value values has_else ≡ first_only active (conditions value values has_else)
unfolding group open_frame first_only
group-first_only active loc value values has_else =
    branches_from-first_only (open_frame active value loc) values has_else
    ∙ rw (open_allowed active value) refl
