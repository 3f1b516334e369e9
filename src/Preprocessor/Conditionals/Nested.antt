-- ===== src/Preprocessor/Conditionals/Nested.antt =====
-- The stack of conditionals of `process` (lib/Lex/Preprocessor.cpp).
use tensorium_cc.Prelude.{
  ◌≡◌, refl, sym, ◌∙◌, Bool, true, false, not, ◌&&◌, ◌||◌, List, [], ◌∷◌, and_left,
}
use tensorium_cc.Location.{SourceLoc}
use tensorium_cc.Preprocessor.Conditionals.{
  Conditional, is_active, open_frame, elif_frame, else_frame,
}

-- A frame that agrees with the stack around it: its parent is what stands there, a branch is active only
-- in an active parent, and what is active, or behind `#else`, counts as taken.
pub record Agrees (frame : Conditional) (outer : List Conditional) : Type 0 where
  pub inside : frame.parent_active ≡ is_active outer
  pub active_inside : frame.active ≡ true → frame.parent_active ≡ true
  pub active_taken : frame.active ≡ true → frame.taken ≡ true
  pub else_taken : frame.seen_else ≡ true → frame.taken ≡ true

abbrev pub Nested : List Conditional → Type 0
Nested [] = Unit
Nested (frame ∷ outer) = Agrees frame outer × Nested outer

-- Whether every conditional of the stack is active.
unfoldable pub each_active : List Conditional → Bool
each_active [] = true
each_active (frame ∷ outer) = frame.active && each_active outer

pub open_frame-Nested :
    (stack : List Conditional) (selected : Bool) (loc : SourceLoc)
    → Nested stack
    → Nested (open_frame (is_active stack) selected loc ∷ stack)
unfolding open_frame
open_frame-Nested stack selected loc h = (
  record {
    inside = refl;
    active_inside = and_left (is_active stack) selected;
    active_taken = λ e. e;
    else_taken = λ e. cc;
  },
  h,
)

or_true : (a b : Bool) → b ≡ true → (a || b) ≡ true
or_true true b h = refl
or_true false b h = h

or_left : (a b : Bool) → a ≡ true → (a || b) ≡ true
or_left true b h = refl
or_left false b h = cc

pub elif_frame-Nested :
    (frame : Conditional) (outer : List Conditional) (selected : Bool)
    → Nested (frame ∷ outer)
    → Nested (elif_frame selected frame ∷ outer)
unfolding elif_frame
elif_frame-Nested frame outer selected (agrees, h) = (
  record {
    inside = agrees.inside;
    active_inside = λ e. and_left frame.parent_active (not frame.taken) (and_left _ selected e);
    active_taken = λ e. or_true frame.taken _ e;
    else_taken = λ e. or_left frame.taken _ (agrees.else_taken e);
  },
  h,
)

pub else_frame-Nested :
    (frame : Conditional) (outer : List Conditional)
    → Nested (frame ∷ outer)
    → Nested (else_frame frame ∷ outer)
unfolding else_frame
else_frame-Nested frame outer (agrees, h) = (
  record {
    inside = agrees.inside;
    active_inside = λ e. and_left frame.parent_active (not frame.taken) e;
    active_taken = λ e. refl;
    else_taken = λ e. refl;
  },
  h,
)

below : (a b c : Bool) → (a ≡ true → b ≡ true) → b ≡ c → a ≡ (a && c)
below true b c h e = sym (h refl) ∙ e
below false b c h e = refl

-- The top of the stack tells whether all of it is active.
pub is_active-each_active :
    (stack : List Conditional) → Nested stack → is_active stack ≡ each_active stack
unfolding each_active
is_active-each_active [] h = refl
is_active-each_active (frame ∷ outer) (agrees, h) =
    below frame.active frame.parent_active (each_active outer) agrees.active_inside
      (agrees.inside ∙ is_active-each_active outer h)
