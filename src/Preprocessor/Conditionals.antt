-- ===== src/Preprocessor/Conditionals.antt =====
-- `Conditional` of lib/Lex/Preprocessor.cpp and what the directives `#if`, `#elif`, `#else` and `#endif`
-- do to the innermost one, without their conditions.
pub mod Branches
pub mod Nested
use tensorium_cc.Prelude.{Bool, true, false, not, ◌&&◌, ◌||◌, List, [], ◌∷◌}
use tensorium_cc.Location.{SourceLoc}

pub record Conditional : Type 0 where
  pub parent_active : Bool
  pub active : Bool
  pub taken : Bool
  pub seen_else : Bool
  pub loc : SourceLoc

-- `stack.empty() || stack.back().active`. The innermost conditional stands in front.
abbrev pub is_active : List Conditional → Bool
is_active [] = true
is_active (frame ∷ outer) = frame.active

unfoldable pub open_frame : Bool → Bool → SourceLoc → Conditional
open_frame active selected loc = record {
  parent_active = active;
  active = active && selected;
  taken = active && selected;
  seen_else = false;
  loc = loc;
}

-- Whether `#elif` looks at its condition.
abbrev pub wants_condition : Conditional → Bool
wants_condition frame = frame.parent_active && not frame.taken

unfoldable pub elif_frame : Bool → Conditional → Conditional
elif_frame selected frame =
    let active = frame.parent_active && not frame.taken && selected in
    record frame { active = active; taken = frame.taken || active }

unfoldable pub else_frame : Conditional → Conditional
else_frame frame = record frame {
  seen_else = true;
  active = frame.parent_active && not frame.taken;
  taken = true;
}
