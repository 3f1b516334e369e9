-- ===== src/Sema/Symbols.antt =====
-- include/cc1/Sema/SymbolTable.hpp and include/cc1/Sema/Scope.hpp, for declarations of any type. The
-- innermost scope stands in front. `none` is a use of `back` or `pop_back` on no scope.
pub mod Blocks
use tensorium_cc.Prelude.{
  Bool, true, false, Option, none, some, List, [], ◌∷◌, if◌then◌else◌, Bytes, same_bytes,
}

-- `Scope::ordinary`.
abbrev pub Scope : Type 0 → Type 0
Scope D = List (Bytes × D)

abbrev pub SymbolTable : Type 0 → Type 0
SymbolTable D = List (Scope D)

module _ {D : Type 0} where
  -- `find` in a map, and `ordinary[name] = decl`.
  unfoldable pub find : Bytes → Scope D → Option D
  find name [] = none
  find name ((other, d) ∷ rest) = if same_bytes other name then some d else find name rest

  unfoldable pub put : Bytes → D → Scope D → Scope D
  put name decl [] = (name, decl) ∷ []
  put name decl ((other, d) ∷ rest) =
      if same_bytes other name then (other, decl) ∷ rest else (other, d) ∷ put name decl rest

  abbrev pub or_else : Option D → Option D → Option D
  or_else (some d) other = some d
  or_else none other = other

  abbrev pub clear : SymbolTable D → SymbolTable D
  clear table = []

  unfoldable pub push : SymbolTable D → SymbolTable D
  push table = [] ∷ table

  unfoldable pub pop : SymbolTable D → Option (SymbolTable D)
  pop [] = none
  pop (scope ∷ table) = some table

  unfoldable pub lookup : Bytes → SymbolTable D → Option D
  lookup name [] = none
  lookup name (scope ∷ table) = or_else (find name scope) (lookup name table)

  -- The outer `none` is the use of `back` on no scope.
  unfoldable pub lookup_current : Bytes → SymbolTable D → Option (Option D)
  lookup_current name [] = none
  lookup_current name (scope ∷ table) = some (find name scope)

  unfoldable pub bind : Bytes → D → SymbolTable D → Option (SymbolTable D)
  bind name decl [] = none
  bind name decl (scope ∷ table) = some (put name decl scope ∷ table)
