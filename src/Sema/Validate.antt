-- ===== src/Sema/Validate.antt =====
-- `validateType` of lib/Sema/SemaDecl.cpp.
pub mod Valid
use tensorium_cc.Prelude.{
  codes, ℕ, Bool, true, false, not, ◌&&◌, ◌||◌, Option, none, some, ◌==◌, if◌then◌else◌, String,
}
use tensorium_cc.Location.{SourceLoc}
use tensorium_cc.Diagnostic.{DiagnosticEngine, error, report}
use tensorium_cc.Sema.Types.{
  CType, CTypes, builtin, pointer, array, function, tagged, named, no_types, and_type, is_array,
  is_function, is_void, is_complete,
}

-- `fail(loc, message); return false;`
unfoldable pub refuse : SourceLoc → String → DiagnosticEngine → Bool × DiagnosticEngine
refuse loc message diag = (false, report error loc (codes message) 1 diag)

abbrev pub is_zero : Option ℕ → Bool
is_zero none = false
is_zero (some n) = n == 0

abbrev pub has_none : CTypes → Bool
has_none no_types = true
has_none (and_type t ts) = false

-- `if (!first) return false;` in front of the rest.
unfoldable pub and_then :
    Bool × DiagnosticEngine → (DiagnosticEngine → Bool × DiagnosticEngine) → Bool × DiagnosticEngine
and_then (true, diag) next = next diag
and_then (false, diag) next = (false, diag)

unfoldable mutual
  pub validate_type : CType → SourceLoc → DiagnosticEngine → Bool × DiagnosticEngine
  validate_type (pointer q t) loc diag = validate_type t loc diag
  validate_type (array q t n) loc diag =
      if not (is_complete t)
      then refuse loc "array element type must be a complete object type" diag
      else if is_zero n
      then refuse loc "array size must be positive" diag
      else validate_type t loc diag
  validate_type (function q t ts variadic has_prototype) loc diag =
      if is_array t || is_function t
      then refuse loc "function cannot return an array or function type" diag
      else and_then (validate_type t loc diag) λ diag'.
        if variadic && has_none ts
        then refuse loc "variadic function requires at least one named parameter" diag'
        else validate_params ts loc diag'
  validate_type _ loc diag = (true, diag)

  -- The loop over the parameters.
  pub validate_params : CTypes → SourceLoc → DiagnosticEngine → Bool × DiagnosticEngine
  validate_params no_types loc diag = (true, diag)
  validate_params (and_type t ts) loc diag =
      if is_void t
      then refuse loc "parameter cannot have void type" diag
      else and_then (validate_type t loc diag) (validate_params ts loc)
