-- ===== src/Tests/SemaTypes.antt =====
-- Runs of lib/Sema/SemaDecl.cpp on types, and the theorems on them at concrete types.
use tensorium_cc.Prelude.{◌≡◌, refl, true, false, some, [], ◌∷◌, codes}
use tensorium_cc.Location.{unset}
use tensorium_cc.Diagnostic.{new_engine, add_source, line_starts_from, put_source}
use tensorium_cc.Sema.Types.{
  no_quals, Builtin, TagKind, CType, pointer, array, function, tagged, named, no_types, and_type,
  make, qualified, is_complete,
}
use tensorium_cc.Sema.Symbols.{find}
use tensorium_cc.Sema.Validate.{refuse, validate_type}
use tensorium_cc.Sema.Validate.Valid.{Valid, Checks, validate_type-Checks}
use tensorium_cc.Sema.Normalize.{
  TypeState, emplace, reuse, normalize_tagged, adjust, normalize_type,
}
use tensorium_cc.Sema.Normalize.Normal.{is_normal, holds_tags, normalize_type-is_normal}

abbrev fresh : TypeState
fresh = record { tags = []; pool = 1; diag = new_engine false "a.c" [] }

-- `struct s`, and `int (T a[3], struct s *)` with `typedef int T`.
abbrev record_s : CType
record_s = tagged TagKind.struct no_quals 0 (codes "s") false

abbrev with_array : CType
with_array =
    function no_quals (make Builtin.int)
      (and_type (array no_quals (named no_quals (make Builtin.int)) (some 3))
        (and_type (pointer no_quals record_s) no_types))
      false true

abbrev adjusted : CType
adjusted =
    function no_quals (make Builtin.int)
      (and_type (pointer no_quals (make Builtin.int))
        (and_type (pointer no_quals record_s) no_types))
      false true

array_is_adjusted :
    normalize_type with_array unset fresh
    ≡ (adjusted, record fresh { tags = (codes "s", record_s) ∷ [] })
unfolding new_engine add_source line_starts_from put_source find emplace reuse normalize_tagged
    adjust normalize_type validate_type is_complete qualified
array_is_adjusted = refl

array_of_void_is_refused :
    (validate_type
      (array no_quals (make Builtin.void) (some 2))
      unset
      (new_engine false "a.c" [])).0
    ≡ false
unfolding validate_type is_complete refuse
array_of_void_is_refused = refl

array_of_three_is_accepted :
    validate_type (array no_quals (make Builtin.int) (some 3)) unset (new_engine false "a.c" [])
    ≡ (true, new_engine false "a.c" [])
unfolding validate_type is_complete refuse
array_of_three_is_accepted = refl

validate_type-Checks_example :
    Checks
      (Valid with_array)
      (new_engine false "a.c" [])
      (validate_type with_array unset (new_engine false "a.c" []))
validate_type-Checks_example = validate_type-Checks with_array unset (new_engine false "a.c" [])

normalize_type-is_normal_example :
    (is_normal (normalize_type with_array unset fresh).0 ≡ true)
    × (holds_tags (normalize_type with_array unset fresh).1.tags ≡ true)
normalize_type-is_normal_example = normalize_type-is_normal with_array unset fresh refl
