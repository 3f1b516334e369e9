-- ===== src/Tests/SemaTheorems.antt =====
-- Runs of lib/Sema, and the theorems on it at concrete inputs.
use mathlib.Core.Option
use tensorium_cc.Prelude.{
  ℕ, ◌≡◌, refl, true, false, some, List, [], ◌∷◌, ◌++◌, codes, same_bytes, arith,
}
use tensorium_cc.Prelude.Int.{pos}
use tensorium_cc.Location.{unset}
use tensorium_cc.Diagnostic.{new_engine}
use tensorium_cc.Lexer.Bytes.{is_digit}
use tensorium_cc.Sema.Types.{
  no_quals, Builtin, CType, builtin, pointer, function, kind, make, no_types, and_type, qualified,
}
use tensorium_cc.Sema.Target.{Arch, target_info}
use tensorium_cc.Sema.Compatible.{keeps_promotion, unprototyped, compatible}
use tensorium_cc.Sema.Compatible.Order.{compatible-refl-sym}
use tensorium_cc.Sema.Conversions.{usual_arithmetic, pointer_convertible, common_pointer}
use tensorium_cc.Sema.Conversions.Common.{usual_arithmetic-first_common}
use tensorium_cc.Sema.Conversions.Floating.{usual_arithmetic-floating}
use tensorium_cc.Sema.Literal.{integer_literal_type}
use tensorium_cc.Sema.Literal.First.{Suffix, Spelled, decimal, integer_literal_type-first_holding}
use tensorium_cc.Sema.Symbols.{SymbolTable, find, put, push, pop, lookup, bind}
use tensorium_cc.Sema.Symbols.Blocks.{
  Operation, entered, left, bound, run, environments, spec_run, Balanced, nothing, declared, nested,
  run-spec_run, run-block,
}

-- `int (float)` and `int ()`.
abbrev of_float : CType
of_float = function no_quals (make Builtin.int) (and_type (make Builtin.float) no_types) false true

abbrev unlisted : CType
unlisted = function no_quals (make Builtin.int) no_types false false

float_needs_its_prototype : compatible of_float unlisted false ≡ false
unfolding compatible unprototyped keeps_promotion
float_needs_its_prototype = refl

abbrev const_int : CType
const_int = builtin Builtin.int (record { is_const = true; is_volatile = false })

const_is_kept :
    pointer_convertible (pointer no_quals (make Builtin.int)) (pointer no_quals const_int) ≡ false
unfolding pointer_convertible compatible
const_is_kept = refl

const_is_added :
    pointer_convertible (pointer no_quals const_int) (pointer no_quals (make Builtin.int)) ≡ true
unfolding pointer_convertible compatible
const_is_added = refl

void_is_common : common_pointer (make Builtin.void) const_int true 0 ≡ (
  some (pointer no_quals (builtin Builtin.void (record { is_const = true; is_volatile = false }))),
  0,
)
unfolding common_pointer compatible qualified
void_is_common = refl

compatible-refl-sym_example :
    (compatible of_float of_float false ≡ true)
    × (compatible of_float unlisted false ≡ compatible unlisted of_float false)
compatible-refl-sym_example = compatible-refl-sym of_float unlisted false

usual_arithmetic-first_common_example :
    usual_arithmetic (target_info Arch.i386) (make Builtin.long) (make Builtin.uint) 0
    ≡ (make Builtin.ulong, 0)
usual_arithmetic-first_common_example =
    usual_arithmetic-first_common Arch.i386 Builtin.long Builtin.uint no_quals no_quals 0 refl refl

usual_arithmetic-floating_example :
    kind (usual_arithmetic (target_info Arch.x86_64) (make Builtin.char) (make Builtin.float) 0).0
    ≡ 13
usual_arithmetic-floating_example =
    usual_arithmetic-floating (target_info Arch.x86_64) Builtin.char Builtin.float no_quals no_quals
      0 refl

forty : Spelled false (codes "4000000000")
unfolding is_digit
forty =
    decimal b'4' (codes "000000000") refl
      (refl, (refl, (refl, (refl, (refl, (refl, (refl, (refl, (refl, (refl, tt))))))))))

integer_literal_type-first_holding_example :
    integer_literal_type
      (target_info Arch.x86_64)
      unset
      (codes "4000000000" ++ codes "U")
      (pos 4000000000)
      (new_engine false "a.c" [])
    ≡ (some (make Builtin.uint), new_engine false "a.c" [])
integer_literal_type-first_holding_example =
    integer_literal_type-first_holding Arch.x86_64 unset (new_engine false "a.c" []) false true
      (codes "4000000000") Suffix.u 4000000000 forty (omega arith)

abbrev calls : List (Operation ℕ)
calls = bound (codes "x") 2 ∷ entered ∷ bound (codes "y") 3 ∷ left ∷ []

abbrev globals : SymbolTable ℕ
globals = ((codes "x", 1) ∷ []) ∷ []

run-spec_run_example :
    Option.map environments (run (entered ∷ calls) globals)
    ≡ spec_run (entered ∷ calls) (environments globals)
run-spec_run_example = run-spec_run (entered ∷ calls) globals

calls-Balanced : Balanced calls
calls-Balanced =
    declared (codes "x") 2 _
      (nested (bound (codes "y") 3 ∷ []) [] (declared (codes "y") 3 [] nothing) nothing)

run-block_example :
    run (entered ∷ bound (codes "x") 2 ∷ entered ∷ bound (codes "y") 3 ∷ left ∷ left ∷ []) globals
    ≡ some globals
run-block_example = run-block calls globals calls-Balanced

inner_hides_outer : Option.map (lookup (codes "x")) (run (entered ∷ calls) globals) ≡ some (some 2)
unfolding push pop bind put lookup find same_bytes
inner_hides_outer = refl
