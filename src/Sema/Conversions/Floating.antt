-- ===== src/Sema/Conversions/Floating.antt =====
-- `usualArithmetic` of lib/Sema/SemaConversions.cpp on floating operands.
use Prim.Native.Nat.{max}
use tensorium_cc.Prelude.{ℕ, ◌≤◌, ◌≡◌, ◌∙◌, true, ◌||◌, leb, ◌==◌, if◌then◌else◌, arith}
use tensorium_cc.Sema.Types.{Qualifiers, Builtin, CType, builtin, builtin_kind, kind, make}
use tensorium_cc.Sema.Target.{TargetInfo}
use tensorium_cc.Sema.Conversions.{usual_arithmetic}

builtin_kind-le : (k : Builtin) → builtin_kind k ≤ 15
builtin_kind-le k = ground arith

-- The kind of the first floating type from long double down that an operand has.
abbrev greatest : ℕ → ℕ → ℕ → ℕ
greatest a b c =
    if a == 15 || b == 15
    then 15
    else if a == 14 || b == 14
    then 14
    else if a == 13 || b == 13
    then 13
    else c

greatest-max :
    (a b c : ℕ) → a ≤ 15 → b ≤ 15 → (leb 13 a || leb 13 b) ≡ true → greatest a b c ≡ max a b
greatest-max a b c ha hb h = ground arith

kind-greatest :
    (a b : ℕ) (r : CType × ℕ) (pool : ℕ)
    → kind
        (if a == 15 || b == 15
          then (make Builtin.longdouble, pool)
          else if a == 14 || b == 14
          then (make Builtin.double, pool)
          else if a == 13 || b == 13
          then (make Builtin.float, pool)
          else r).0
      ≡ greatest a b (kind r.0)
kind-greatest a b r pool = ground arith

-- The common type with a floating operand is the one of the greater kind, in the order float, double
-- and long double. Condition: a type is one of these, and neither is an enumeration.
pub usual_arithmetic-floating :
    (target : TargetInfo) (a b : Builtin) (p q : Qualifiers) (pool : ℕ)
    → (leb 13 (builtin_kind a) || leb 13 (builtin_kind b)) ≡ true
    → kind (usual_arithmetic target (builtin a p) (builtin b q) pool).0
      ≡ max (builtin_kind a) (builtin_kind b)
unfolding usual_arithmetic
usual_arithmetic-floating target a b p q pool h =
    kind-greatest (builtin_kind a) (builtin_kind b) _ pool
    ∙ greatest-max (builtin_kind a) (builtin_kind b) _ (builtin_kind-le a) (builtin_kind-le b) h
