-- ===== src/Sema/Conversions.antt =====
-- lib/Sema/SemaConversions.cpp on types: promotions, the usual arithmetic conversions, and pointers.
pub mod Common
pub mod Floating
use tensorium_cc.Prelude.{
  ℕ, Bool, true, false, not, ◌&&◌, ◌||◌, Option, none, some, leb, ltb, ◌==◌, if◌then◌else◌,
}
use tensorium_cc.Prelude.Int.{ℤ, pos, negsuc, less_ℤ}
use tensorium_cc.Sema.Types.{
  Qualifiers, no_quals, both_quals, same_bool, Builtin, builtin_kind, CType, builtin, pointer, kind,
  quals, is_void, is_pointer, is_function, is_enum, is_integral, is_unsigned, rank, make, ptr_to,
  qualified,
}
use tensorium_cc.Sema.Target.{TargetInfo}
use tensorium_cc.Sema.Compatible.{compatible}

-- A pool goes with each result, for the types that `qualified` makes.
unfoldable pub unqualified : CType → ℕ → CType × ℕ
unqualified t pool =
    if (quals t).is_const || (quals t).is_volatile then qualified t no_quals pool else (t, pool)

unfoldable pub promoted : CType → ℕ → CType × ℕ
promoted t pool =
    if is_integral t && less_ℤ (rank t) (pos 3)
    then (make Builtin.int, pool)
    else if is_enum t
    then (make Builtin.int, pool)
    else unqualified t pool

unfoldable pub size_type : TargetInfo → (is_signed : Bool) → CType
size_type target is_signed =
    if target.sizeof_pointer == target.sizeof_long
    then make (if is_signed then Builtin.long else Builtin.ulong)
    else make (if is_signed then Builtin.int else Builtin.uint)

abbrev pub rank_is : CType → ℕ → Bool
rank_is t n = elim (rank t) [ pos m ↦ m == n | negsuc m ↦ false ]

-- The bytes of a type of rank 3, 4 or more.
abbrev pub width : TargetInfo → CType → ℕ
width target t =
    if rank_is t 3
    then target.sizeof_int
    else if rank_is t 4
    then target.sizeof_long
    else target.sizeof_longlong

-- `usualArithmetic` where the promoted types differ in their signs: `u` is the unsigned one.
unfoldable pub mixed : TargetInfo → (u s : CType) → CType
mixed target u s =
    if not (less_ℤ (rank u) (rank s))
    then u
    else if ltb (width target u) (width target s)
    then s
    else make (if kind s == builtin_kind Builtin.long then Builtin.ulong else Builtin.ulonglong)

-- `usualArithmetic` behind the promotions.
unfoldable pub common_promoted : TargetInfo → CType → CType → CType
common_promoted target a b =
    if kind a == kind b
    then a
    else if same_bool (is_unsigned a) (is_unsigned b)
    then (if less_ℤ (rank a) (rank b) then b else a)
    else if is_unsigned a
    then mixed target a b
    else mixed target b a

abbrev pub either_kind : Builtin → CType → CType → Bool
either_kind k a b = kind a == builtin_kind k || kind b == builtin_kind k

unfoldable pub usual_arithmetic : TargetInfo → CType → CType → ℕ → CType × ℕ
usual_arithmetic target a b pool =
    if either_kind Builtin.longdouble a b
    then (make Builtin.longdouble, pool)
    else if either_kind Builtin.double a b
    then (make Builtin.double, pool)
    else if either_kind Builtin.float a b
    then (make Builtin.float, pool)
    else let (a', pool') = promoted a pool in
      let (b', pool'') = promoted b pool' in (common_promoted target a' b', pool'')

-- `b` has no qualifier that `a` lacks.
abbrev keeps_quals : Qualifiers → Qualifiers → Bool
keeps_quals a b = not ((b.is_const && not a.is_const) || (b.is_volatile && not a.is_volatile))

unfoldable pub pointer_convertible : (to from : CType) → Bool
pointer_convertible (pointer p a) (pointer q b) =
    keeps_quals (quals a) (quals b)
    && (compatible a b true
        || (is_void a && not (is_function b))
        || (is_void b && not (is_function a)))
pointer_convertible _ _ = false

-- `commonPointer`, by the types that `a` and `b` point to.
unfoldable pub common_pointer : (pa pb : CType) → (allow_void : Bool) → ℕ → Option CType × ℕ
common_pointer pa pb allow_void pool =
    if not (compatible pa pb true)
      && not (
          allow_void
          && ((is_void pa && not (is_function pb)) || (is_void pb && not (is_function pa))))
    then (none, pool)
    else let p = if is_void pa then pa else if is_void pb then pb else pa in
      let (q, pool') = qualified p (both_quals (quals pa) (quals pb)) pool in
      (some (ptr_to q), pool')
