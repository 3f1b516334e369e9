-- ===== src/Sema/Conversions/Common.antt =====
-- `usualArithmetic` of lib/Sema/SemaConversions.cpp and the ranges of the C types.
use tensorium_cc.Prelude.{
  ℕ, ◌≤◌, ◌<◌, get_or, ◌-◌, ◌*◌, ◌^◌, ◌≡◌, refl, sym, ap, ◌∙◌, Bool, true, false, not, ◌&&◌, ◌||◌,
  List, [], ◌∷◌, leb, ◌==◌, if◌then◌else◌, and_right, arith,
}
use tensorium_cc.Prelude.Int.{less_ℤ}
use tensorium_cc.Sema.Types.{
  Qualifiers, Builtin, CType, builtin, builtin_kind, same_quals, kind, is_integral, rank, make,
  qualified,
}
use tensorium_cc.Sema.Target.{Arch, TargetInfo, target_info}
use tensorium_cc.Sema.Conversions.{
  either_kind, unqualified, promoted, mixed, common_promoted, usual_arithmetic,
}

-- The greatest value of an integer type, which has a byte or two below the rank of int.
abbrev pub max_value : TargetInfo → Builtin → ℕ
max_value target Builtin.bool = 1
max_value target Builtin.char = 2 ^ 7 - 1
max_value target Builtin.schar = 2 ^ 7 - 1
max_value target Builtin.uchar = 2 ^ 8 - 1
max_value target Builtin.short = 2 ^ 15 - 1
max_value target Builtin.ushort = 2 ^ 16 - 1
max_value target Builtin.int = 2 ^ (8 * target.sizeof_int - 1) - 1
max_value target Builtin.uint = 2 ^ (8 * target.sizeof_int) - 1
max_value target Builtin.long = 2 ^ (8 * target.sizeof_long - 1) - 1
max_value target Builtin.ulong = 2 ^ (8 * target.sizeof_long) - 1
max_value target Builtin.longlong = 2 ^ (8 * target.sizeof_longlong - 1) - 1
max_value target Builtin.ulonglong = 2 ^ (8 * target.sizeof_longlong) - 1
max_value target _ = 0

-- The types that arithmetic on integers has, from the least.
abbrev pub arithmetic_types : List Builtin
arithmetic_types =
    Builtin.int ∷ Builtin.uint ∷ Builtin.long ∷ Builtin.ulong ∷ Builtin.longlong ∷ Builtin.ulonglong
    ∷ []

-- `t` has at least the rank of `a` and its greatest value.
abbrev pub covers : TargetInfo → Builtin → Builtin → Bool
covers target t a =
    not (less_ℤ (rank (make t)) (rank (make a))) && leb (max_value target a) (max_value target t)

-- The first of the types that covers `a` and `b`.
abbrev pub first_common : TargetInfo → Builtin → Builtin → List Builtin → CType
first_common target a b [] = make Builtin.void
first_common target a b (t ∷ ts) =
    if covers target t a && covers target t b then make t else first_common target a b ts

unqualified-builtin :
    (k : Builtin) (p : Qualifiers) (pool : ℕ) → unqualified (builtin k p) pool ≡ (make k, pool)
unfolding unqualified qualified
unqualified-builtin k p pool = ground arith

abbrev promoted_kind : Builtin → Builtin
promoted_kind Builtin.uint = Builtin.uint
promoted_kind Builtin.long = Builtin.long
promoted_kind Builtin.ulong = Builtin.ulong
promoted_kind Builtin.longlong = Builtin.longlong
promoted_kind Builtin.ulonglong = Builtin.ulonglong
promoted_kind _ = Builtin.int

promoted-builtin :
    (k : Builtin) (p : Qualifiers) (pool : ℕ)
    → is_integral (builtin k p) ≡ true
    → promoted (builtin k p) pool ≡ (make (promoted_kind k), pool)
unfolding promoted
promoted-builtin k p pool h = ground (arith, unqualified-builtin k p pool)

-- A test of every kind.
abbrev every : (Builtin → Bool) → Bool
every f =
    f Builtin.void
    && f Builtin.bool
    && f Builtin.char
    && f Builtin.schar
    && f Builtin.uchar
    && f Builtin.short
    && f Builtin.ushort
    && f Builtin.int
    && f Builtin.uint
    && f Builtin.long
    && f Builtin.ulong
    && f Builtin.longlong
    && f Builtin.ulonglong
    && f Builtin.float
    && f Builtin.double
    && f Builtin.longdouble

every-at : (f : Builtin → Bool) → every f ≡ true → (k : Builtin) → f k ≡ true
every-at f h k = ground arith

abbrev builtin_of : ℕ → Builtin
builtin_of n =
    get_or
      (Builtin.void ∷ Builtin.bool ∷ Builtin.char ∷ Builtin.schar ∷ Builtin.uchar ∷ Builtin.short
        ∷ Builtin.ushort ∷ Builtin.int ∷ Builtin.uint ∷ Builtin.long ∷ Builtin.ulong
        ∷ Builtin.longlong ∷ Builtin.ulonglong ∷ Builtin.float ∷ Builtin.double ∷ Builtin.longdouble
        ∷ [])
      n Builtin.void

builtin_of-builtin_kind : (k : Builtin) → builtin_of (builtin_kind k) ≡ k
builtin_of-builtin_kind Builtin.void = refl
builtin_of-builtin_kind Builtin.bool = refl
builtin_of-builtin_kind Builtin.char = refl
builtin_of-builtin_kind Builtin.schar = refl
builtin_of-builtin_kind Builtin.uchar = refl
builtin_of-builtin_kind Builtin.short = refl
builtin_of-builtin_kind Builtin.ushort = refl
builtin_of-builtin_kind Builtin.int = refl
builtin_of-builtin_kind Builtin.uint = refl
builtin_of-builtin_kind Builtin.long = refl
builtin_of-builtin_kind Builtin.ulong = refl
builtin_of-builtin_kind Builtin.longlong = refl
builtin_of-builtin_kind Builtin.ulonglong = refl
builtin_of-builtin_kind Builtin.float = refl
builtin_of-builtin_kind Builtin.double = refl
builtin_of-builtin_kind Builtin.longdouble = refl

or_false : (a b : Bool) → a ≡ false → (a || b) ≡ true → b ≡ true
or_false a b h e = ground arith

abbrev same_builtin : CType → CType → Bool
same_builtin (builtin k p) (builtin l q) = builtin_kind k == builtin_kind l && same_quals p q
same_builtin _ _ = false

same_quals→≡ : (p q : Qualifiers) → same_quals p q ≡ true → p ≡ q
same_quals→≡ p q h = ground arith

same_builtin→≡ : (t u : CType) → same_builtin t u ≡ true → t ≡ u
same_builtin→≡ (builtin k p) (builtin l q) h =
    let eq : builtin_kind k ≡ builtin_kind l = ground arith in
    let kinds = sym (builtin_of-builtin_kind k) ∙ ap builtin_of eq ∙ builtin_of-builtin_kind l in
    rw (kinds, same_quals→≡ p q (and_right (builtin_kind k == builtin_kind l) (same_quals p q) h))
      refl
same_builtin→≡ _ _ h = cc

abbrev agrees : Arch → Builtin → Builtin → Bool
agrees arch a b =
    not (is_integral (make a) && is_integral (make b))
    || same_builtin
        (common_promoted (target_info arch) (make (promoted_kind a)) (make (promoted_kind b)))
        (first_common (target_info arch) a b arithmetic_types)

agrees-every : (arch : Arch) → every (λ a. every (agrees arch a)) ≡ true
unfolding common_promoted mixed
agrees-every Arch.i386 = refl
agrees-every Arch.x86_64 = refl
agrees-every Arch.aarch64 = refl

common_promoted-first :
    (arch : Arch) (a b : Builtin)
    → is_integral (make a) ≡ true
    → is_integral (make b) ≡ true
    → common_promoted (target_info arch) (make (promoted_kind a)) (make (promoted_kind b))
      ≡ first_common (target_info arch) a b arithmetic_types
common_promoted-first arch a b ha hb =
    let both =
      every-at (agrees arch a) (every-at (λ x. every (agrees arch x)) (agrees-every arch) a) b in
    same_builtin→≡ _ _
      (or_false (not (is_integral (make a) && is_integral (make b))) _ (rw (ha, hb) refl) both)

integral_kind :
    (k : Builtin) (p : Qualifiers) → is_integral (builtin k p) ≡ true → builtin_kind k ≤ 12
integral_kind k p h = ground arith

no_either :
    (k : Builtin) (a b : CType)
    → kind a < builtin_kind k
    → kind b < builtin_kind k
    → either_kind k a b ≡ false
no_either k a b ha hb = ground arith

-- The common type of two integers is the least of int, unsigned int, long, unsigned long, long long
-- and unsigned long long that has at least the rank of both and the greatest value of both, on each
-- target. Condition: both types are integral and no enumerations.
pub usual_arithmetic-first_common :
    (arch : Arch) (a b : Builtin) (p q : Qualifiers) (pool : ℕ)
    → is_integral (builtin a p) ≡ true
    → is_integral (builtin b q) ≡ true
    → usual_arithmetic (target_info arch) (builtin a p) (builtin b q) pool
      ≡ (first_common (target_info arch) a b arithmetic_types, pool)
unfolding usual_arithmetic
usual_arithmetic-first_common arch a b p q pool ha hb =
    let ka = integral_kind a p ha in
    let kb = integral_kind b q hb in
    rw
      (
        no_either Builtin.longdouble (builtin a p) (builtin b q) (omega arith) (omega arith),
        no_either Builtin.double (builtin a p) (builtin b q) (omega arith) (omega arith),
        no_either Builtin.float (builtin a p) (builtin b q) (omega arith) (omega arith),
        promoted-builtin a p pool ha,
        promoted-builtin b q pool hb,
      )
      (ap (λ t. (t, pool)) (common_promoted-first arch a b ha hb))
