-- ===== src/Sema/Types.antt =====
-- include/cc1/AST/Type.hpp: the C types and their predicates, and `rank` of lib/Sema/SemaInternal.hpp.
-- A type is a tree. Only the tests of tagged types compare pointers to types, so a tagged type carries
-- the address of its object, and the pool is the next address.
use tensorium_cc.Prelude.{
  ℕ, suc, Bool, true, false, not, ◌&&◌, ◌||◌, Option, none, some, leb, ltb, ◌==◌, Bytes,
}
use tensorium_cc.Prelude.Int.{ℤ, pos, negsuc}

pub record Qualifiers : Type 0 where
  pub is_const : Bool
  pub is_volatile : Bool

abbrev pub no_quals : Qualifiers
no_quals = record { is_const = false; is_volatile = false }

abbrev pub same_bool : Bool → Bool → Bool
same_bool true b = b
same_bool false b = not b

-- `Qualifiers::operator==`.
abbrev pub same_quals : Qualifiers → Qualifiers → Bool
same_quals p q = same_bool p.is_const q.is_const && same_bool p.is_volatile q.is_volatile

-- The kinds of a type that has no parts.
pub data Builtin : Type 0 where
  void : Builtin
  bool : Builtin
  char : Builtin
  schar : Builtin
  uchar : Builtin
  short : Builtin
  ushort : Builtin
  int : Builtin
  uint : Builtin
  long : Builtin
  ulong : Builtin
  longlong : Builtin
  ulonglong : Builtin
  float : Builtin
  double : Builtin
  longdouble : Builtin

pub data TagKind : Type 0 where
  struct : TagKind
  union : TagKind
  enum : TagKind

-- An array size of -1 is `none`; `named` is TYPEDEF.
mutual
  pub data CType : Type 0 where
    builtin : Builtin → Qualifiers → CType
    pointer : Qualifiers → CType → CType
    array : Qualifiers → CType → Option ℕ → CType
    function : Qualifiers → CType → CTypes → (variadic has_prototype : Bool) → CType
    tagged : TagKind → Qualifiers → (address : ℕ) → (tag : Bytes) → (defined : Bool) → CType
    named : Qualifiers → CType → CType

  pub data CTypes : Type 0 where
    no_types : CTypes
    and_type : CType → CTypes → CTypes

-- The value of `Type::Kind`.
abbrev pub builtin_kind : Builtin → ℕ
builtin_kind Builtin.void = 0
builtin_kind Builtin.bool = 1
builtin_kind Builtin.char = 2
builtin_kind Builtin.schar = 3
builtin_kind Builtin.uchar = 4
builtin_kind Builtin.short = 5
builtin_kind Builtin.ushort = 6
builtin_kind Builtin.int = 7
builtin_kind Builtin.uint = 8
builtin_kind Builtin.long = 9
builtin_kind Builtin.ulong = 10
builtin_kind Builtin.longlong = 11
builtin_kind Builtin.ulonglong = 12
builtin_kind Builtin.float = 13
builtin_kind Builtin.double = 14
builtin_kind Builtin.longdouble = 15

abbrev pub tag_kind : TagKind → ℕ
tag_kind TagKind.struct = 19
tag_kind TagKind.union = 20
tag_kind TagKind.enum = 21

abbrev pub kind : CType → ℕ
kind (builtin k q) = builtin_kind k
kind (pointer q t) = 16
kind (array q t n) = 17
kind (function q t ts v p) = 18
kind (tagged k q a n d) = tag_kind k
kind (named q t) = 22

abbrev pub quals : CType → Qualifiers
quals (builtin k q) = q
quals (pointer q t) = q
quals (array q t n) = q
quals (function q t ts v p) = q
quals (tagged k q a n d) = q
quals (named q t) = q

abbrev pub is_void : CType → Bool
is_void t = kind t == 0

abbrev pub is_pointer : CType → Bool
is_pointer t = kind t == 16

abbrev pub is_array : CType → Bool
is_array t = kind t == 17

abbrev pub is_function : CType → Bool
is_function t = kind t == 18

abbrev pub is_enum : CType → Bool
is_enum t = kind t == 21

abbrev pub is_integral : CType → Bool
is_integral t = (leb 1 (kind t) && leb (kind t) 12) || kind t == 21

abbrev pub is_floating : CType → Bool
is_floating t = kind t == 13 || kind t == 14 || kind t == 15

abbrev pub is_arithmetic : CType → Bool
is_arithmetic t = is_integral t || is_floating t

abbrev pub is_scalar : CType → Bool
is_scalar t = is_arithmetic t || is_pointer t

abbrev pub is_unsigned : CType → Bool
is_unsigned t = kind t == 4 || kind t == 6 || kind t == 8 || kind t == 10 || kind t == 12

unfoldable pub is_complete : CType → Bool
is_complete (builtin Builtin.void q) = false
is_complete (function q t ts v p) = false
is_complete (array q t none) = false
is_complete (array q t (some n)) = ltb 0 n && is_complete t
is_complete (tagged k q a n d) = d
is_complete _ = true

abbrev pub builtin_rank : Builtin → ℤ
builtin_rank Builtin.bool = pos 0
builtin_rank Builtin.char = pos 1
builtin_rank Builtin.schar = pos 1
builtin_rank Builtin.uchar = pos 1
builtin_rank Builtin.short = pos 2
builtin_rank Builtin.ushort = pos 2
builtin_rank Builtin.int = pos 3
builtin_rank Builtin.uint = pos 3
builtin_rank Builtin.long = pos 4
builtin_rank Builtin.ulong = pos 4
builtin_rank Builtin.longlong = pos 5
builtin_rank Builtin.ulonglong = pos 5
builtin_rank _ = negsuc 0

-- `rank`; -1 is `negsuc 0`.
abbrev pub rank : CType → ℤ
rank (builtin k q) = builtin_rank k
rank (tagged TagKind.enum q a n d) = pos 3
rank _ = negsuc 0

-- `TypePool::make` of a kind without parts, as `intTy` and the others call it.
abbrev pub make : Builtin → CType
make k = builtin k no_quals

abbrev pub ptr_to : CType → CType
ptr_to t = pointer no_quals t

abbrev pub both_quals : Qualifiers → Qualifiers → Qualifiers
both_quals p q = record {
  is_const = p.is_const || q.is_const;
  is_volatile = p.is_volatile || q.is_volatile;
}

-- `TypePool::qualified`: the copy of a tagged type is a new object.
unfoldable pub qualified : CType → Qualifiers → (pool : ℕ) → CType × ℕ
qualified (builtin k p) q pool = (builtin k q, pool)
qualified (pointer p t) q pool = (pointer q t, pool)
qualified (array p t n) q pool =
    let (u, pool') = qualified t (both_quals (quals t) q) pool in (array q u n, pool')
qualified (function p t ts v h) q pool = (function q t ts v h, pool)
qualified (tagged k p a n d) q pool = (tagged k q pool n d, suc pool)
qualified (named p t) q pool = (named q t, pool)
