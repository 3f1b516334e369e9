-- ===== src/Sema/Compatible.antt =====
-- `compatible` of lib/Sema/SemaDecl.cpp.
pub mod Order
use tensorium_cc.Prelude.{
  ℕ, ◌≡◌, refl, ap, ◌∙◌, Bool, true, false, not, ◌&&◌, ◌||◌, Option, none, some, [], ◌∷◌, ltb, ◌==◌,
  if◌then◌else◌, Bytes, same_bytes, same_bytes_iff, arith,
}
use tensorium_cc.Prelude.Int.{ℤ, pos, less_ℤ}
use tensorium_cc.Sema.Types.{
  Qualifiers, same_bool, same_quals, Builtin, TagKind, CType, CTypes, builtin, pointer, array,
  function, tagged, named, no_types, and_type, builtin_kind, tag_kind, kind, is_integral, rank,
}

-- One bound is unknown, or they are equal.
abbrev pub same_bound : Option ℕ → Option ℕ → Bool
same_bound (some m) (some n) = m == n
same_bound _ _ = true

-- No parameter changes in the default promotions.
unfoldable pub keeps_promotion : CTypes → Bool
keeps_promotion no_types = true
keeps_promotion (and_type p ps) =
    if kind p == 13 || (is_integral p && less_ℤ (rank p) (pos 3)) then false else keeps_promotion ps

-- The branch for a function type without a prototype.
unfoldable pub unprototyped : (has_prototype : Bool) → (variadic : Bool) → CTypes → Bool
unprototyped has_prototype variadic params =
    if not has_prototype then true else if variadic then false else keeps_promotion params

abbrev pub is_empty : Bytes → Bool
is_empty [] = true
is_empty (c ∷ cs) = false

unfoldable mutual
  pub compatible : CType → CType → (ignore_quals : Bool) → Bool
  compatible (builtin k p) (builtin l q) ignore =
      builtin_kind k == builtin_kind l && (ignore || same_quals p q)
  compatible (pointer p t) (pointer q u) ignore = (ignore || same_quals p q) && compatible t u false
  compatible (array p t m) (array q u n) ignore =
      (ignore || same_quals p q) && same_bound m n && compatible t u false
  compatible (function p t ts v h) (function q u us w g) ignore =
      (ignore || same_quals p q)
      && compatible t u true
      && (if not h || not g
          then (if h then unprototyped h v ts else unprototyped g w us)
          else same_bool v w && compatible_all ts us)
  compatible (tagged k p a m d) (tagged l q b n e) ignore =
      tag_kind k == tag_kind l
      && (ignore || same_quals p q)
      && (a == b || (not (is_empty m) && same_bytes m n))
  compatible (named p t) (named q u) ignore = ignore || same_quals p q
  compatible _ _ ignore = false

  -- As many parameters, each compatible but for its qualifiers.
  pub compatible_all : CTypes → CTypes → Bool
  compatible_all no_types no_types = true
  compatible_all (and_type t ts) (and_type u us) = compatible t u true && compatible_all ts us
  compatible_all _ _ = false
