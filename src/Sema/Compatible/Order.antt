-- ===== src/Sema/Compatible/Order.antt =====
-- `compatible` of lib/Sema/SemaDecl.cpp is reflexive and symmetric.
use tensorium_cc.Prelude.{
  ℕ, ◌≡◌, refl, Bool, true, false, not, ◌&&◌, ◌||◌, Option, none, some, [], ◌∷◌, ◌==◌,
  if◌then◌else◌, Bytes, same_bytes, arith,
}
use tensorium_cc.Sema.Types.{
  Qualifiers, same_bool, same_quals, CType, CTypes, builtin, pointer, array, function, tagged,
  named, no_types, and_type, builtin_kind, tag_kind,
}
use tensorium_cc.Sema.Compatible.{same_bound, unprototyped, is_empty, compatible, compatible_all}

same_refl : (n : ℕ) → (n == n) ≡ true
same_refl n = ground arith

same_sym : (m n : ℕ) → (m == n) ≡ (n == m)
same_sym m n = ground arith

same_bool-sym : (a b : Bool) → same_bool a b ≡ same_bool b a
same_bool-sym a b = ground arith

same_bool_refl : (a : Bool) → same_bool a a ≡ true
same_bool_refl a = ground arith

same_quals-sym : (p q : Qualifiers) → same_quals p q ≡ same_quals q p
same_quals-sym p q =
    rw (same_bool-sym p.is_const q.is_const, same_bool-sym p.is_volatile q.is_volatile) refl

same_quals_refl : (p : Qualifiers) → same_quals p p ≡ true
same_quals_refl p = rw (same_bool_refl p.is_const, same_bool_refl p.is_volatile) refl

same_bound-sym : (m n : Option ℕ) → same_bound m n ≡ same_bound n m
same_bound-sym (some m) (some n) = same_sym m n
same_bound-sym none none = refl
same_bound-sym none (some n) = refl
same_bound-sym (some m) none = refl

same_bound_refl : (m : Option ℕ) → same_bound m m ≡ true
same_bound_refl none = refl
same_bound_refl (some m) = same_refl m

same_bytes-sym : (m n : Bytes) → same_bytes m n ≡ same_bytes n m
unfolding same_bytes
same_bytes-sym [] [] = refl
same_bytes-sym [] (y ∷ ys) = refl
same_bytes-sym (x ∷ xs) [] = refl
same_bytes-sym (x ∷ xs) (y ∷ ys) = rw (same_sym x y, same_bytes-sym xs ys) refl

same_tag-sym :
    (m n : Bytes) → (not (is_empty m) && same_bytes m n) ≡ (not (is_empty n) && same_bytes n m)
unfolding same_bytes
same_tag-sym [] [] = refl
same_tag-sym [] (y ∷ ys) = refl
same_tag-sym (x ∷ xs) [] = refl
same_tag-sym (x ∷ xs) (y ∷ ys) = same_bytes-sym (x ∷ xs) (y ∷ ys)

mutual
  unfolding compatible unprototyped

  compatible_refl : (t : CType) (ignore : Bool) → compatible t t ignore ≡ true
  compatible_refl (builtin k q) ignore =
      rw (same_refl (builtin_kind k), same_quals_refl q) (ground arith)
  compatible_refl (pointer q t) ignore =
      rw (same_quals_refl q, compatible_refl t false) (ground arith)
  compatible_refl (array q t m) ignore =
      rw (same_quals_refl q, same_bound_refl m, compatible_refl t false) (ground arith)
  compatible_refl (function q t ts v h) ignore =
      rw (same_quals_refl q, compatible_refl t true, same_bool_refl v, compatible_all_refl ts)
        (ground arith)
  compatible_refl (tagged k q a m d) ignore =
      rw (same_refl (tag_kind k), same_quals_refl q, same_refl a) (ground arith)
  compatible_refl (named q t) ignore = rw (same_quals_refl q) (ground arith)

  compatible_all_refl : (ts : CTypes) → compatible_all ts ts ≡ true
  compatible_all_refl no_types = refl
  compatible_all_refl (and_type t ts) = rw (compatible_refl t true, compatible_all_refl ts) refl

unprototyped_sym :
    (h g v w : Bool) (ts us : CTypes)
    → (not h || not g) ≡ true
    → (if h then unprototyped h v ts else unprototyped g w us)
      ≡ (if g then unprototyped g w us else unprototyped h v ts)
unfolding unprototyped
unprototyped_sym h g v w ts us e = ground arith

choose_sym :
    (h g v w : Bool) (ts us : CTypes) (a b : Bool)
    → a ≡ b
    → (if not h || not g then (if h then unprototyped h v ts else unprototyped g w us) else a)
      ≡ (if not g || not h then (if g then unprototyped g w us else unprototyped h v ts) else b)
unfolding unprototyped
choose_sym h g v w ts us a b e = ground arith

mutual
  unfolding compatible

  compatible_sym : (t u : CType) (ignore : Bool) → compatible t u ignore ≡ compatible u t ignore
  compatible_sym (builtin k p) (builtin l q) ignore =
      rw (same_sym (builtin_kind k) (builtin_kind l), same_quals-sym p q) refl
  compatible_sym (pointer p t) (pointer q u) ignore =
      rw (same_quals-sym p q, compatible_sym t u false) refl
  compatible_sym (array p t m) (array q u n) ignore =
      rw (same_quals-sym p q, same_bound-sym m n, compatible_sym t u false) refl
  compatible_sym (function p t ts v h) (function q u us w g) ignore =
      rw
        (
          same_quals-sym p q,
          compatible_sym t u true,
          choose_sym h g v w ts us (same_bool v w && compatible_all ts us)
              (same_bool w v && compatible_all us ts)
              (rw (same_bool-sym v w, compatible_all_sym ts us) refl),
        )
        refl
  compatible_sym (tagged k p a m d) (tagged l q b n e) ignore =
      rw (same_sym (tag_kind k) (tag_kind l), same_quals-sym p q, same_sym a b, same_tag-sym m n)
        refl
  compatible_sym (named p t) (named q u) ignore = rw (same_quals-sym p q) refl
  compatible_sym _ _ ignore = refl

  compatible_all_sym : (ts us : CTypes) → compatible_all ts us ≡ compatible_all us ts
  compatible_all_sym no_types no_types = refl
  compatible_all_sym (and_type t ts) (and_type u us) =
      rw (compatible_sym t u true, compatible_all_sym ts us) refl
  compatible_all_sym no_types (and_type u us) = refl
  compatible_all_sym (and_type t ts) no_types = refl

-- Compatibility is reflexive and symmetric, with and without the qualifiers of the two types.
pub compatible-refl-sym :
    (t u : CType) (ignore : Bool)
    → (compatible t t ignore ≡ true) × (compatible t u ignore ≡ compatible u t ignore)
compatible-refl-sym t u ignore = (compatible_refl t ignore, compatible_sym t u ignore)
