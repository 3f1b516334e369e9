-- ===== src/Sema/Normalize/Normal.antt =====
-- The types that `normalizeType` of lib/Sema/SemaDecl.cpp returns.
use tensorium_cc.Prelude.{
  ℕ, ◌≡◌, refl, Bool, true, false, not, ◌&&◌, ◌||◌, some, [], ◌∷◌, ◌==◌, if◌then◌else◌, if_ind,
  Bytes, inl, inr, Bool-cases, Option-cases, and_left, and_right, same_bytes, arith,
}
use tensorium_cc.Location.{SourceLoc}
use tensorium_cc.Sema.Types.{
  Qualifiers, Builtin, TagKind, CType, CTypes, builtin, pointer, array, function, tagged, named,
  no_types, and_type, is_array, is_function, qualified, same_quals, quals, kind, builtin_kind,
  tag_kind,
}
use tensorium_cc.Sema.Compatible.{is_empty}
use tensorium_cc.Sema.Normalize.{
  TypeState, emplace, fail_tag, reuse, normalize_tagged, adjust, normalize_type, normalize_params,
}
use tensorium_cc.Sema.Symbols.{Scope, find}

abbrev pub is_tagged : CType → Bool
is_tagged (tagged k q a n d) = true
is_tagged _ = false

mutual
  -- No typedef is left in the type, and no parameter is an array or a function.
  pub is_normal : CType → Bool
  is_normal (named q t) = false
  is_normal (pointer q t) = is_normal t
  is_normal (array q t n) = is_normal t
  is_normal (function q t ts v h) = is_normal t && are_adjusted ts
  is_normal _ = true

  pub are_adjusted : CTypes → Bool
  are_adjusted no_types = true
  are_adjusted (and_type t ts) = not (is_array t || is_function t) && is_normal t && are_adjusted ts

-- Every entry of the map of tags is a tagged type.
abbrev pub holds_tags : Scope CType → Bool
holds_tags [] = true
holds_tags ((tag, t) ∷ rest) = is_tagged t && holds_tags rest

-- A result that is normal, with a map of tags that holds tagged types.
record Normal (r : CType × TypeState) : Type 0 where
  normal : is_normal r.0 ≡ true
  tags_kept : holds_tags r.1.tags ≡ true

record NormalParams (r : CTypes × TypeState) : Type 0 where
  adjusted : are_adjusted r.0 ≡ true
  tags_kept : holds_tags r.1.tags ≡ true

holds_tags-find :
    (tag : Bytes) (tags : Scope CType) (t : CType)
    → holds_tags tags ≡ true
    → find tag tags ≡ some t
    → is_tagged t ≡ true
unfolding find
holds_tags-find tag [] t h e = cc
holds_tags-find tag ((other, u) ∷ rest) t h e = elim (Bool-cases (same_bytes other tag)) [
  | inl b ↦
      let same = rw b at e in
      let first = and_left (is_tagged u) (holds_tags rest) h in cc (same, first)
  | inr b ↦ holds_tags-find tag rest t (and_right (is_tagged u) (holds_tags rest) h) (rw b at e)
]

emplace-tags :
    (tag : Bytes) (t : CType) (tags : Scope CType)
    → is_tagged t ≡ true
    → holds_tags tags ≡ true
    → (is_tagged (emplace tag t tags).0 ≡ true) × (holds_tags (emplace tag t tags).1 ≡ true)
unfolding emplace
emplace-tags tag t tags ht h = elim (Option-cases (find tag tags)) [
  | inl e ↦ rw (e, ht) (refl, h)
  | inr (u, e) ↦ rw e (holds_tags-find tag tags u h e, h)
]

is_tagged-normal : (t : CType) → is_tagged t ≡ true → is_normal t ≡ true
unfolding is_normal
is_tagged-normal (tagged k q a n d) h = refl
is_tagged-normal _ h = cc

qualified-tagged :
    (t : CType) (q : Qualifiers) (pool : ℕ)
    → is_tagged t ≡ true
    → is_tagged (qualified t q pool).0 ≡ true
unfolding qualified
qualified-tagged (tagged k p a n d) q pool h = refl
qualified-tagged _ q pool h = cc

Normal-reuse :
    (loc : SourceLoc) (tag : Bytes) (t canonical : CType) (s : TypeState)
    → is_tagged canonical ≡ true
    → holds_tags s.tags ≡ true
    → Normal (reuse loc tag t canonical s)
unfolding reuse
Normal-reuse loc tag t canonical s hc h =
    if_ind Normal (same_quals (quals canonical) (quals t))
      (λ _. record {
        normal = is_tagged-normal canonical hc;
        tags_kept = same_tags (kind canonical == kind t);
      })
      (λ _. record {
        normal = is_tagged-normal _ (qualified-tagged canonical (quals t) _ hc);
        tags_kept = same_tags (kind canonical == kind t);
      })
  where
    same_tags : (b : Bool) → holds_tags (if b then s else fail_tag loc tag s).tags ≡ true
    same_tags true = h
    same_tags false = h

Normal-normalize_tagged :
    (loc : SourceLoc) (tag : Bytes) (t : CType) (s : TypeState)
    → is_tagged t ≡ true
    → holds_tags s.tags ≡ true
    → Normal (normalize_tagged loc tag t s)
unfolding normalize_tagged
Normal-normalize_tagged loc tag t s ht h =
    let placed = emplace-tags tag t s.tags ht h in
    if_ind Normal (is_empty tag) (λ _. record { normal = is_tagged-normal t ht; tags_kept = h })
      (λ _. Normal-reuse loc tag t _ _ placed.0 placed.1)

not_array : (k : Builtin) → (builtin_kind k == 17 || builtin_kind k == 18) ≡ false
not_array k = ground arith

tag_not_array : (k : TagKind) → (not (tag_kind k == 17 || tag_kind k == 18) && true) ≡ true
tag_not_array k = ground arith

-- An adjusted parameter is normal and neither an array nor a function.
adjust-normal :
    (loc : SourceLoc) (t : CType) (s : TypeState)
    → is_normal t ≡ true
    → holds_tags s.tags ≡ true
    → ((not (is_array (adjust loc t s).0 || is_function (adjust loc t s).0)
          && is_normal (adjust loc t s).0)
        ≡ true)
      × (holds_tags (adjust loc t s).1.tags ≡ true)
unfolding adjust is_normal
adjust-normal loc (builtin k q) s ht h = (rw (not_array k) refl, h)
adjust-normal loc (array q t n) s ht h = (ht, h)
adjust-normal loc (function q t ts v w) s ht h = (ht, h)
adjust-normal loc (tagged k q a n d) s ht h = (tag_not_array k, h)
adjust-normal loc (pointer q t) s ht h = (ht, h)
adjust-normal loc (named q t) s ht h = cc

mutual
  unfolding normalize_type is_normal

  normalize-Normal :
      (t : CType) (loc : SourceLoc) (s : TypeState)
      → holds_tags s.tags ≡ true
      → Normal (normalize_type t loc s)
  normalize-Normal (named q t) loc s h = normalize-Normal t loc s h
  normalize-Normal (tagged k q a tag d) loc s h =
      Normal-normalize_tagged loc tag (tagged k q a tag d) s refl h
  normalize-Normal (pointer q t) loc s h =
      let u = normalize-Normal t loc s h in record { normal = u.normal; tags_kept = u.tags_kept }
  normalize-Normal (array q t n) loc s h =
      let u = normalize-Normal t loc s h in record { normal = u.normal; tags_kept = u.tags_kept }
  normalize-Normal (function q t ts v w) loc s h =
      let u = normalize-Normal t loc s h in
      let us = normalize_params-NormalParams ts loc (normalize_type t loc s).1 u.tags_kept in
      record { normal = rw (u.normal) us.adjusted; tags_kept = us.tags_kept }
  normalize-Normal (builtin k q) loc s h = record { normal = refl; tags_kept = h }

  normalize_params-NormalParams :
      (ts : CTypes) (loc : SourceLoc) (s : TypeState)
      → holds_tags s.tags ≡ true
      → NormalParams (normalize_params ts loc s)
  normalize_params-NormalParams no_types loc s h = record { adjusted = refl; tags_kept = h }
  normalize_params-NormalParams (and_type t ts) loc s h =
      let u = normalize-Normal t loc s h in
      let a =
        adjust-normal loc (normalize_type t loc s).0 (normalize_type t loc s).1 u.normal
          u.tags_kept in
      let us =
        normalize_params-NormalParams ts loc
          (adjust loc (normalize_type t loc s).0 (normalize_type t loc s).1).1 a.1 in
      record { adjusted = rw (a.0) us.adjusted; tags_kept = us.tags_kept }

-- A type that the analysis has normalized has no typedef left and no parameter that is an array or a
-- function, and the map of tags holds struct, union and enum types only, as it did before.
pub normalize_type-is_normal :
    (t : CType) (loc : SourceLoc) (s : TypeState)
    → holds_tags s.tags ≡ true
    → (is_normal (normalize_type t loc s).0 ≡ true)
      × (holds_tags (normalize_type t loc s).1.tags ≡ true)
normalize_type-is_normal t loc s h = let r = normalize-Normal t loc s h in (r.normal, r.tags_kept)
