-- ===== src/Sema/Normalize.antt =====
-- `normalizeType` of lib/Sema/SemaDecl.cpp. The source writes the parts of a type in place; here they
-- are those of the result.
pub mod Normal
use tensorium_cc.Prelude.{
  ℕ, ◌+◌, ◌++◌, Bool, true, false, not, ◌&&◌, ◌||◌, Option, none, some, List, [], ◌∷◌, ◌==◌,
  if◌then◌else◌, String, Bytes, codes,
}
use tensorium_cc.Location.{SourceLoc}
use tensorium_cc.Diagnostic.{DiagnosticEngine, error, report}
use tensorium_cc.Sema.Types.{
  Qualifiers, same_quals, TagKind, CType, CTypes, builtin, pointer, array, function, tagged, named,
  no_types, and_type, kind, quals, ptr_to, qualified,
}
use tensorium_cc.Sema.Compatible.{is_empty}
use tensorium_cc.Sema.Validate.{validate_type}
use tensorium_cc.Sema.Symbols.{Scope, find}

-- The members of `Sema` that it changes: `tags`, the type pool and the engine.
pub record TypeState : Type 0 where
  pub tags : Scope CType
  pub pool : ℕ
  pub diag : DiagnosticEngine

-- `tags.emplace(tag, t)` keeps an entry that is there; the result is the entry behind it.
abbrev pub kept_or_added : Bytes → CType → Scope CType → Option CType → CType × Scope CType
kept_or_added tag t tags (some canonical) = (canonical, tags)
kept_or_added tag t tags none = (t, (tag, t) ∷ tags)

unfoldable pub emplace : Bytes → CType → Scope CType → CType × Scope CType
emplace tag t tags = kept_or_added tag t tags (find tag tags)

abbrev pub fail_tag : SourceLoc → Bytes → TypeState → TypeState
fail_tag loc tag s = record s {
  diag = report error loc (codes "conflicting tag kind for '" ++ tag ++ codes "'") 1 s.diag;
}

-- The case of a tag: `t` is the type and `canonical` the entry of `tags`.
unfoldable pub reuse : SourceLoc → Bytes → CType → CType → TypeState → CType × TypeState
reuse loc tag t canonical s =
    let s' = if kind canonical == kind t then s else fail_tag loc tag s in
    if same_quals (quals canonical) (quals t)
    then (canonical, s')
    else let (copy, pool) = qualified canonical (quals t) s'.pool in
      (copy, record s' { pool = pool })

unfoldable pub normalize_tagged : SourceLoc → Bytes → CType → TypeState → CType × TypeState
normalize_tagged loc tag t s =
    if is_empty tag
    then (t, s)
    else let (canonical, tags) = emplace tag t s.tags in
      reuse loc tag t canonical (record s { tags = tags })

-- The adjustment of a parameter: an array is validated and becomes a pointer to its element.
unfoldable pub adjust : SourceLoc → CType → TypeState → CType × TypeState
adjust loc (array q t n) s =
    (ptr_to t, record s { diag = (validate_type (array q t n) loc s.diag).1 })
adjust loc (function q t ts v h) s = (ptr_to (function q t ts v h), s)
adjust loc t s = (t, s)

unfoldable mutual
  pub normalize_type : CType → SourceLoc → TypeState → CType × TypeState
  normalize_type (named q t) loc s = normalize_type t loc s
  normalize_type (tagged k q a tag d) loc s = normalize_tagged loc tag (tagged k q a tag d) s
  normalize_type (pointer q t) loc s = let (u, s') = normalize_type t loc s in (pointer q u, s')
  normalize_type (array q t n) loc s = let (u, s') = normalize_type t loc s in (array q u n, s')
  normalize_type (function q t ts v h) loc s =
      let (u, s') = normalize_type t loc s in
      let (us, s'') = normalize_params ts loc s' in (function q u us v h, s'')
  normalize_type (builtin k q) loc s = (builtin k q, s)

  -- The loop over the parameters.
  pub normalize_params : CTypes → SourceLoc → TypeState → CTypes × TypeState
  normalize_params no_types loc s = (no_types, s)
  normalize_params (and_type t ts) loc s =
      let (u, s') = normalize_type t loc s in
      let (v, s'') = adjust loc u s' in
      let (vs, s''') = normalize_params ts loc s'' in (and_type v vs, s''')
