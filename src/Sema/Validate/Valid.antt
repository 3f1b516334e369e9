-- ===== src/Sema/Validate/Valid.antt =====
-- The types that `validateType` of lib/Sema/SemaDecl.cpp accepts.
use tensorium_cc.Prelude.{
  ℕ, List, ◌+◌, ◌≡◌, refl, Bool, true, false, not, ◌&&◌, ◌||◌, Option, if◌then◌else◌, String, arith,
}
use tensorium_cc.Location.{SourceLoc}
use tensorium_cc.Diagnostic.{DiagnosticEngine, report}
use tensorium_cc.Sema.Types.{
  Qualifiers, Builtin, TagKind, CType, CTypes, builtin, pointer, array, function, tagged, named,
  no_types, and_type, is_array, is_function, is_void, is_complete,
}
use tensorium_cc.Sema.Validate.{refuse, is_zero, has_none, and_then, validate_type, validate_params}

-- A type that a program may name: arrays have complete elements and a positive or no size, functions
-- return neither arrays nor functions, have a parameter where they are variadic, and none that is void.
mutual
  pub data Valid : CType → Type 0 where
    valid_builtin : (k : Builtin) (q : Qualifiers) → Valid (builtin k q)
    valid_tagged :
        (k : TagKind) (q : Qualifiers) (a : ℕ) (n : List ℕ) (d : Bool) → Valid (tagged k q a n d)
    valid_named : (q : Qualifiers) (t : CType) → Valid (named q t)
    valid_pointer : (q : Qualifiers) (t : CType) → Valid t → Valid (pointer q t)
    valid_array :
        (q : Qualifiers) (t : CType) (n : Option ℕ)
        → is_complete t ≡ true
        → is_zero n ≡ false
        → Valid t
        → Valid (array q t n)
    valid_function :
        (q : Qualifiers) (t : CType) (ts : CTypes) (variadic has_prototype : Bool)
        → (is_array t || is_function t) ≡ false
        → Valid t
        → (variadic && has_none ts) ≡ false
        → ValidParams ts
        → Valid (function q t ts variadic has_prototype)

  pub data ValidParams : CTypes → Type 0 where
    valid_none : ValidParams no_types
    valid_more :
        (t : CType) (ts : CTypes)
        → is_void t ≡ false
        → Valid t
        → ValidParams ts
        → ValidParams (and_type t ts)

-- What a check of `P` answers and reports: nothing where `P` holds, one error where it does not.
pub data Checks (P : Type 0) (diag : DiagnosticEngine) : Bool × DiagnosticEngine → Type 0 where
  accepted : P → Checks P diag (true, diag)
  refused :
      (diag' : DiagnosticEngine)
      → ¬ P
      → diag'.error_count ≡ diag.error_count + 1
      → Checks P diag (false, diag')

Checks-refuse :
    {P : Type 0} (loc : SourceLoc) (message : String) (diag : DiagnosticEngine)
    → ¬ P
    → Checks P diag (refuse loc message diag)
unfolding report refuse
Checks-refuse loc message diag no_p = refused _ no_p refl

Checks-map :
    {P Q : Type 0} (diag : DiagnosticEngine) (r : Bool × DiagnosticEngine)
    → (P → Q)
    → (Q → P)
    → Checks P diag r
    → Checks Q diag r
Checks-map diag r f g (accepted p) = accepted (f p)
Checks-map diag r f g (refused diag' no_p counted) = refused diag' (λ q. no_p (g q)) counted

Checks-and_then :
    {P Q : Type 0} (diag : DiagnosticEngine) (r : Bool × DiagnosticEngine)
    (next : DiagnosticEngine → Bool × DiagnosticEngine)
    → Checks P diag r
    → ((d : DiagnosticEngine) → Checks Q d (next d))
    → Checks (P × Q) diag (and_then r next)
unfolding and_then
Checks-and_then diag r next (accepted p) h =
    Checks-map diag (next diag) (λ q. (p, q)) (λ pq. pq.1) (h diag)
Checks-and_then diag r next (refused diag' no_p counted) h = refused diag' (λ pq. no_p pq.0) counted

Checks-if :
    {P : Type 0} (b : Bool) (loc : SourceLoc) (message : String) (diag : DiagnosticEngine)
    (r : Bool × DiagnosticEngine)
    → (b ≡ true → ¬ P)
    → (b ≡ false → Checks P diag r)
    → Checks P diag (if b then refuse loc message diag else r)
Checks-if true loc message diag r no_p h = Checks-refuse loc message diag (no_p refl)
Checks-if false loc message diag r no_p h = h refl

true-false : (b : Bool) → b ≡ true → ¬ (b ≡ false)
true-false b t f = ground arith

not-false : (b : Bool) → not b ≡ false → b ≡ true
not-false b e = ground arith

pointee-Valid : (q : Qualifiers) (t : CType) → Valid (pointer q t) → Valid t
pointee-Valid q t (valid_pointer _ _ v) = v

array_complete :
    (q : Qualifiers) (t : CType) (n : Option ℕ)
    → Valid (array q t n)
    → ¬ (not (is_complete t) ≡ true)
array_complete q t n (valid_array _ _ _ c z v) e = ground arith

array-positive :
    (q : Qualifiers) (t : CType) (n : Option ℕ) → Valid (array q t n) → ¬ (is_zero n ≡ true)
array-positive q t n (valid_array _ _ _ c z v) e = true-false _ e z

element-Valid : (q : Qualifiers) (t : CType) (n : Option ℕ) → Valid (array q t n) → Valid t
element-Valid q t n (valid_array _ _ _ c z v) = v

function-result :
    (q : Qualifiers) (t : CType) (ts : CTypes) (variadic has_prototype : Bool)
    → Valid (function q t ts variadic has_prototype)
    → ¬ ((is_array t || is_function t) ≡ true)
function-result q t ts w h (valid_function _ _ _ _ _ r v n p) e = true-false _ e r

function-parts :
    (q : Qualifiers) (t : CType) (ts : CTypes) (variadic has_prototype : Bool)
    → Valid (function q t ts variadic has_prototype)
    → Valid t × (((variadic && has_none ts) ≡ false) × ValidParams ts)
function-parts q t ts w h (valid_function _ _ _ _ _ r v n p) = (v, (n, p))

params-void : (t : CType) (ts : CTypes) → ValidParams (and_type t ts) → ¬ (is_void t ≡ true)
params-void t ts (valid_more _ _ z v vs) e = true-false _ e z

params-parts : (t : CType) (ts : CTypes) → ValidParams (and_type t ts) → Valid t × ValidParams ts
params-parts t ts (valid_more _ _ z v vs) = (v, vs)

mutual
  unfolding validate_type

  validate_type-Checks' :
      (t : CType) (loc : SourceLoc) (diag : DiagnosticEngine)
      → Checks (Valid t) diag (validate_type t loc diag)
  validate_type-Checks' (builtin k q) loc diag = accepted (valid_builtin k q)
  validate_type-Checks' (tagged k q a n d) loc diag = accepted (valid_tagged k q a n d)
  validate_type-Checks' (named q t) loc diag = accepted (valid_named q t)
  validate_type-Checks' (pointer q t) loc diag =
      Checks-map diag _ (valid_pointer q t) (pointee-Valid q t) (validate_type-Checks' t loc diag)
  validate_type-Checks' (array q t n) loc diag =
      Checks-if _ loc _ diag _ (λ e v. array_complete q t n v e)
        λ e.
          Checks-if _ loc _ diag _ (λ e' v. array-positive q t n v e')
            λ e'.
              Checks-map diag _ (valid_array q t n (not-false _ e) e') (element-Valid q t n)
                (validate_type-Checks' t loc diag)
  validate_type-Checks' (function q t ts variadic has_prototype) loc diag =
      Checks-if _ loc _ diag _ (λ e v. function-result q t ts variadic has_prototype v e)
        λ e.
          Checks-map diag _ (λ v. valid_function q t ts variadic has_prototype e v.0 v.1.0 v.1.1)
            (function-parts q t ts variadic has_prototype)
            (Checks-and_then diag _ _ (validate_type-Checks' t loc diag) λ d.
              Checks-if _ loc _ d _ (λ e' v. true-false _ e' v.0)
                λ e'. Checks-map d _ (λ v. (e', v)) (λ v. v.1) (validate_params-Checks ts loc d))

  validate_params-Checks :
      (ts : CTypes) (loc : SourceLoc) (diag : DiagnosticEngine)
      → Checks (ValidParams ts) diag (validate_params ts loc diag)
  validate_params-Checks no_types loc diag = accepted valid_none
  validate_params-Checks (and_type t ts) loc diag =
      Checks-if _ loc _ diag _ (λ e v. params-void t ts v e)
        λ e.
          Checks-map diag _ (λ v. valid_more t ts e v.0 v.1) (params-parts t ts)
            (Checks-and_then diag _ _ (validate_type-Checks' t loc diag)
              (λ d. validate_params-Checks ts loc d))

-- The check of a type accepts exactly the valid types: it reports nothing for one, and one error for
-- any other.
pub validate_type-Checks :
    (t : CType) (loc : SourceLoc) (diag : DiagnosticEngine)
    → Checks (Valid t) diag (validate_type t loc diag)
validate_type-Checks t loc diag = validate_type-Checks' t loc diag
