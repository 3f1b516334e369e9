-- ===== src/Sema/Literal/First.antt =====
-- `integerLiteralType` of lib/Sema/SemaConversions.cpp on every form of an integer constant.
use tensorium_cc.Prelude.{
  ℕ, ◌^◌, ◌<◌, ◌≡◌, refl, ap, ◌∙◌, Bool, true, false, not, ◌&&◌, ◌||◌, Option, none, some, List, [],
  ◌∷◌, ◌++◌, leb, ◌==◌, if◌then◌else◌, drop, Bytes, codes, same_bytes, arith, inl, inr, Bool-cases,
}
use tensorium_cc.Prelude.Int.{ℤ, pos, less_ℤ}
use tensorium_cc.Location.{SourceLoc}
use tensorium_cc.Diagnostic.{DiagnosticEngine}
use tensorium_cc.Lexer.Bytes.{is_digit, is_xdigit}
use tensorium_cc.Lexer.Scan.Over.{Every}
use tensorium_cc.PpExpression.Numbers.{lower}
use tensorium_cc.Sema.Types.{Builtin, CType, is_unsigned, make, rank}
use tensorium_cc.Sema.Target.{Arch, TargetInfo, target_info}
use tensorium_cc.Sema.Conversions.Common.{max_value, arithmetic_types}
use tensorium_cc.Sema.Literal.{
  is_hex, is_nondecimal, behind_digits, literal_suffix, mixes_l, candidates, maximum, first_fit,
  found_or_fail, integer_literal_type,
}

pub data Suffix : Type 0 where
  plain u l ul lu ll ull llu : Suffix

-- The letters of a suffix, all in upper case or all in lower case.
abbrev pub letters : (upper : Bool) → Suffix → Bytes
letters true Suffix.plain = []
letters true Suffix.u = codes "U"
letters true Suffix.l = codes "L"
letters true Suffix.ul = codes "UL"
letters true Suffix.lu = codes "LU"
letters true Suffix.ll = codes "LL"
letters true Suffix.ull = codes "ULL"
letters true Suffix.llu = codes "LLU"
letters false Suffix.plain = []
letters false Suffix.u = codes "u"
letters false Suffix.l = codes "l"
letters false Suffix.ul = codes "ul"
letters false Suffix.lu = codes "lu"
letters false Suffix.ll = codes "ll"
letters false Suffix.ull = codes "ull"
letters false Suffix.llu = codes "llu"

-- The rank that a suffix asks for, and whether it asks for an unsigned type.
abbrev pub least_rank : Suffix → ℤ
least_rank Suffix.plain = pos 3
least_rank Suffix.u = pos 3
least_rank Suffix.l = pos 4
least_rank Suffix.ul = pos 4
least_rank Suffix.lu = pos 4
least_rank _ = pos 5

abbrev pub asks_unsigned : Suffix → Bool
asks_unsigned Suffix.plain = false
asks_unsigned Suffix.l = false
asks_unsigned Suffix.ll = false
asks_unsigned _ = true

-- A constant with this suffix may have the type: a decimal one is unsigned only where it asks for it.
abbrev pub is_allowed : (nondecimal : Bool) → Suffix → Builtin → Bool
is_allowed nondecimal x k =
    not (less_ℤ (rank (make k)) (least_rank x))
    && (if asks_unsigned x then is_unsigned (make k) else nondecimal || not (is_unsigned (make k)))

-- The first type that is allowed and holds the value.
abbrev pub first_holding :
    TargetInfo → (nondecimal : Bool) → Suffix → ℕ → List Builtin → Option CType
first_holding target nondecimal x n [] = none
first_holding target nondecimal x n (k ∷ ks) =
    if is_allowed nondecimal x k && leb n (max_value target k)
    then some (make k)
    else first_holding target nondecimal x n ks

-- The three forms of a constant by its digits; an octal one begins with 0 and has another digit.
pub data Spelled : (nondecimal : Bool) → (digits : Bytes) → Type 0 where
  decimal :
      (c : ℕ) (cs : Bytes) → (c == b'0') ≡ false → Every is_digit (c ∷ cs) → Spelled false (c ∷ cs)
  octal : (c : ℕ) (cs : Bytes) → Every is_digit (c ∷ cs) → Spelled true (b'0' ∷ c ∷ cs)
  hexadecimal :
      (c : ℕ) (cs : Bytes) → Every is_xdigit (c ∷ cs) → Spelled true (b'0' ∷ b'x' ∷ c ∷ cs)

behind_digits-letters :
    (hex upper : Bool) (x : Suffix) → behind_digits hex (letters upper x) ≡ letters upper x
unfolding behind_digits is_digit is_xdigit
behind_digits-letters hex upper x = ground arith

behind_digits-append :
    (hex : Bool) (ds rest : Bytes)
    → Every (λ c. if hex then is_xdigit c else is_digit c) ds
    → behind_digits hex (ds ++ rest) ≡ behind_digits hex rest
unfolding behind_digits
behind_digits-append hex [] rest all = refl
behind_digits-append hex (c ∷ cs) rest all = rw (all.0) (behind_digits-append hex cs rest all.1)

digit-not_x : (c : ℕ) → is_digit c ≡ true → (c == b'x' || c == b'X') ≡ false
unfolding is_digit
digit-not_x c h = ground arith

-- Whether the digits are hexadecimal.
abbrev has_hex : {nondecimal : Bool} {digits : Bytes} → Spelled nondecimal digits → Bool
has_hex (decimal c cs h all) = false
has_hex (octal c cs all) = false
has_hex (hexadecimal c cs all) = true

is_hex-Spelled :
    {nondecimal : Bool} {digits : Bytes} (form : Spelled nondecimal digits) (rest : Bytes)
    → is_hex (digits ++ rest) ≡ has_hex form
is_hex-Spelled (decimal c cs h all) rest = rw h (ground arith)
is_hex-Spelled (octal c cs all) rest = rw (digit-not_x c all.0) (ground arith)
is_hex-Spelled (hexadecimal c cs all) rest = ground arith

is_nondecimal-Spelled :
    {nondecimal : Bool} {digits : Bytes}
    → Spelled nondecimal digits
    → (rest : Bytes) → is_nondecimal (digits ++ rest) ≡ nondecimal
is_nondecimal-Spelled (decimal c cs h all) rest = rw h (ground arith)
is_nondecimal-Spelled (octal c cs all) rest = ground arith
is_nondecimal-Spelled (hexadecimal c cs all) rest = ground arith

behind_digits-Spelled :
    {nondecimal : Bool} {digits : Bytes} (form : Spelled nondecimal digits) (rest : Bytes)
    → behind_digits (has_hex form) (drop (if has_hex form then 2 else 0) (digits ++ rest))
      ≡ behind_digits (has_hex form) rest
behind_digits-Spelled (decimal c cs h all) rest = behind_digits-append false (c ∷ cs) rest all
behind_digits-Spelled (octal c cs all) rest =
    behind_digits-append false (b'0' ∷ c ∷ cs) rest (unfold is_digit in refl, all)
behind_digits-Spelled (hexadecimal c cs all) rest = behind_digits-append true (c ∷ cs) rest all

literal_suffix-letters :
    {nondecimal : Bool} {digits : Bytes} (form : Spelled nondecimal digits) (upper : Bool)
    (x : Suffix)
    → literal_suffix (digits ++ letters upper x) ≡ letters upper x
unfolding literal_suffix
literal_suffix-letters form upper x =
    rw (is_hex-Spelled form (letters upper x))
      (behind_digits-Spelled form (letters upper x) ∙ behind_digits-letters (has_hex form) upper x)

fits-max_value :
    (arch : Arch) (k : Builtin) (n : ℕ)
    → n < 2 ^ 63
    → less_ℤ (rank (make k)) (pos 3) ≡ false
    → leb n (maximum (target_info arch) k) ≡ leb n (max_value (target_info arch) k)
unfolding maximum
fits-max_value arch k n h hk = ground arith

mixes_l-letters : (upper : Bool) (x : Suffix) → mixes_l (letters upper x) ≡ false
unfolding mixes_l
mixes_l-letters upper x = ground arith

-- The types that are allowed.
abbrev allowed_of : (nondecimal : Bool) → Suffix → List Builtin → List Builtin
allowed_of nondecimal x [] = []
allowed_of nondecimal x (k ∷ ks) =
    if is_allowed nondecimal x k then k ∷ allowed_of nondecimal x ks else allowed_of nondecimal x ks

candidates-letters :
    (nondecimal upper : Bool) (x : Suffix)
    → candidates nondecimal (lower (letters upper x))
      ≡ some (allowed_of nondecimal x arithmetic_types)
unfolding candidates lower same_bytes
candidates-letters nondecimal upper Suffix.plain = ground arith
candidates-letters nondecimal upper Suffix.u = ground arith
candidates-letters nondecimal upper Suffix.l = ground arith
candidates-letters nondecimal upper Suffix.ul = ground arith
candidates-letters nondecimal upper Suffix.lu = ground arith
candidates-letters nondecimal upper Suffix.ll = ground arith
candidates-letters nondecimal upper Suffix.ull = ground arith
candidates-letters nondecimal upper Suffix.llu = ground arith

-- Every type of the list has at least the rank of int.
abbrev AtLeastInt : List Builtin → Type 0
AtLeastInt [] = Unit
AtLeastInt (k ∷ ks) = (less_ℤ (rank (make k)) (pos 3) ≡ false) × AtLeastInt ks

first_fit-allowed_of :
    (arch : Arch) (nondecimal : Bool) (x : Suffix) (n : ℕ) (ks : List Builtin)
    → n < 2 ^ 63
    → AtLeastInt ks
    → first_fit (target_info arch) (pos n) (allowed_of nondecimal x ks)
      ≡ first_holding (target_info arch) nondecimal x n ks
unfolding first_fit
first_fit-allowed_of arch nondecimal x n [] hn all = refl
first_fit-allowed_of arch nondecimal x n (k ∷ ks) hn all =
    let same = fits-max_value arch k n hn all.0 in
    let rest = first_fit-allowed_of arch nondecimal x n ks hn all.1 in
    elim (Bool-cases (is_allowed nondecimal x k)) [
      | inl yes_k ↦ rw (yes_k, same, rest) refl
      | inr no_k ↦ rw (no_k) rest
    ]

-- An integer constant has the first type of the standard's list that it may have and that holds its
-- value, on each target, and an error where there is none: the list is int, unsigned int, long,
-- unsigned long, long long and unsigned long long from the suffix's rank on, the unsigned ones only
-- for a suffix with u or a constant that is octal or hexadecimal, the signed ones only without u.
-- Condition: the suffix is all in lower or all in upper case, the digits are decimal without a
-- leading 0, octal with one and another digit, or hexadecimal behind 0x, and the value is below 2 ^ 63.
pub integer_literal_type-first_holding :
    (arch : Arch) (loc : SourceLoc) (diag : DiagnosticEngine) (nondecimal upper : Bool)
    (digits : Bytes) (x : Suffix) (n : ℕ)
    → Spelled nondecimal digits
    → n < 2 ^ 63
    → integer_literal_type (target_info arch) loc (digits ++ letters upper x) (pos n) diag
      ≡ found_or_fail loc diag (first_holding (target_info arch) nondecimal x n arithmetic_types)
unfolding integer_literal_type
integer_literal_type-first_holding arch loc diag nondecimal upper digits x n form hn =
    rw
      (
        literal_suffix-letters form upper x,
        mixes_l-letters upper x,
        is_nondecimal-Spelled form (letters upper x),
        candidates-letters nondecimal upper x,
      )
      (ap (found_or_fail loc diag) (
        first_fit-allowed_of arch nondecimal x n arithmetic_types hn
          (refl, (refl, (refl, (refl, (refl, (refl, tt))))))))
