-- ===== src/Sema/Literal.antt =====
-- `integerLiteralType` of lib/Sema/SemaConversions.cpp, and `fail` of lib/Sema/Sema.cpp.
pub mod First
use tensorium_cc.Prelude.{
  codes, ℕ, ◌+◌, ◌-◌, ◌*◌, ◌^◌, Bool, true, false, not, ◌&&◌, ◌||◌, Option, none, some, List, [],
  ◌∷◌, leb, ltb, ◌==◌, if◌then◌else◌, length, get_or, drop, Bytes, String,
}
use tensorium_cc.Prelude.Int.{ℤ, pos, negsuc}
use tensorium_cc.Location.{SourceLoc}
use tensorium_cc.Diagnostic.{DiagnosticEngine, error, report}
use tensorium_cc.Lexer.Bytes.{is_digit, is_xdigit}
use tensorium_cc.PpExpression.Numbers.{lower}
use tensorium_cc.PpExpression.Operators.{is}
use tensorium_cc.Sema.Types.{Builtin, CType, is_unsigned, make}
use tensorium_cc.Sema.Target.{TargetInfo}
use tensorium_cc.Sema.Conversions.{width}

-- `Sema::fail`, which has no type for the result.
abbrev pub fail : SourceLoc → String → DiagnosticEngine → Option CType × DiagnosticEngine
fail loc message diag = (none, report error loc (codes message) 1 diag)

abbrev pub is_hex : Bytes → Bool
is_hex text =
    ltb 2 (length text)
    && get_or text 0 0 == b'0'
    && (get_or text 1 0 == b'x' || get_or text 1 0 == b'X')

abbrev pub is_nondecimal : Bytes → Bool
is_nondecimal text = ltb 1 (length text) && get_or text 0 0 == b'0'

-- The `while` loop: what stands behind the digits.
unfoldable pub behind_digits : (hex : Bool) → Bytes → Bytes
behind_digits hex [] = []
behind_digits hex (c ∷ cs) =
    if (if hex then is_xdigit c else is_digit c) then behind_digits hex cs else c ∷ cs

unfoldable pub literal_suffix : Bytes → Bytes
literal_suffix text = behind_digits (is_hex text) (drop (if is_hex text then 2 else 0) text)

-- `suffix.find("lL")` or `suffix.find("Ll")` finds something.
unfoldable pub mixes_l : Bytes → Bool
mixes_l (c ∷ d ∷ cs) = (c == b'l' && d == b'L') || (c == b'L' && d == b'l') || mixes_l (d ∷ cs)
mixes_l _ = false

-- The table of candidates, by the suffix in lower case; `none` is an invalid suffix.
unfoldable pub candidates : (nondecimal : Bool) → Bytes → Option (List Builtin)
candidates nondecimal suffix =
    if is suffix ""
    then some (
        if nondecimal
        then Builtin.int ∷ Builtin.uint ∷ Builtin.long ∷ Builtin.ulong ∷ Builtin.longlong
          ∷ Builtin.ulonglong ∷ []
        else Builtin.int ∷ Builtin.long ∷ Builtin.longlong ∷ [])
    else if is suffix "u"
    then some (Builtin.uint ∷ Builtin.ulong ∷ Builtin.ulonglong ∷ [])
    else if is suffix "l"
    then some (
        if nondecimal
        then Builtin.long ∷ Builtin.ulong ∷ Builtin.longlong ∷ Builtin.ulonglong ∷ []
        else Builtin.long ∷ Builtin.longlong ∷ [])
    else if is suffix "ul" || is suffix "lu"
    then some (Builtin.ulong ∷ Builtin.ulonglong ∷ [])
    else if is suffix "ll"
    then some
        (if nondecimal then Builtin.longlong ∷ Builtin.ulonglong ∷ [] else Builtin.longlong ∷ [])
    else if is suffix "ull" || is suffix "llu"
    then some (Builtin.ulonglong ∷ [])
    else none

-- `maximum` of the loop over the candidates.
unfoldable pub maximum : TargetInfo → Builtin → ℕ
maximum target k =
    let bytes = width target (make k) in
    if leb 8 bytes
    then 2 ^ 63 - 1
    else 2 ^ (bytes * 8 - (if is_unsigned (make k) then 0 else 1)) - 1

abbrev pub fits : TargetInfo → ℤ → Builtin → Bool
fits target (pos n) k = leb n (maximum target k)
fits target (negsuc n) k = false

unfoldable pub first_fit : TargetInfo → ℤ → List Builtin → Option CType
first_fit target val [] = none
first_fit target val (k ∷ ks) = if fits target val k then some (make k) else first_fit target val ks

abbrev pub found_or_fail :
    SourceLoc → DiagnosticEngine → Option CType → Option CType × DiagnosticEngine
found_or_fail loc diag (some t) = (some t, diag)
found_or_fail loc diag none = fail loc "integer literal is out of range for target" diag

abbrev pub among :
    TargetInfo
    → SourceLoc
    → ℤ
    → DiagnosticEngine
    → Option (List Builtin)
    → Option CType × DiagnosticEngine
among target loc val diag none = fail loc "invalid integer literal suffix" diag
among target loc val diag (some ks) = found_or_fail loc diag (first_fit target val ks)

-- `e` is its location, its spelling and its value.
unfoldable pub integer_literal_type :
    TargetInfo → SourceLoc → Bytes → ℤ → DiagnosticEngine → Option CType × DiagnosticEngine
integer_literal_type target loc text val diag =
    let suffix = literal_suffix text in
    if mixes_l suffix
    then fail loc "invalid integer literal suffix" diag
    else among target loc val diag (candidates (is_nondecimal text) (lower suffix))
