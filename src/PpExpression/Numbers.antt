-- ===== src/PpExpression/Numbers.antt =====
-- `number` of lib/Lex/PPExpression.cpp.
use tensorium_cc.Prelude.{
  ℕ, ◌+◌, ◌-◌, ◌^◌, Bool, true, false, not, ◌&&◌, ◌||◌, [], ◌∷◌, ltb, leb, ◌==◌, if◌then◌else◌,
  get_or, drop, Bytes,
}
use tensorium_cc.Location.{SourceLoc}
use tensorium_cc.Numeral.{Conversion, converted, invalid_argument, out_of_range, string_to}
use tensorium_cc.Preprocessor.{PpToken}
use tensorium_cc.PpExpression.State.{State, Value, no_value, fail}
use tensorium_cc.PpExpression.Operators.{is}

unfoldable pub lower : Bytes → Bytes
lower [] = []
lower (c ∷ cs) = (if leb b'A' c && leb c b'Z' then c + 32 else c) ∷ lower cs

unfoldable pub is_suffix : Bytes → Bool
is_suffix s =
    is s ""
    || is s "u"
    || is s "l"
    || is s "ll"
    || is s "ul"
    || is s "lu"
    || is s "ull"
    || is s "llu"

-- `suffix.find('u') != npos`.
unfoldable pub has_u : Bytes → Bool
has_u [] = false
has_u (c ∷ cs) = c == b'u' || has_u cs

abbrev pub max_uint64 : ℕ
max_uint64 = 2 ^ 64 - 1

abbrev pub max_int64 : ℕ
max_int64 = 2 ^ 63 - 1

-- The `try` block behind the conversion; `suffix` is in lower case.
unfoldable pub suffixed : SourceLoc → Bytes → ℕ → Bytes → State → Value × State
suffixed loc text value suffix s =
    if not (is_suffix suffix)
    then (no_value, fail loc "expected integer constant in #if expression" s)
    else if not (has_u suffix) && ltb max_int64 value
    then (if not (get_or text 0 0 == b'0')
        then (no_value, fail loc "integer constant is out of range in #if expression" s)
        else (record { bits = value; unsigned_value = true }, s))
    else (record { bits = value; unsigned_value = has_u suffix }, s)

abbrev pub number_of : SourceLoc → Bytes → State → Conversion → Value × State
number_of loc text s (converted value end) = suffixed loc text value (lower (drop end text)) s
number_of loc text s invalid_argument =
    (no_value, fail loc "expected integer constant in #if expression" s)
number_of loc text s out_of_range =
    (no_value, fail loc "integer constant is out of range in #if expression" s)

unfoldable pub number : SourceLoc → PpToken → State → Value × State
number loc token s = number_of loc token.text s (string_to max_uint64 token.text)
