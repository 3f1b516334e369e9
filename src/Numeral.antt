-- ===== src/Numeral.antt =====
-- `std::stoll` and `std::stoull` with base 0, for a text that begins with no space and no sign, as
-- lib/Lex/Lexer.cpp and lib/Lex/PPExpression.cpp call them.
use tensorium_cc.Prelude.{
  ℕ, ◌+◌, ◌-◌, ◌*◌, ◌&&◌, ◌||◌, Bool, [], ◌∷◌, ltb, leb, ◌==◌, if◌then◌else◌, get_or, drop, Bytes,
}

-- A value with the number of bytes it took, or one of the exceptions.
pub data Conversion : Type 0 where
  converted : ℕ → ℕ → Conversion
  invalid_argument out_of_range : Conversion

-- 36 stands for a byte that is a digit in no base.
unfoldable pub digit_value : ℕ → ℕ
digit_value c =
    if leb b'0' c && leb c b'9'
    then c - 48
    else if leb b'a' c && leb c b'z'
    then c - 87
    else if leb b'A' c && leb c b'Z'
    then c - 55
    else 36

-- The value and the number of the digits in front, behind `count` digits of value `value`.
unfoldable pub scan_digits : ℕ → ℕ → ℕ → Bytes → ℕ × ℕ
scan_digits base value count [] = (value, count)
scan_digits base value count (c ∷ cs) =
    let more = scan_digits base (value * base + digit_value c) (count + 1) cs in
    if ltb (digit_value c) base then more else (value, count)

unfoldable pub in_range : ℕ → ℕ → ℕ × ℕ → Conversion
in_range max skipped (value, count) =
    if count == 0
    then invalid_argument
    else if ltb max value
    then out_of_range
    else converted value (skipped + count)

unfoldable pub has_hex_prefix : Bytes → Bool
has_hex_prefix text =
    get_or text 0 0 == b'0'
    && (get_or text 1 0 == b'x' || get_or text 1 0 == b'X')
    && ltb (digit_value (get_or text 2 0)) 16

-- The base by the prefix, as base 0 asks for. A "0x" with no digit behind it is the octal 0.
unfoldable pub string_to : ℕ → Bytes → Conversion
string_to max text =
    if has_hex_prefix text
    then in_range max 2 (scan_digits 16 0 0 (drop 2 text))
    else if get_or text 0 0 == b'0'
    then in_range max 0 (scan_digits 8 0 0 text)
    else in_range max 0 (scan_digits 10 0 0 text)
