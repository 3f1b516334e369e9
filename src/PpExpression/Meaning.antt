-- ===== src/PpExpression/Meaning.antt =====
-- What the C standard says of the operators and constants of a directive, for the evaluator of
-- lib/Lex/PPExpression.cpp to be compared with: spelling, level and meaning of each operator, on bits
-- of 64-bit integers that are signed or not.
use Prim.Native.Nat.{bit_and, bit_or, bit_xor}
use tensorium_cc.Prelude.{
  ℕ, ◌+◌, ◌-◌, ◌*◌, ◌^◌, ◌%◌, ◌≤◌, ◌<◌, ◌≡◌, ◌⊎◌, Bool, true, false, not, ◌&&◌, ◌||◌, Option, none,
  some, [], ◌∷◌, ◌++◌, ltb, ◌==◌, if◌then◌else◌, drop, Bytes, String, codes,
}
use tensorium_cc.Prelude.Int.{
  ℤ, pos, less_ℤ, quotient_ℤ, remainder_ℤ, shift_right_ℤ, signed64, bits64,
}
use tensorium_cc.Numeral.{converted, string_to}
use tensorium_cc.Lexer.Bytes.{is_ident_start}
use tensorium_cc.Lexer.Literal.Chars.{escape_char}
use tensorium_cc.Preprocessor.{PpToken, PpTokenKind}
use tensorium_cc.PpExpression.State.{Value}

pub data BinaryOperator : Type 0 where
  or and bitwise_or bitwise_xor bitwise_and equal unequal : BinaryOperator
  less at_most greater at_least left_shift right_shift : BinaryOperator
  plus minus times over modulo : BinaryOperator

abbrev pub spelling : BinaryOperator → String
spelling or = "||"
spelling and = "&&"
spelling bitwise_or = "|"
spelling bitwise_xor = "^"
spelling bitwise_and = "&"
spelling equal = "=="
spelling unequal = "!="
spelling less = "<"
spelling at_most = "<="
spelling greater = ">"
spelling at_least = ">="
spelling left_shift = "<<"
spelling right_shift = ">>"
spelling plus = "+"
spelling minus = "-"
spelling times = "*"
spelling over = "/"
spelling modulo = "%"

-- The level in the grammar, from logical-OR-expression to multiplicative-expression.
abbrev pub level : BinaryOperator → ℕ
level or = 1
level and = 2
level bitwise_or = 3
level bitwise_xor = 4
level bitwise_and = 5
level equal = 6
level unequal = 6
level less = 7
level at_most = 7
level greater = 7
level at_least = 7
level left_shift = 8
level right_shift = 8
level plus = 9
level minus = 9
level times = 10
level over = 10
level modulo = 10

-- The common type of two operands is unsigned if one of them is.
abbrev pub common : Value → Value → Bool
common a b = a.unsigned_value || b.unsigned_value

-- The integer that the bits are in a type.
abbrev pub integer : (unsigned_type : Bool) → ℕ → ℤ
integer true n = pos n
integer false n = signed64 n

-- The integer is kept modulo 2 ^ 64.
abbrev pub kept : Bool → ℕ → Value
kept u n = record { bits = n % 2 ^ 64; unsigned_value = u }

abbrev pub truth : Bool → Value
truth true = record { bits = 1; unsigned_value = false }
truth false = record { bits = 0; unsigned_value = false }

abbrev pub is_true : Value → Bool
is_true v = not (v.bits == 0)

pub data Order : Type 0 where
  below same above : Order

-- The order of the operands in their common type.
abbrev pub order : Value → Value → Order
order a b =
    if less_ℤ (integer (common a b) a.bits) (integer (common a b) b.bits)
    then below
    else if a.bits == b.bits
    then same
    else above

abbrev pub is_below : Order → Bool
is_below below = true
is_below _ = false

abbrev pub is_above : Order → Bool
is_above above = true
is_above _ = false

-- The quotient is no value if the divisor is 0, or if the common type is signed and does not hold it:
-- the least integer divided by -1.
abbrev pub divides : Value → Value → Bool
divides a b = not (b.bits == 0) && (common a b || not (a.bits == 2 ^ 63 && b.bits == 2 ^ 64 - 1))

abbrev pub only_if {ℓ} : {A : Type ℓ} → Bool → A → Option A
only_if true a = some a
only_if false a = none

-- `none` is an operation that the standard does not define.
unfoldable pub meaning : BinaryOperator → Value → Value → Option Value
meaning or a b = some (truth (is_true a || is_true b))
meaning and a b = some (truth (is_true a && is_true b))
meaning bitwise_or a b = some (kept (common a b) (bit_or a.bits b.bits))
meaning bitwise_xor a b = some (kept (common a b) (bit_xor a.bits b.bits))
meaning bitwise_and a b = some (kept (common a b) (bit_and a.bits b.bits))
meaning equal a b = some (truth (a.bits == b.bits))
meaning unequal a b = some (truth (not (a.bits == b.bits)))
meaning less a b = some (truth (is_below (order a b)))
meaning at_most a b = some (truth (not (is_above (order a b))))
meaning greater a b = some (truth (is_above (order a b)))
meaning at_least a b = some (truth (not (is_below (order a b))))
meaning left_shift a b = only_if (ltb b.bits 64) (kept a.unsigned_value (a.bits * 2 ^ b.bits))
meaning right_shift a b =
    only_if (ltb b.bits 64)
      (kept a.unsigned_value (bits64 (shift_right_ℤ (integer a.unsigned_value a.bits) b.bits)))
meaning plus a b = some (kept (common a b) (a.bits + b.bits))
meaning minus a b = some (kept (common a b) (a.bits + 2 ^ 64 - b.bits))
meaning times a b = some (kept (common a b) (a.bits * b.bits))
meaning over a b = only_if (divides a b) (
    kept (common a b)
      (bits64 (quotient_ℤ (integer (common a b) a.bits) (integer (common a b) b.bits))))
meaning modulo a b = only_if (divides a b) (
    kept (common a b)
      (bits64 (remainder_ℤ (integer (common a b) a.bits) (integer (common a b) b.bits))))

-- Whether the result has an unsigned type, which an operand that is not evaluated has as well.
abbrev pub result_type : BinaryOperator → Value → Value → Bool
result_type or a b = false
result_type and a b = false
result_type equal a b = false
result_type unequal a b = false
result_type less a b = false
result_type at_most a b = false
result_type greater a b = false
result_type at_least a b = false
result_type left_shift a b = a.unsigned_value
result_type right_shift a b = a.unsigned_value
result_type _ a b = common a b

-- The value of an operation that is evaluated, and what stands for it where it is not.
pub data Yields (o : BinaryOperator) (a b : Value) : Bool → Value → Type 0 where
  evaluates : {v : Value} → meaning o a b ≡ some v → Yields o a b true v
  skipped : Yields o a b false (record { bits = 0; unsigned_value = result_type o a b })

-- Whether the right operand is evaluated.
abbrev pub goes_right : Bool → BinaryOperator → Value → Bool
goes_right evaluate and a = evaluate && is_true a
goes_right evaluate or a = evaluate && not (is_true a)
goes_right evaluate _ a = evaluate

pub data UnaryOperator : Type 0 where
  positive negative complement negation : UnaryOperator

abbrev pub unary_spelling : UnaryOperator → String
unary_spelling positive = "+"
unary_spelling negative = "-"
unary_spelling complement = "~"
unary_spelling negation = "!"

abbrev pub unary_meaning : UnaryOperator → Value → Value
unary_meaning positive v = v
unary_meaning negative v = kept v.unsigned_value (2 ^ 64 - v.bits)
unary_meaning complement v = record v { bits = 2 ^ 64 - 1 - v.bits }
unary_meaning negation v = truth (not (is_true v))

-- The operand's type is kept by all but the negation.
abbrev pub unary_value : UnaryOperator → Bool → Value → Value
unary_value o true v = unary_meaning o v
unary_value negation false v = record { bits = 0; unsigned_value = false }
unary_value o false v = record { bits = 0; unsigned_value = v.unsigned_value }

-- A letter of a suffix in lower or upper case.
pub data SameLetters : Bytes → Bytes → Type 0 where
  no_letters : SameLetters [] []
  lower_case : {c : ℕ} {s t : Bytes} → b'Z' < c → SameLetters s t → SameLetters (c ∷ s) (c ∷ t)
  upper_case :
      {c : ℕ} {s t : Bytes}
      → b'A' ≤ c
      → c ≤ b'Z'
      → SameLetters s t
      → SameLetters (c ∷ s) ((c + 32) ∷ t)

-- The suffixes of an integer constant, and whether one asks for an unsigned type.
pub data Suffix : Bytes → Bool → Type 0 where
  no_suffix : Suffix [] false
  suffix_u : Suffix (codes "u") true
  suffix_l : Suffix (codes "l") false
  suffix_ll : Suffix (codes "ll") false
  suffix_ul : Suffix (codes "ul") true
  suffix_lu : Suffix (codes "lu") true
  suffix_ull : Suffix (codes "ull") true
  suffix_llu : Suffix (codes "llu") true

abbrev pub max_signed : ℕ
max_signed = 2 ^ 63 - 1

-- A constant and its value. A name that is no macro is 0. An integer is what std::stoull reads in base
-- 0, behind which a suffix stands; without `u` it is unsigned if it needs to be, which only an octal or
-- hexadecimal one may. A character between quotes is its byte.
pub data IsConstant (t : PpToken) : Value → Type 0 where
  name :
      (c : ℕ) (cs : Bytes)
      → t.kind ≡ PpTokenKind.identifier
      → t.text ≡ c ∷ cs
      → is_ident_start c ≡ true
      → IsConstant t (record { bits = 0; unsigned_value = false })
  integer_constant :
      {u : Bool} {suffix : Bytes} (c : ℕ) (cs : Bytes) (n end : ℕ)
      → t.kind ≡ PpTokenKind.number
      → t.text ≡ c ∷ cs
      → b'0' ≤ c
      → c ≤ b'9'
      → string_to (2 ^ 64 - 1) t.text ≡ converted n end
      → SameLetters (drop end t.text) suffix
      → Suffix suffix u
      → (n ≤ max_signed ⊎ (u ≡ true ⊎ c ≡ b'0'))
      → IsConstant t (record { bits = n; unsigned_value = u || ltb max_signed n })
  character_constant :
      (c : ℕ)
      → t.kind ≡ PpTokenKind.character
      → c < 256
      → t.text ≡ b'\'' ∷ (escape_char c ++ (b'\'' ∷ []))
      → IsConstant t (record { bits = c; unsigned_value = false })
