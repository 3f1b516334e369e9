-- ===== src/PpExpression/Operators.antt =====
-- `precedence` and `apply` of lib/Lex/PPExpression.cpp. An operator is the text of its token.
use Prim.Native.Nat.{bit_and, bit_or, bit_xor}
use tensorium_cc.Prelude.{
  ℕ, ◌+◌, ◌-◌, ◌*◌, ◌/◌, ◌%◌, ◌^◌, Bool, true, false, not, ◌&&◌, ◌||◌, ltb, leb, ◌==◌,
  if◌then◌else◌, Bytes, String, codes, same_bytes,
}
use tensorium_cc.Prelude.Int.{less_ℤ, quotient_ℤ, remainder_ℤ, shift_right_ℤ, signed64, bits64}
use tensorium_cc.Location.{SourceLoc}
use tensorium_cc.PpExpression.State.{State, Value, no_value, bool_value, fail_at}

-- `op == text`.
abbrev pub is : Bytes → String → Bool
is op text = same_bytes op (codes text)

unfoldable pub precedence : Bytes → ℕ
precedence op =
    if is op "||"
    then 1
    else if is op "&&"
    then 2
    else if is op "|"
    then 3
    else if is op "^"
    then 4
    else if is op "&"
    then 5
    else if is op "==" || is op "!="
    then 6
    else if is op "<" || is op "<=" || is op ">" || is op ">="
    then 7
    else if is op "<<" || is op ">>"
    then 8
    else if is op "+" || is op "-"
    then 9
    else if is op "*" || is op "/" || is op "%"
    then 10
    else 0

unfoldable pub is_relational : Bytes → Bool
is_relational op = is op "<" || is op "<=" || is op ">" || is op ">="

unfoldable pub is_logical : Bytes → Bool
is_logical op = is op "&&" || is op "||" || is op "==" || is op "!=" || is_relational op

unfoldable pub is_shift : Bytes → Bool
is_shift op = is op "<<" || is op ">>"

-- `isUnsigned` of `apply`.
unfoldable pub is_unsigned : Bytes → Value → Value → Bool
is_unsigned op left right =
    if is_shift op then left.unsigned_value else left.unsigned_value || right.unsigned_value

abbrev pub word : ℕ → Bool → Value
word n u = record { bits = n % 2 ^ 64; unsigned_value = u }

unfoldable pub relate : Bytes → Bool → ℕ → ℕ → Bool
relate op u a b =
    let less = if u then ltb a b else less_ℤ (signed64 a) (signed64 b) in
    let equal = a == b in
    if is op "<"
    then less
    else if is op "<="
    then less || equal
    else if is op ">"
    then not less && not equal
    else not less

-- The two shifts; the count is `right.bits`.
unfoldable pub shift : SourceLoc → Bytes → Bool → ℕ → ℕ → SourceLoc → State → Value × State
shift loc op u a b at s =
    if leb 64 b
    then (no_value, fail_at loc at "invalid shift count in #if expression" s)
    else if is op "<<"
    then (word (a * 2 ^ b) u, s)
    else if u
    then (word (a / 2 ^ b) u, s)
    else (word (bits64 (shift_right_ℤ (signed64 a) b)) u, s)

abbrev pub min_int64 : ℕ
min_int64 = 2 ^ 63

abbrev pub minus_one : ℕ
minus_one = 2 ^ 64 - 1

-- `/` and `%`.
unfoldable pub divide : SourceLoc → Bytes → Bool → ℕ → ℕ → SourceLoc → State → Value × State
divide loc op u a b at s =
    if b == 0
    then (no_value, fail_at loc at "division by zero in #if expression" s)
    else if u
    then (word (if is op "/" then a / b else a % b) true, s)
    else if a == min_int64 && b == minus_one
    then (no_value, fail_at loc at "integer overflow in #if expression" s)
    else (
      word
          (bits64 (
            if is op "/"
            then quotient_ℤ (signed64 a) (signed64 b)
            else remainder_ℤ (signed64 a) (signed64 b)))
          false,
      s,
    )

-- The part of `apply` for an operand that is evaluated.
unfoldable pub apply_now : SourceLoc → Bytes → Value → Value → SourceLoc → State → Value × State
apply_now loc op left right at s =
    let a = left.bits in
    let b = right.bits in
    let u = is_unsigned op left right in
    if is op "&&"
    then (bool_value (not (a == 0) && not (b == 0)), s)
    else if is op "||"
    then (bool_value (not (a == 0) || not (b == 0)), s)
    else if is op "=="
    then (bool_value (a == b), s)
    else if is op "!="
    then (bool_value (not (a == b)), s)
    else if is_relational op
    then (bool_value (relate op u a b), s)
    else if is op "+"
    then (word (a + b) u, s)
    else if is op "-"
    then (word (a + 2 ^ 64 - b) u, s)
    else if is op "*"
    then (word (a * b) u, s)
    else if is op "&"
    then (word (bit_and a b) u, s)
    else if is op "|"
    then (word (bit_or a b) u, s)
    else if is op "^"
    then (word (bit_xor a b) u, s)
    else if is_shift op
    then shift loc op u a b at s
    else divide loc op u a b at s

unfoldable pub apply : SourceLoc → Bytes → Value → Value → Bool → SourceLoc → State → Value × State
apply loc op left right evaluate at s = if evaluate then apply_now loc op left right at s else (
  record { bits = 0; unsigned_value = if is_logical op then false else is_unsigned op left right },
  s,
)
