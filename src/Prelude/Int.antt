-- ===== src/Prelude/Int.antt =====
-- Signed integers, with the order, the truncated division and the shifts of a C++ `int64_t`.
use Prim.Native.Nat.{ℕ, zero, suc, ◌-◌, ◌/◌, ◌%◌, ◌^◌}
use mathlib.Core.Bool.{Bool, true, false}
use tensorium_cc.Prelude.Tests.{ltb, if◌then◌else◌}

-- `negsuc n` is -(n + 1).
pub data ℤ : Type 0 where
  pos : ℕ → ℤ
  negsuc : ℕ → ℤ

abbrev pub magnitude : ℤ → ℕ
magnitude (pos n) = n
magnitude (negsuc n) = suc n

-- The integer of a magnitude, negated.
abbrev pub minus : ℕ → ℤ
minus zero = pos 0
minus (suc n) = negsuc n

abbrev pub less_ℤ : ℤ → ℤ → Bool
less_ℤ (pos a) (pos b) = ltb a b
less_ℤ (pos a) (negsuc b) = false
less_ℤ (negsuc a) (pos b) = true
less_ℤ (negsuc a) (negsuc b) = ltb b a

-- `/` and `%`, which round towards zero.
abbrev pub quotient_ℤ : ℤ → ℤ → ℤ
quotient_ℤ (pos a) (pos b) = pos (a / b)
quotient_ℤ (pos a) (negsuc b) = minus (a / suc b)
quotient_ℤ (negsuc a) (pos b) = minus (suc a / b)
quotient_ℤ (negsuc a) (negsuc b) = pos (suc a / suc b)

abbrev pub remainder_ℤ : ℤ → ℤ → ℤ
remainder_ℤ (pos a) b = pos (a % magnitude b)
remainder_ℤ (negsuc a) b = minus (suc a % magnitude b)

-- `>>` of a negative value keeps the sign.
abbrev pub shift_right_ℤ : ℤ → ℕ → ℤ
shift_right_ℤ (pos a) k = pos (a / 2 ^ k)
shift_right_ℤ (negsuc a) k = negsuc (a / 2 ^ k)

-- The `int64_t` of 64 bits, and the bits of an integer.
abbrev pub signed64 : ℕ → ℤ
signed64 b = if ltb b (2 ^ 63) then pos b else negsuc (2 ^ 64 - 1 - b)

abbrev pub bits64 : ℤ → ℕ
bits64 (pos n) = n % 2 ^ 64
bits64 (negsuc n) = 2 ^ 64 - 1 - n % 2 ^ 64
