-- ===== src/Diagnostic/Render/Numbers.antt =====
-- The decimal numbers in what `render` of lib/Basic/Diagnostic.cpp writes.
use tensorium_cc.Prelude.{
  ℕ, zero, suc, ◌+◌, ◌-◌, ◌*◌, ◌/◌, ◌%◌, ◌<◌, ◌≡◌, ap, ◌∙◌, Bool-cases, inl, inr, [], ◌∷◌, ◌==◌,
  Bytes, arith,
}
use tensorium_cc.Diagnostic.Render.{decimal_over, to_string}

-- What the digits of a text are worth, behind digits worth `value`.
abbrev pub digits_value : ℕ → Bytes → ℕ
digits_value value [] = value
digits_value value (c ∷ cs) = digits_value (value * 10 + (c - b'0')) cs

decimal_over-digits_value :
    (fuel n : ℕ) (ds : Bytes)
    → n < fuel
    → digits_value 0 (decimal_over fuel n ds) ≡ digits_value n ds
unfolding decimal_over
decimal_over-digits_value zero n ds h = elim h [ ]
decimal_over-digits_value (suc fuel) n ds h = elim (Bool-cases (n / 10 == 0)) [
  | inl e ↦
      let small : n / 10 ≡ 0 = ground arith in rw e (ap (λ v. digits_value v ds) (omega arith))
  | inr e ↦
      let big : 0 < n / 10 = ground arith in
      rw e (
        decimal_over-digits_value fuel (n / 10) ((b'0' + n % 10) ∷ ds) (omega arith)
        ∙ ap (λ v. digits_value v ds) (omega arith))
]

-- A number is written with the digits that it is worth: the rounds of `to_string` are enough.
pub to_string-digits_value : (n : ℕ) → digits_value 0 (to_string n) ≡ n
unfolding to_string
to_string-digits_value n = decimal_over-digits_value (suc n) n [] (omega arith)
