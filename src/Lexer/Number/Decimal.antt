-- ===== src/Lexer/Number/Decimal.antt =====
-- `lexNumber` of lib/Lex/Lexer.cpp on decimal integers, and the range of every integer token.
use mathlib.Core.List.{append-nil}
use tensorium_cc.Prelude.{
  ℕ, ◌+◌, ◌-◌, ◌*◌, ◌≡◌, refl, ap, ◌∙◌, ◌||◌, Bool, true, false, not, [], ◌∷◌, ◌++◌, ◌==◌, ltb,
  if◌then◌else◌, get_or, length, Bytes, arith,
}
use tensorium_cc.Token.{TokenKind, int_val, make_token}
use tensorium_cc.Numeral.{
  Conversion, converted, out_of_range, digit_value, scan_digits, in_range, has_hex_prefix,
  string_to,
}
use tensorium_cc.Lexer.Bytes.{is_digit}
use tensorium_cc.Lexer.Scan.{Scan, Source, cur, loc}
use tensorium_cc.Lexer.Scan.Reads.{eat-nothing}
use tensorium_cc.Lexer.Scan.Over.{over, Every, eat-Every}
use tensorium_cc.Lexer.Outcome.{lexed, failed}
use tensorium_cc.Lexer.Number.{
  Numeric, push_while, fraction, exponent, numeric, is_suffix, max_int64, number_token, lex_number,
}

-- What the digits of a text are worth, behind digits worth `value`.
abbrev pub decimal_value : ℕ → Bytes → ℕ
decimal_value value [] = value
decimal_value value (c ∷ cs) = decimal_value (value * 10 + (c - b'0')) cs

digit_value-digit :
    (c : ℕ) → is_digit c ≡ true → (digit_value c ≡ c - b'0') × (ltb (digit_value c) 10 ≡ true)
unfolding is_digit digit_value
digit_value-digit c h = ground arith

scan_digits-decimal :
    (ds : Bytes) (value count : ℕ)
    → Every is_digit ds
    → scan_digits 10 value count ds ≡ (decimal_value value ds, count + length ds)
unfolding scan_digits
scan_digits-decimal [] value count all = ap (λ (n : ℕ). (value, n)) (omega arith)
scan_digits-decimal (c ∷ cs) value count all =
    let d = digit_value-digit c all.0 in
    rw (d.1, d.0)
      (scan_digits-decimal cs (value * 10 + (c - b'0')) (count + 1) all.1
        ∙ ap (λ (n : ℕ). (decimal_value value (c ∷ cs), n)) (omega arith))

not_octal : (ds : Bytes) → (get_or ds 0 0 == b'0') ≡ false → has_hex_prefix ds ≡ false
unfolding has_hex_prefix
not_octal ds h = rw h refl

-- `std::stoll` on a decimal numeral.
string_to-decimal :
    (max : ℕ) (c : ℕ) (cs : Bytes)
    → (c == b'0') ≡ false
    → Every is_digit (c ∷ cs)
    → string_to max (c ∷ cs) ≡ (
        if ltb max (decimal_value 0 (c ∷ cs))
        then out_of_range
        else converted (decimal_value 0 (c ∷ cs)) (length (c ∷ cs)))
unfolding string_to in_range
string_to-decimal max c cs lead all =
    rw (not_octal (c ∷ cs) lead, lead, scan_digits-decimal (c ∷ cs) 0 0 all) (ground arith)

-- A byte at which a decimal integer ends.
abbrev pub ends_decimal : ℕ → Bool
ends_decimal c = not (is_digit c || c == b'.' || c == b'e' || c == b'E' || is_suffix c)

-- What such a byte is not.
record Stops (c : ℕ) : Type 0 where
  digit : is_digit c ≡ false
  dot : (c == b'.') ≡ false
  exp : (c == b'e' || c == b'E') ≡ false
  suffix : is_suffix c ≡ false

ends_decimal-Stops : (c : ℕ) → ends_decimal c ≡ true → Stops c
ends_decimal-Stops c h = record {
  digit = ground arith;
  dot = ground arith;
  exp = ground arith;
  suffix = ground arith;
}

module _ (s : Scan) (c : ℕ) (cs rest : Bytes) (lead : (c == b'0') ≡ false)
    (all : Every is_digit (c ∷ cs)) (stops : Stops (get_or rest 0 0))
    (e : s.rest ≡ c ∷ (cs ++ rest)) where
  decimal : Numeric
  decimal = record { text = c ∷ cs; is_float = false; at = over (c ∷ cs) rest s }

  fraction-decimal : fraction decimal ≡ decimal
  unfolding decimal fraction cur
  fraction-decimal = rw stops.dot

  exponent-decimal : exponent decimal ≡ decimal
  unfolding decimal exponent cur
  exponent-decimal = rw stops.exp

  push_while-decimal :
      push_while is_digit (record { text = []; is_float = false; at = s }) ≡ decimal
  unfolding decimal push_while
  push_while-decimal =
      ap (λ (r : Bytes × Scan). record { text = r.0; is_float = false; at = r.1 })
        (eat-Every is_digit rest stops.digit (c ∷ cs) s all e)

  not_zero : (cur s == b'0') ≡ false
  unfolding cur
  not_zero = rw e lead

  numeric-decimal : numeric s ≡ decimal
  unfolding numeric
  numeric-decimal = rw not_zero (
      ap (λ n. exponent (fraction n)) push_while-decimal
      ∙ ap exponent fraction-decimal
      ∙ exponent-decimal)

  suffix-decimal : push_while is_suffix decimal ≡ decimal
  unfolding decimal push_while cur
  suffix-decimal = rw (eat-nothing is_suffix (over (c ∷ cs) rest s) stops.suffix, append-nil)

  lex_number-decimal_digits :
      (stod : Bytes → Conversion) (src : Source)
      → lex_number stod src s
        ≡ number_token TokenKind.int_lit int_val
            (length (c ∷ cs))
            (c ∷ cs)
            (loc src s)
            (over (c ∷ cs) rest s)
            (string_to max_int64 (c ∷ cs))
  unfolding lex_number
  lex_number-decimal_digits stod src =
      rw numeric-decimal (rw suffix-decimal (unfold decimal in refl))

-- A decimal integer of any length that does not begin with 0: its whole text is one INT_LIT with the
-- value of its digits if that is at most 2 ^ 63 - 1, and an error with its whole length otherwise.
pub lex_number-decimal :
    (stod : Bytes → Conversion) (src : Source) (s : Scan) (c : ℕ) (cs rest : Bytes)
    → (c == b'0') ≡ false
    → Every is_digit (c ∷ cs)
    → ends_decimal (get_or rest 0 0) ≡ true
    → s.rest ≡ c ∷ (cs ++ rest)
    → lex_number stod src s ≡ (
        if ltb max_int64 (decimal_value 0 (c ∷ cs))
        then failed "numeric literal is out of range"
            (loc src s)
            (length (c ∷ cs))
            (over (c ∷ cs) rest s)
        else lexed
            (record (make_token TokenKind.int_lit (c ∷ cs) (loc src s)) {
              payload = int_val (decimal_value 0 (c ∷ cs));
            })
            (over (c ∷ cs) rest s))
unfolding number_token
lex_number-decimal stod src s c cs rest lead all ends e =
    lex_number-decimal_digits s c cs rest lead all (ends_decimal-Stops _ ends) e stod src
    ∙ ap
        (number_token TokenKind.int_lit int_val (length (c ∷ cs)) (c ∷ cs) (loc src s)
          (over (c ∷ cs) rest s))
        (string_to-decimal max_int64 c cs lead all)
    ∙ ground arith
