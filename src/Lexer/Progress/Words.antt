-- ===== src/Lexer/Progress/Words.antt =====
-- `lexIdent`, `lexNumber` and `lexPunct` move over input, by a byte at least.
use tensorium_cc.Prelude.{
  ℕ, ◌≡◌, ◌≢◌, refl, ap, [], ◌&&◌, ◌||◌, Bool, true, false, ◌==◌, Bool-cases, and_left, and_right,
  if_ind, inl, inr, Bytes, arith,
}
use mathlib.Core.Path.{subst}
use tensorium_cc.Location.{SourceLoc}
use tensorium_cc.Token.{TokenKind, Payload}
use tensorium_cc.Numeral.{Conversion, converted, invalid_argument, out_of_range}
use tensorium_cc.Lexer.Bytes.{is_digit, is_xdigit, is_ident, is_ident_start}
use tensorium_cc.Lexer.Scan.{Scan, Source, cur, look, advance}
use tensorium_cc.Lexer.Scan.Reads.{
  Reads, Reads-refl, Reads-trans, Takes, Takes-trans, Takes-advance, IsLive, IsLive-cur,
  IsLive-look, Reads-eat, Takes-eat, eat-nothing,
}
use tensorium_cc.Lexer.Outcome.{behind}
use tensorium_cc.Lexer.Ident.{lex_ident}
use tensorium_cc.Lexer.Number.{
  Numeric, push_one, push_while, floating, hexadecimal, fraction, sign, exponent, numeric,
  is_suffix, number_token, lex_number,
}

is_ident-start : (c : ℕ) → is_ident_start c ≡ true → is_ident c ≡ true
unfolding is_ident_start is_ident
is_ident-start c h = ground arith

pub Takes-lex_ident :
    (src : Source) (s : Scan)
    → IsLive s
    → is_ident_start (cur s) ≡ true
    → Takes s (behind (lex_ident src s))
unfolding lex_ident
Takes-lex_ident src s live h = Takes-eat is_ident s live (is_ident-start (cur s) h)

Takes-push_one : (n : Numeric) → IsLive n.at → Takes n.at (push_one n).at
unfolding push_one
Takes-push_one n live = Takes-advance n.at live

Reads-push_while : (p : ℕ → Bool) (n : Numeric) → Reads n.at (push_while p n).at
unfolding push_while
Reads-push_while p n = Reads-eat p n.at

Takes-fraction : (n : Numeric) → (cur n.at == b'.') ≡ true → Takes n.at (fraction n).at
unfolding fraction
Takes-fraction n h = rw h (
    Takes-trans (Takes-push_one (floating n) (IsLive-cur n.at b'.' (omega arith) h))
      (Reads-push_while is_digit _))

Reads-fraction : (n : Numeric) → Reads n.at (fraction n).at
Reads-fraction n = elim (Bool-cases (cur n.at == b'.')) [
  | inl h ↦ (Takes-fraction n h).reads
  | inr h ↦ unfold fraction in rw h (Reads-refl n.at)
]

or_IsLive : (s : Scan) (a b : ℕ) → a ≢ 0 → b ≢ 0 → (cur s == a || cur s == b) ≡ true → IsLive s
or_IsLive s a b ha hb h = elim (Bool-cases (cur s == a)) [
  | inl e ↦ IsLive-cur s a ha e
  | inr e ↦ IsLive-cur s b hb (ground arith)
]

or_IsLive_next :
    (s : Scan) (a b : ℕ)
    → a ≢ 0
    → b ≢ 0
    → (look s 1 == a || look s 1 == b) ≡ true
    → IsLive (advance s)
or_IsLive_next s a b ha hb h = elim (Bool-cases (look s 1 == a)) [
  | inl e ↦ IsLive-look s a ha e
  | inr e ↦ IsLive-look s b hb (ground arith)
]

Reads-sign : (n : Numeric) → Reads n.at (sign n).at
unfolding sign
Reads-sign n =
    if_ind (λ (m : Numeric). Reads n.at m.at) (cur n.at == b'+' || cur n.at == b'-')
      (λ h. (Takes-push_one n (or_IsLive n.at b'+' b'-' (omega arith) (omega arith) h)).reads)
      (λ _. Reads-refl n.at)

Reads-exponent : (n : Numeric) → Reads n.at (exponent n).at
unfolding exponent
Reads-exponent n =
    if_ind (λ (m : Numeric). Reads n.at m.at) (cur n.at == b'e' || cur n.at == b'E')
      (λ h.
        Reads-trans
          (Takes-push_one (floating n)
            (or_IsLive n.at b'e' b'E' (omega arith) (omega arith) h)).reads
          (Reads-trans (Reads-sign _) (Reads-push_while is_digit _)))
      (λ _. Reads-refl n.at)

second-IsLive :
    (n : Numeric) → (look n.at 1 == b'x' || look n.at 1 == b'X') ≡ true → IsLive (push_one n).at
unfolding push_one
second-IsLive n h = or_IsLive_next n.at b'x' b'X' (omega arith) (omega arith) h

Takes-hexadecimal :
    (n : Numeric)
    → (cur n.at == b'0' && (look n.at 1 == b'x' || look n.at 1 == b'X')) ≡ true
    → Takes n.at (hexadecimal n).at
unfolding hexadecimal
Takes-hexadecimal n h =
    Takes-trans (Takes-push_one n (IsLive-cur n.at b'0' (omega arith) (and_left _ _ h))) (
      Reads-trans (Takes-push_one (push_one n) (second-IsLive n (and_right _ _ h))).reads
        (Reads-push_while is_xdigit _))

-- The first byte of a numeric literal is a digit, or a dot that a digit follows.
abbrev starts_number : Scan → Bool
starts_number s = is_digit (cur s) || cur s == b'.' && is_digit (look s 1)

Takes-dot : (n : Numeric) → (cur n.at == b'.') ≡ true → Takes n.at (exponent (fraction n)).at
Takes-dot n h = Takes-trans (Takes-fraction n h) (Reads-exponent (fraction n))

Takes-push_while :
    (p : ℕ → Bool) (n : Numeric)
    → IsLive n.at
    → p (cur n.at) ≡ true
    → Takes n.at (push_while p n).at
unfolding push_while
Takes-push_while p n live h = Takes-eat p n.at live h

push_while-nothing :
    (p : ℕ → Bool) (n : Numeric) → p (cur n.at) ≡ false → (push_while p n).at ≡ n.at
unfolding push_while
push_while-nothing p n h = ap (λ (r : Bytes × Scan). r.1) (eat-nothing p n.at h)

Takes-decimal :
    (n : Numeric)
    → IsLive n.at
    → starts_number n.at ≡ true
    → Takes n.at (exponent (fraction (push_while is_digit n))).at
Takes-decimal n live h = elim (Bool-cases (is_digit (cur n.at))) [
  | inl d ↦
      Takes-trans (Takes-push_while is_digit n live d)
        (Reads-trans (Reads-fraction (push_while is_digit n)) (Reads-exponent _))
  | inr d ↦
      let same = push_while-nothing is_digit n d in
      let dot : (cur n.at == b'.') ≡ true = and_left _ _ (rw d at h) in
      subst (λ s. Takes s (exponent (fraction (push_while is_digit n))).at) same
        (Takes-dot (push_while is_digit n) (rw same dot))
]

Takes-numeric : (s : Scan) → IsLive s → starts_number s ≡ true → Takes s (numeric s).at
unfolding numeric
Takes-numeric s live h =
    let start : Numeric = record { text = []; is_float = false; at = s } in
    if_ind (λ (m : Numeric). Takes s m.at) (cur s == b'0' && (look s 1 == b'x' || look s 1 == b'X'))
      (Takes-hexadecimal start) (λ _. Takes-decimal start live h)

behind-number_token :
    (kind : TokenKind) (value : ℕ → Payload) (used : ℕ) (text : Bytes) (at : SourceLoc) (t : Scan)
    (c : Conversion)
    → behind (number_token kind value used text at t c) ≡ t
unfolding number_token
behind-number_token kind value used text at t (converted v k) = ground arith
behind-number_token kind value used text at t invalid_argument = refl
behind-number_token kind value used text at t out_of_range = refl

pub Takes-lex_number :
    (stod : Bytes → Conversion) (src : Source) (s : Scan)
    → IsLive s
    → starts_number s ≡ true
    → Takes s (behind (lex_number stod src s))
unfolding lex_number
Takes-lex_number stod src s live h =
    let whole = Takes-trans (Takes-numeric s live h) (Reads-push_while is_suffix (numeric s)) in
    if_ind (λ r. Takes s (behind r)) (numeric s).is_float (λ _. rw behind-number_token whole)
      (λ _. rw behind-number_token whole)
