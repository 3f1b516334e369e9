-- ===== src/PpExpression/Rest.antt =====
-- What the operations of lib/Lex/PPExpression.cpp leave of the tokens.
use tensorium_cc.Prelude.{
  ℕ, ◌≤◌, ◌≡◌, refl, Bool, true, false, List, [], ◌∷◌, if◌then◌else◌, length, Bytes, String, arith,
}
use tensorium_cc.Location.{SourceLoc}
use tensorium_cc.Preprocessor.{PpToken}
use tensorium_cc.PpExpression.State.{State, Value, fail_at, fail, tail, match_text}
use tensorium_cc.PpExpression.Operators.{shift, divide, apply_now, apply}
use tensorium_cc.Numeral.{Conversion, converted, invalid_argument, out_of_range, string_to}
use tensorium_cc.PpExpression.Numbers.{max_uint64, number_of, suffixed, number}
use tensorium_cc.PpExpression.Parse.{Setting, expect}

pub rest-fail_at :
    (loc at : SourceLoc) (text : String) (s : State) → (fail_at loc at text s).rest ≡ s.rest
unfolding fail_at
rest-fail_at loc at text s = ground arith

pub rest-fail : (loc : SourceLoc) (text : String) (s : State) → (fail loc text s).rest ≡ s.rest
unfolding fail
rest-fail loc text s = rest-fail_at loc _ text s

pub length-tail : (ts : List PpToken) → length (tail ts) ≤ length ts
length-tail [] = omega arith
length-tail (t ∷ ts) = omega arith

pub length-expect :
    (set : Setting) (text message : String) (s : State)
    → length (expect set text message s).rest ≤ length s.rest
unfolding expect match_text
length-expect set text message s = ground (arith, rest-fail set.loc message s, length-tail s.rest)

rest-suffixed :
    (loc : SourceLoc) (text : Bytes) (value : ℕ) (suffix : Bytes) (s : State)
    → (suffixed loc text value suffix s).1.rest ≡ s.rest
unfolding suffixed
rest-suffixed loc text value suffix s = ground (
  arith,
  rest-fail loc "expected integer constant in #if expression" s,
  rest-fail loc "integer constant is out of range in #if expression" s,
)

pub rest-number : (loc : SourceLoc) (t : PpToken) (s : State) → (number loc t s).1.rest ≡ s.rest
unfolding number
rest-number loc t s = go (string_to max_uint64 t.text)
  where
    go : (c : Conversion) → (number_of loc t.text s c).1.rest ≡ s.rest
    go (converted v e) = rest-suffixed loc t.text v _ s
    go invalid_argument = rest-fail loc _ s
    go out_of_range = rest-fail loc _ s

-- The tokens behind an operation are those in front of it.
abbrev pub SameRest : State → Value × State → Type 0
SameRest s r = r.1.rest ≡ s.rest

SameRest-if :
    (s : State) (b : Bool) (x y : Value × State)
    → SameRest s x
    → SameRest s y
    → SameRest s (if b then x else y)
SameRest-if s true x y hx hy = hx
SameRest-if s false x y hx hy = hy

SameRest-pair : (s : State) (v : Value) → SameRest s (v, s)
SameRest-pair s v = refl

SameRest-fail_at :
    (s : State) (v : Value) (loc at : SourceLoc) (text : String)
    → SameRest s (v, fail_at loc at text s)
SameRest-fail_at s v loc at text = rest-fail_at loc at text s

ruleset same_rest = (SameRest-if, SameRest-pair, SameRest-fail_at)

SameRest-shift :
    (loc : SourceLoc) (op : Bytes) (u : Bool) (a b : ℕ) (at : SourceLoc) (s : State)
    → SameRest s (shift loc op u a b at s)
unfolding shift
SameRest-shift loc op u a b at s = search same_rest

SameRest-divide :
    (loc : SourceLoc) (op : Bytes) (u : Bool) (a b : ℕ) (at : SourceLoc) (s : State)
    → SameRest s (divide loc op u a b at s)
unfolding divide
SameRest-divide loc op u a b at s = search same_rest

pub SameRest-apply :
    (loc : SourceLoc) (op : Bytes) (l r : Value) (e : Bool) (at : SourceLoc) (s : State)
    → SameRest s (apply loc op l r e at s)
unfolding apply apply_now
SameRest-apply loc op l r e at s = search (same_rest, SameRest-shift, SameRest-divide) depth 20
