-- ===== src/Preprocessor/Define/Check.antt =====
-- The check of a replacement in `define` of lib/Lex/Preprocessor.cpp.
use tensorium_cc.Prelude.{
  ◌≡◌, refl, Bool, true, false, not, ◌&&◌, ◌||◌, Option, none, some, List, [], ◌∷◌, if◌then◌else◌,
  or_false, not-false, arith,
}
use tensorium_cc.Preprocessor.{PpToken}
use tensorium_cc.Preprocessor.State.{Macro}
use tensorium_cc.Preprocessor.Define.{
  is, is_empty, names_parameter, behind_paste, check_replacement,
}
use tensorium_cc.Preprocessor.Define.Valid.{AllFit}

if_none :
    {A : Type 0} (b : Bool) (a : A) (o : Option A)
    → (if b then some a else o) ≡ none
    → b ≡ false × o ≡ none
if_none true a o h = absurd (ground (arith, h))
if_none false a o h = (refl, h)

-- A test that fails though its first part holds.
fails_right : (a b : Bool) → (a && b) ≡ false → a ≡ true → b ≡ false
fails_right true b h e = h
fails_right false b h e = cc

both : {a b : Bool} → a ≡ true → b ≡ true → (a && b) ≡ true
both e f = rw (e, f) refl

pub check_replacement-AllFit :
    (macro : Macro) (previous : Option PpToken) (ts : List PpToken)
    → check_replacement macro previous ts ≡ none
    → AllFit macro previous ts
unfolding check_replacement
check_replacement-AllFit macro previous [] h = _
check_replacement-AllFit macro previous (t ∷ rest) h =
    let (pasted, h1) = if_none (is t "##" && (behind_paste previous || is_empty rest)) _ _ h in
    let (hashed, h2) =
      if_none (macro.function_like && is t "#" && not (names_parameter macro.parameters rest)) _ _
        h1 in
    let (varied, h3) = if_none (is t "__VA_ARGS__" && not macro.variadic) _ _ h2 in
    (
      record {
        pastes = λ e. or_false _ _ (fails_right _ _ pasted e);
        stringizes = λ e f. not-false _ (fails_right _ _ hashed (both e f));
        varies = λ e. not-false _ (fails_right _ _ varied e);
      },
      check_replacement-AllFit macro (some t) rest h3,
    )
