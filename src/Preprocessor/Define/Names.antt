-- ===== src/Preprocessor/Define/Names.antt =====
-- The parameters that `define` of lib/Lex/Preprocessor.cpp reads.
use mathlib.Core.Bool.{true≢false}
use tensorium_cc.Prelude.{
  ◌≡◌, inl, inr, refl, sym, ◌∙◌, true, false, not, ◌||◌, List, [], ◌∷◌, ◌++◌, if_ind, elim_ind,
  or_false, not-false, Bool-cases, Bytes, same_bytes, same_bytes_iff,
}
use tensorium_cc.LangOptions.{Standard, is_c89}
use tensorium_cc.Lexer.Bytes.{is_ident_start}
use tensorium_cc.Preprocessor.{PpToken}
use tensorium_cc.Preprocessor.State.{member}
use tensorium_cc.Preprocessor.Define.{
  is, Parameter, named_one, ellipsis, refused, parameter, ParameterList, parsed, wrong,
  is_identifier, first_is, parse_parameters,
}
use tensorium_cc.Preprocessor.Define.Valid.{
  Distinct, starts_ident, Lexed, AllLexed, Identifiers, va_args, Parameters,
}

same_bytes_sym : (a b : Bytes) → same_bytes a b ≡ false → same_bytes b a ≡ false
same_bytes_sym a b h = elim (Bool-cases (same_bytes b a)) [
  | inl e ↦ absurd (true≢false (sym ((same_bytes_iff a b).1 (sym ((same_bytes_iff b a).0 e))) ∙ h))
  | inr e ↦ e
]

member_snoc :
    (x y : Bytes) (xs : List Bytes)
    → member x xs ≡ false
    → same_bytes y x ≡ false
    → member x (xs ++ (y ∷ [])) ≡ false
unfolding member
member_snoc x y [] h e = rw e refl
member_snoc x y (z ∷ xs) h e =
    let (first, more) = or_false (same_bytes z x) (member x xs) h in
    rw first (member_snoc x y xs more e)

Distinct-snoc :
    (y : Bytes) (xs : List Bytes) → Distinct xs → member y xs ≡ false → Distinct (xs ++ (y ∷ []))
unfolding member
Distinct-snoc y [] d h = (refl, _)
Distinct-snoc y (x ∷ xs) d h =
    let (first, more) = or_false (same_bytes x y) (member y xs) h in
    (member_snoc x y xs d.0 (same_bytes_sym x y first), Distinct-snoc y xs d.1 more)

Identifiers-snoc :
    (y : Bytes) (xs : List Bytes)
    → Identifiers xs
    → starts_ident y ≡ true
    → Identifiers (xs ++ (y ∷ []))
Identifiers-snoc y [] h e = (e, _)
Identifiers-snoc y (x ∷ xs) h e = (h.0, Identifiers-snoc y xs h.1 e)

abbrev pub GoodList : ParameterList → Type 0
GoodList (parsed names variadic rest) = Parameters variadic names × AllLexed rest
GoodList (wrong at message) = Unit

ellipsis-Parameters :
    (names : List Bytes) → Parameters false names → Parameters true (names ++ (va_args ∷ []))
unfolding is_ident_start
ellipsis-Parameters names (d, i, fresh) = (
  Distinct-snoc va_args names d fresh,
  Identifiers-snoc va_args names i refl,
  (names, refl, fresh),
)

abbrev Extends : List Bytes → PpToken → Parameter → Type 0
Extends names part named_one = Parameters false (names ++ (part.text ∷ []))
Extends names part _ = Unit

parameter-Extends :
    (std : Standard) (names : List Bytes) (part : PpToken)
    → Parameters false names
    → Lexed part
    → Extends names part (parameter std names part)
unfolding parameter
parameter-Extends std names part (d, i, fresh) lexed =
    let P = Extends names part in
    if_ind P (is part "...") (λ _. if_ind P (is_c89 std) (λ _. _) (λ _. _))
      λ _.
        if_ind P (not (is_identifier part) || is part "__VA_ARGS__") (λ _. _)
          λ e.
            if_ind P (member part.text names) (λ _. _)
              λ m.
                let (identifier, other) = or_false _ _ e in
                (
                  Distinct-snoc part.text names d m,
                  Identifiers-snoc part.text names i (lexed.0 ∙ not-false _ identifier),
                  member_snoc va_args part.text names fresh other,
                )

-- A round of the loop, from what the token is.
round-Good :
    (names : List Bytes) (part : PpToken) (p : Parameter) (x y : ParameterList)
    → Extends names part p
    → GoodList x
    → (Parameters false (names ++ (part.text ∷ [])) → GoodList y)
    → GoodList (elim p [ ellipsis ↦ x | refused at message ↦ wrong at message | named_one ↦ y ])
round-Good names part ellipsis x y e f g = f
round-Good names part (refused at message) x y e f g = _
round-Good names part named_one x y e f g = g e

pub parse_parameters-Good :
    (std : Standard) (names : List Bytes) (ts : List PpToken)
    → Parameters false names
    → AllLexed ts
    → GoodList (parse_parameters std names ts)
unfolding parse_parameters
parse_parameters-Good std names [] f l = (f, _)
parse_parameters-Good std names (part ∷ []) f l =
    round-Good names part _ _ _ (parameter-Extends std names part f l.0)
      (ellipsis-Parameters names f, _) (λ g. (g, _))
parse_parameters-Good std names (part ∷ comma ∷ more) f l =
    round-Good names part _ _ _ (parameter-Extends std names part f l.0)
      (ellipsis-Parameters names f, l.1)
      λ g.
        elim_ind GoodList (is comma ",")
          (λ _.
            elim_ind GoodList (first_is more ")") (λ _. _)
              (λ _. parse_parameters-Good std (names ++ (part.text ∷ [])) more g l.1.1))
          (λ _. (g, l.1))
