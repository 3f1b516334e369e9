-- ===== src/Preprocessor/Expand/Joinable.antt =====
-- The parts that the loop over a replacement makes (lib/Lex/Preprocessor.cpp), for a macro that `define`
-- has stored.
use tensorium_cc.Prelude.{
  ℕ, zero, suc, ◌≤◌, ◌<◌, ◌≡◌, refl, ap, sym, ◌∙◌, Bool, true, false, some, List, [], ◌∷◌, ◌++◌,
  if◌then◌else◌, if_ind, or_right, Bool-cases, inl, inr, length, get_elem?, Bytes, String, codes,
  same_bytes, same_bytes_iff, arith,
}
use mathlib.Core.Bool.{true≢false}
use tensorium_cc.Lexer.Bytes.{is_ident_start, is_alpha}
use tensorium_cc.Preprocessor.{PpToken}
use tensorium_cc.Preprocessor.State.{Macro, member}
use tensorium_cc.Preprocessor.Define.{is, is_identifier, is_empty, first_is}
use tensorium_cc.Preprocessor.Define.Valid.{Identifiers, starts_ident, Parameters}
use tensorium_cc.Preprocessor.Expand.Substitute.{
  Part, plain, index_of, parameter_index, insert_argument, rest_of_argument,
}

-- Where a list of parts continues: at its start, behind a part, or behind a `##`.
pub data Place : Type 0 where
  start behind_part behind_hashes : Place

-- Every `##` stands between two other parts.
abbrev pub Joinable : Place → List Part → Type 0
Joinable behind_hashes [] = ⊥
Joinable place [] = Unit
Joinable behind_part (part ∷ parts) =
    Joinable (if part.paste then behind_hashes else behind_part) parts
Joinable place (part ∷ parts) = part.paste ≡ false × Joinable behind_part parts

pub Joinable-plain :
    (place : Place) (t : PpToken) (parts : List Part)
    → Joinable behind_part parts
    → Joinable place (plain t ∷ parts)
Joinable-plain start t parts h = (refl, h)
Joinable-plain behind_part t parts h = h
Joinable-plain behind_hashes t parts h = (refl, h)

Joinable-rest_of_argument :
    (ts : List PpToken) (parts : List Part)
    → Joinable behind_part parts
    → Joinable behind_part (rest_of_argument ts ++ parts)
Joinable-rest_of_argument [] parts h = h
Joinable-rest_of_argument (t ∷ ts) parts h = Joinable-rest_of_argument ts parts h

-- What the loop over a replacement promises of what it makes behind `place`.
abbrev pub Ready : Place → (behind : Bool) → List PpToken → Type 0
Ready start behind ts = behind ≡ false × first_is ts "##" ≡ false
Ready behind_part behind ts = behind ≡ false
Ready behind_hashes behind ts = is_empty ts ≡ false × first_is ts "##" ≡ false × behind ≡ true

abbrev pub next_place : Bool → Place → List PpToken → Place
next_place true place value = behind_part
next_place false place [] = place
next_place false place (t ∷ ts) = behind_part

pub Joinable-insert_argument :
    (part : PpToken) (pasted : Bool) (place : Place) (value : List PpToken) (parts : List Part)
    → Joinable (next_place pasted place value) parts
    → Joinable place (insert_argument part pasted value ++ parts)
unfolding insert_argument
Joinable-insert_argument part true start [] parts h = (refl, h)
Joinable-insert_argument part true behind_part [] parts h = h
Joinable-insert_argument part true behind_hashes [] parts h = (refl, h)
Joinable-insert_argument part false place [] parts h = h
Joinable-insert_argument part true place (t ∷ ts) parts h =
    Joinable-plain place (record t { leading_space = part.leading_space })
      (rest_of_argument ts ++ parts) (Joinable-rest_of_argument ts parts h)
Joinable-insert_argument part false place (t ∷ ts) parts h =
    Joinable-plain place (record t { leading_space = part.leading_space })
      (rest_of_argument ts ++ parts) (Joinable-rest_of_argument ts parts h)

-- A parameter's index.
pub index_of-member :
    (name : Bytes) (names : List Bytes)
    → member name names ≡ true
    → index_of name names < length names
unfolding index_of member
index_of-member name [] h = cc
index_of-member name (other ∷ names) h = elim (Bool-cases (same_bytes other name)) [
  | inl e ↦ rw e (omega arith)
  | inr e ↦ rw e (omega (arith, index_of-member name names (or_right _ _ h e)))
]

index_of_bound : (name : Bytes) (names : List Bytes) → index_of name names ≤ length names
unfolding index_of
index_of_bound name [] = omega arith
index_of_bound name (other ∷ names) =
    if_ind (λ n. n ≤ suc (length names)) (same_bytes other name) (λ _. omega arith)
      (λ _. omega (arith, index_of_bound name names))

pub parameter_index_bound :
    (macro : Macro) (t : PpToken) → parameter_index macro t ≤ length macro.parameters
unfolding parameter_index
parameter_index_bound macro t =
    if_ind (λ n. n ≤ length macro.parameters) (is_identifier t)
      (λ _. index_of_bound t.text macro.parameters) (λ _. omega arith)

pub get_elem?-some :
    {A : Type 0} (xs : List A) (n : ℕ) → n < length xs → (x : A) × get_elem? xs n ≡ some x
get_elem?-some [] n h = absurd (omega (arith, h))
get_elem?-some (x ∷ xs) zero h = (x, refl)
get_elem?-some (x ∷ xs) (suc n) h = get_elem?-some xs n (omega (arith, h))

pub member-starts_ident :
    (name : Bytes) (names : List Bytes)
    → Identifiers names
    → member name names ≡ true
    → starts_ident name ≡ true
unfolding member
member-starts_ident name [] i h = cc
member-starts_ident name (other ∷ names) i h = elim (Bool-cases (same_bytes other name)) [
  | inl e ↦ sym (ap starts_ident ((same_bytes_iff other name).0 e)) ∙ i.0
  | inr e ↦ member-starts_ident name names i.1 (or_right _ _ h e)
]

pub is_ident-other :
    (t : PpToken) (text : String)
    → starts_ident t.text ≡ true
    → starts_ident (codes text) ≡ false
    → is t text ≡ false
is_ident-other t text h e = elim (Bool-cases (is t text)) [
  | inl same ↦
      absurd
        (true≢false (sym h ∙ ap starts_ident ((same_bytes_iff t.text (codes text)).0 same) ∙ e))
  | inr other ↦ other
]

pub hashes_plain : starts_ident (codes "##") ≡ false
unfolding is_ident_start is_alpha
hashes_plain = refl

-- The names of a macro's parameters.
pub Parameters-Identifiers :
    (variadic : Bool) (names : List Bytes) → Parameters variadic names → Identifiers names
Parameters-Identifiers true names h = h.1
Parameters-Identifiers false names h = h.1
