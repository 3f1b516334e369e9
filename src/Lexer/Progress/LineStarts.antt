-- ===== src/Lexer/Progress/LineStarts.antt =====
-- The line starts that lib/Basic/Diagnostic.cpp keeps of a source, against the lines and columns that
-- lib/Lex/Lexer.cpp counts in it.
use tensorium_cc.Prelude.{
  ℕ, suc, ◌+◌, ◌-◌, ◌≡◌, refl, sym, ap, ◌∙◌, ◌++◌, Bool, true, false, not, ◌&&◌, ◌||◌, some, List,
  [], ◌∷◌, ◌==◌, if◌then◌else◌, Bool-cases, inl, inr, and_right, length, get_elem?, Bytes, String,
  str_eq, eq_iff, arith,
}
use tensorium_cc.Diagnostic.{SourceText, line_starts_from, put_source, find_source}
use tensorium_cc.Lexer.Scan.{Scan}
use tensorium_cc.Lexer.Progress.Positions.{count, since_newline, StandsAt}

abbrev starts_newline : Bytes → Bool
starts_newline [] = false
starts_newline (c ∷ cs) = c == b'\n'

-- Every carriage return stands in front of a newline.
abbrev pub no_lone_return : Bytes → Bool
no_lone_return [] = true
no_lone_return (c ∷ cs) = (not (c == b'\r') || starts_newline cs) && no_lone_return cs

line_starts_from-newline :
    (i c : ℕ) (cs : Bytes)
    → c ≡ b'\n'
    → line_starts_from i (c ∷ cs) ≡ (i + 1) ∷ line_starts_from (i + 1) cs
unfolding line_starts_from
line_starts_from-newline i c [] h = rw h refl
line_starts_from-newline i c (d ∷ cs) h = rw h refl

line_starts_from-step :
    (i c : ℕ) (cs : Bytes)
    → no_lone_return (c ∷ cs) ≡ true
    → line_starts_from i (c ∷ cs)
      ≡ (if c == b'\n' then (i + 1) ∷ line_starts_from (i + 1) cs else line_starts_from (i + 1) cs)
unfolding line_starts_from
line_starts_from-step i c [] h = ground arith
line_starts_from-step i c (d ∷ cs) h = elim (Bool-cases (c == b'\r')) [
  | inl e ↦
      let d_is : d ≡ b'\n' = ground arith in
      let next = line_starts_from-newline (i + 1) d cs d_is in
      let c_is : (c == b'\n') ≡ false = ground arith in
      let d_test : (d == b'\n') ≡ true = ground arith in
      let two : i + 2 ≡ i + 1 + 1 = omega arith in rw (e, d_test, c_is, two) (sym next)
  | inr e ↦ rw e refl
]

get_elem?-next : (y n : ℕ) (ys : List ℕ) → get_elem? (y ∷ ys) (1 + n) ≡ get_elem? ys n
get_elem?-next y n ys = let next : 1 + n ≡ suc n = omega arith in ap (get_elem? (y ∷ ys)) next

-- The start of the line that `front` ends in, by the number of newlines in it.
line_start-front :
    (front rest : Bytes) (start k : ℕ)
    → no_lone_return (front ++ rest) ≡ true
    → (x : ℕ) × (get_elem?
          (start ∷ line_starts_from (start + k) (front ++ rest))
          (count b'\n' front)
        ≡ some x)
      × (x + since_newline k front ≡ start + k + length front)
line_start-front [] rest start k h = (start, refl, omega arith)
line_start-front (c ∷ cs) rest start k h =
    let tail = and_right (not (c == b'\r') || starts_newline (cs ++ rest)) _ h in
    let step = line_starts_from-step (start + k) c (cs ++ rest) h in
    elim (Bool-cases (c == b'\n')) [
      | inl e ↦
          let (x, at, sum) = line_start-front cs rest (start + k + 1) 0 tail in
          let here : start + k + 1 + 0 ≡ start + k + 1 = omega arith in
          let starts =
            ap (λ n. get_elem? ((start + k + 1) ∷ line_starts_from n (cs ++ rest)) (count b'\n' cs))
              here in
          (
            x,
            rw (e, step, e)
                (get_elem?-next start (count b'\n' cs)
                    ((start + k + 1) ∷ line_starts_from (start + k + 1) (cs ++ rest))
                  ∙ sym starts
                  ∙ at),
            rw e (sum ∙ omega arith),
          )
      | inr e ↦
          let (x, at, sum) = line_start-front cs rest start (k + 1) tail in
          let here : start + (k + 1) ≡ start + k + 1 = omega arith in
          let none_more : 0 + count b'\n' cs ≡ count b'\n' cs = omega arith in
          (
            x,
            rw (e, step, e)
                (ap (get_elem? (start ∷ line_starts_from (start + k + 1) (cs ++ rest))) none_more
                  ∙ sym (
                      ap (λ n. get_elem? (start ∷ line_starts_from n (cs ++ rest)) (count b'\n' cs))
                        here)
                  ∙ at),
            rw e (sum ∙ omega arith),
          )
    ]

pub line_start-StandsAt :
    (text : Bytes) (s : Scan)
    → StandsAt text s
    → no_lone_return text ≡ true
    → (start : ℕ) × (get_elem? (0 ∷ line_starts_from 0 text) (s.line - 1) ≡ some start)
      × (start + s.col ≡ s.pos + 1)
line_start-StandsAt text s place returns =
    let (start, at, sum) =
      line_start-front place.front s.rest 0 0 (ap no_lone_return (sym place.splits) ∙ returns) in
    let lines : s.line - 1 ≡ count b'\n' place.front = omega (arith, place.line_is) in
    (
      start,
      ap (λ t. get_elem? (0 ∷ line_starts_from 0 t) (s.line - 1)) place.splits
          ∙ ap (get_elem? (0 ∷ line_starts_from 0 (place.front ++ s.rest))) lines
          ∙ at,
      omega (arith, place.col_is, place.offset),
    )

pub find_source-put_source :
    (name : String) (entry : SourceText) (sources : List (String × SourceText))
    → find_source name (put_source name entry sources) ≡ some entry
unfolding find_source put_source
find_source-put_source name entry [] = rw ((eq_iff name name).1 refl) refl
find_source-put_source name entry ((other, text) ∷ rest) = elim (Bool-cases (str_eq other name)) [
  | inl e ↦ rw (e, (eq_iff name name).1 refl) refl
  | inr e ↦ rw (e, e) (find_source-put_source name entry rest)
]
