-- ===== src/Preprocessor/Scan.antt =====
-- `tokenize` of lib/Lex/Preprocessor.cpp: what stands at `i`, and how many bytes it takes.
use tensorium_cc.Prelude.{
  ℕ, suc, ◌+◌, Bool, true, false, not, ◌&&◌, ◌||◌, Option, none, some, List, [], ◌∷◌, ◌==◌,
  if◌then◌else◌, get_or, drop, length, Bytes, String, codes,
}
use tensorium_cc.Lexer.Bytes.{is_space, is_digit, is_ident, is_ident_start}
use tensorium_cc.Preprocessor.{PpTokenKind}

-- What a round of the loop finds: white space or a comment, a token with its width, or an error.
pub data Piece : Type 0 where
  line_break : Piece
  blank : ℕ → Piece
  token : PpTokenKind → ℕ → Piece
  broken : String → ℕ → Piece

-- `while (i < s.size() && p(s[i])) ++i;`
unfoldable pub run_of : (ℕ → Bool) → Bytes → ℕ
run_of p [] = 0
run_of p (c ∷ s) = elim (p c) [ true ↦ suc (run_of p s) | false ↦ 0 ]

abbrev after : ℕ → Option ℕ → Option ℕ
after n none = none
after n (some m) = some (n + m)

-- The width of the rest of a block comment, its end included.
unfoldable pub comment_rest : Bytes → Option ℕ
comment_rest (c ∷ d ∷ s) = elim (c == b'*' && d == b'/') [
  | true ↦ some 2
  | false ↦ after 1 (comment_rest (d ∷ s))
]
comment_rest _ = none

-- The width up to and with the closing mark of a header name.
unfoldable pub header_rest : ℕ → Bytes → Option ℕ
header_rest close [] = none
header_rest close (c ∷ s) = elim (c == close) [
  | true ↦ some 1
  | false ↦ elim (c == b'\n') [ true ↦ none | false ↦ after 1 (header_rest close s) ]
]

-- The same for a string or a character, where a backslash takes the next byte with it.
unfoldable pub quoted_rest : ℕ → Bytes → Option ℕ
quoted_rest quote [] = none
quoted_rest quote (c ∷ []) = if c == quote then some 1 else none
quoted_rest quote (c ∷ d ∷ s) = elim (c == quote) [
  | true ↦ some 1
  | false ↦ elim (c == b'\n') [
    | true ↦ none
    | false ↦ elim (c == b'\\' && not (d == b'\n')) [
      | true ↦ after 2 (quoted_rest quote s)
      | false ↦ after 1 (quoted_rest quote (d ∷ s))
    ]
  ]
]

-- A sign belongs to a number behind one of these.
abbrev exponent : ℕ → Bool
exponent c = c == b'e' || c == b'E' || c == b'p' || c == b'P'

-- The loop over a number, behind byte `last`.
unfoldable pub number_rest : ℕ → Bytes → ℕ
number_rest last [] = 0
number_rest last (c ∷ s) =
    elim (is_ident c || c == b'.' || (c == b'+' || c == b'-') && exponent last) [
      | true ↦ suc (number_rest c s)
      | false ↦ 0
    ]

unfoldable pub punctuators : List String
punctuators =
    "%:%:" ∷ "<<=" ∷ ">>=" ∷ "..." ∷ "##" ∷ "++" ∷ "--" ∷ "->" ∷ "&&" ∷ "||" ∷ "<=" ∷ ">=" ∷ "=="
    ∷ "!=" ∷ "<<" ∷ ">>" ∷ "+=" ∷ "-=" ∷ "*=" ∷ "/=" ∷ "%=" ∷ "&=" ∷ "|=" ∷ "^=" ∷ "<%" ∷ "%>"
    ∷ "<:" ∷ ":>" ∷ "%:" ∷ []

-- `s.compare(i, spelling.size(), spelling) == 0`.
unfoldable pub starts_with : Bytes → Bytes → Bool
starts_with [] s = true
starts_with (p ∷ ps) [] = false
starts_with (p ∷ ps) (c ∷ s) = p == c && starts_with ps s

-- The width of the first punctuator in the list that stands in front.
unfoldable pub punctuator_width : List String → Bytes → Option ℕ
punctuator_width [] s = none
punctuator_width (p ∷ ps) s = elim (starts_with (codes p) s) [
  | true ↦ some (length (codes p))
  | false ↦ punctuator_width ps s
]

unfoldable pub contains : Bytes → ℕ → Bool
contains [] c = false
contains (p ∷ ps) c = p == c || contains ps c

-- The part of `tokenize` for punctuation, at byte `c`.
unfoldable pub punctuation : ℕ → Bytes → Piece
punctuation c s = elim (punctuator_width punctuators s) [
  | some n ↦ token PpTokenKind.punct n
  | none ↦
      token
        (if contains (codes "[](){}.&*+-~!/%<>^|?:;=,#") c
          then PpTokenKind.punct
          else PpTokenKind.other)
        1
]

abbrev pub closed : PpTokenKind → String → Option ℕ → Piece
closed kind message none = broken message 1
closed kind message (some n) = token kind (suc n)

-- Behind white space and comments. `s` is `c ∷ rest`.
unfoldable pub token_at : (header : Bool) → (c : ℕ) → Bytes → Piece
token_at header c rest =
    if header && (c == b'<' || c == b'"')
    then closed PpTokenKind.header "unterminated include filename"
        (header_rest (if c == b'<' then b'>' else b'"') rest)
    else if is_ident_start c
    then token PpTokenKind.identifier (suc (run_of is_ident rest))
    else if is_digit c || c == b'.' && is_digit (get_or rest 0 0)
    then token PpTokenKind.number (suc (number_rest c rest))
    else if c == b'"'
    then closed PpTokenKind.string "unterminated string literal" (quoted_rest b'"' rest)
    else if c == b'\''
    then closed PpTokenKind.character "unterminated character literal" (quoted_rest b'\'' rest)
    else punctuation c (c ∷ rest)

abbrev pub comment : Option ℕ → Piece
comment none = broken "unterminated block comment" 2
comment (some n) = blank (suc (suc n))

unfoldable pub piece : (allow_line_comments header : Bool) → (c : ℕ) → Bytes → Piece
piece allow header c rest =
    if c == b'\n'
    then line_break
    else if is_space c
    then blank 1
    else if c == b'/' && get_or rest 0 0 == b'*'
    then comment (comment_rest (drop 1 rest))
    else if allow && c == b'/' && get_or rest 0 0 == b'/'
    then blank (run_of (λ c. not (c == b'\n')) (c ∷ rest))
    else token_at header c rest
