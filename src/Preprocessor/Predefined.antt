-- ===== src/Preprocessor/Predefined.antt =====
-- `quote`, `stringify` and `predefined` of lib/Lex/Preprocessor.cpp.
pub mod Quoted
use tensorium_cc.Prelude.{
  ℕ, Bool, true, false, ◌&&◌, ◌||◌, Option, none, some, List, [], ◌∷◌, ◌++◌, ◌==◌, if◌then◌else◌,
  Bytes, String, codes,
}
use tensorium_cc.Location.{SourceLoc}
use tensorium_cc.LangOptions.{Standard, c11, c17}
use tensorium_cc.Diagnostic.Render.{to_string}
use tensorium_cc.Preprocessor.{PpToken, PpTokenKind}
use tensorium_cc.Preprocessor.State.{Setting}
use tensorium_cc.Preprocessor.Define.{is, is_empty}

abbrev pub escaped : ℕ → Bytes
escaped c =
    if c == b'\n'
    then codes "\\n"
    else if c == b'\r'
    then codes "\\r"
    else if c == b'\t'
    then codes "\\t"
    else if c == b'\\' || c == b'"'
    then b'\\' ∷ c ∷ []
    else c ∷ []

-- What `quote` writes behind the opening mark.
unfoldable pub quote_rest : Bytes → Bytes
quote_rest [] = b'"' ∷ []
quote_rest (c ∷ text) = escaped c ++ quote_rest text

unfoldable pub quote : Bytes → Bytes
quote text = b'"' ∷ quote_rest text

-- How a token was spelled.
abbrev pub spelling : PpToken → Bytes
spelling t = if is_empty t.original_spelling then t.text else t.original_spelling

abbrev is_literal : PpToken → Bool
is_literal t = elim t.kind [ PpTokenKind.string ↦ true | PpTokenKind.character ↦ true | _ ↦ false ]

unfoldable pub escape_literal : Bool → Bytes → Bytes
escape_literal literal [] = []
escape_literal literal (c ∷ text) =
    let more = escape_literal literal text in
    if literal && (c == b'\\' || c == b'"') then b'\\' ∷ c ∷ more else c ∷ more

-- The loop over an argument. The flag says that the token is the first.
unfoldable pub stringify_from : Bool → List PpToken → Bytes
stringify_from first [] = b'"' ∷ []
stringify_from first (t ∷ ts) =
    (if first then [] else if t.leading_space then b' ' ∷ [] else [])
    ++ escape_literal (is_literal t) (spelling t)
    ++ stringify_from false ts

unfoldable pub stringify : List PpToken → Bytes
stringify argument = b'"' ∷ stringify_from true argument

abbrev pub context_of : PpToken → SourceLoc
context_of t = elim t.expansion_loc.filename [ none ↦ t.loc | some name ↦ t.expansion_loc ]

abbrev file_name : Option String → Bytes
file_name none = []
file_name (some name) = codes name

abbrev pub version : Standard → Bytes
version c11 = codes "201112L"
version c17 = codes "201710L"
version _ = codes "199901L"

unfoldable pub predefined : Setting → PpToken → PpToken
predefined set t =
    let at = context_of t in
    let number : PpToken = record t {
      kind = PpTokenKind.number;
      spelling_locations = [];
      original_spelling = [];
    } in
    if is t "__FILE__"
    then record number { kind = PpTokenKind.string; text = quote (file_name at.filename) }
    else if is t "__LINE__"
    then record number { text = to_string at.line }
    else if is t "__DATE__" || is t "__TIME__"
    then record number {
      kind = PpTokenKind.string;
      text = quote (if is t "__DATE__" then set.date else set.time);
    }
    else if is t "__STDC_HOSTED__"
    then record number { text = codes "0" }
    else if is t "__STDC_VERSION__"
    then record number { text = version set.options.std }
    else record number { text = codes "1" }
