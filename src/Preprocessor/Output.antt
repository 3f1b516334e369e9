-- ===== src/Preprocessor/Output.antt =====
-- `next` and `text` of lib/Lex/Preprocessor.cpp.
pub mod Ending
use tensorium_cc.Prelude.{
  ℕ, ◌+◌, Bool, true, false, ◌&&◌, Option, none, some, List, [], ◌∷◌, ◌++◌, ◌==◌, if◌then◌else◌,
  length, drop, Bytes, String, str_eq,
}
use tensorium_cc.Location.{SourceLoc, unset}
use tensorium_cc.Diagnostic.{DiagnosticEngine, error, report}
use tensorium_cc.Token.{Token, TokenKind, make_token, is_eof, is_error, same_kind}
use tensorium_cc.Lexer.Next.{Lexer, new_lexer, next as lex_next}
use tensorium_cc.Preprocessor.{PpToken, PpTokenKind}
use tensorium_cc.Preprocessor.State.{State, Setting, Outcome, ok, ◌>>=◌, engine, with_engine}
use tensorium_cc.Preprocessor.Define.{is_empty, named}
use tensorium_cc.Preprocessor.Process.{run}

-- A lexer over the text of one token.
abbrev lexer_of : Setting → PpToken → DiagnosticEngine → Lexer
lexer_of set raw d =
    new_lexer raw.text
      (record {
        filename = raw.loc.filename;
        allow_line_comments = set.options.allow_line_comments;
        source_locations = raw.spelling_locations;
      })
      d raw.loc

-- What `convert` does behind the first token.
unfoldable pub check_end : Setting → PpToken → Token × Lexer → Token × DiagnosticEngine
check_end set raw (token, lexer) =
    if is_error token
    then (token, lexer.diagnostics)
    else let (second, after) = lex_next set.system.stod lexer in
      if is_eof second then (token, after.diagnostics) else (
        make_token TokenKind.error [] raw.loc,
        report error raw.loc (named "invalid preprocessing token '" raw.text "'") (length raw.text)
            after.diagnostics,
      )

-- The lambda `convert`.
unfoldable pub convert : Setting → PpToken → DiagnosticEngine → Token × DiagnosticEngine
convert set raw d = check_end set raw (lex_next set.system.stod (lexer_of set raw d))

abbrev pub is_string : PpToken → Bool
is_string t = elim t.kind [ PpTokenKind.string ↦ true | _ ↦ false ]

-- The loop of `next` over the strings behind a string: the token, how many were read, and the engine.
unfoldable pub join_strings :
    Setting → Token → ℕ → List PpToken → DiagnosticEngine → Token × ℕ × DiagnosticEngine
join_strings set token read [] d = (token, read, d)
join_strings set token read (raw ∷ rest) d =
    elim (same_kind token.kind TokenKind.string_lit && is_string raw) [
      | false ↦ (token, read, d)
      | true ↦
          let (part, after) = convert set raw d in
          elim (is_error part) [
            | true ↦ (part, read + 1, after)
            | false ↦
                join_strings set
                  (record token {
                    text = token.text ++ part.text;
                    str_val = token.str_val ++ part.str_val;
                  })
                  (read + 1) rest after
          ]
    ]

abbrev pub end_token : State → Token
end_token p = make_token TokenKind.end_of_file [] p.end

abbrev pub with_cursor : ℕ → DiagnosticEngine → State → State
with_cursor cursor d p = record (with_engine d p) { cursor = cursor }

-- The token at the cursor. `rest` is `_output` from there on.
unfoldable pub next_token : Setting → List PpToken → State → Token × State
next_token set [] p = (end_token p, p)
next_token set (raw ∷ rest) p =
    let (first, d) = convert set raw (engine p) in
    let (token, read, d') = join_strings set first 1 rest d in
    (token, with_cursor (p.cursor + read) d' p)

unfoldable pub next : Setting → State → Outcome Token
next set p = run set p >>= λ success q.
    if success
    then (let (token, r) = next_token set (drop q.cursor q.output) q in ok token r)
    else ok (end_token q) q

abbrev same_name : Option String → Option String → Bool
same_name none none = true
same_name (some a) (some b) = str_eq a b
same_name _ _ = false

abbrev same_line : SourceLoc → SourceLoc → Bool
same_line a b = same_name a.filename b.filename && a.line == b.line

-- The loop of `text`, behind the bytes in `result` and a token at `previous`.
unfoldable pub text_from : Bytes → SourceLoc → List PpToken → Bytes
text_from result previous [] = if is_empty result then result else result ++ (b'\n' ∷ [])
text_from result previous (t ∷ ts) =
    text_from
      ((if is_empty result
          then []
          else result ++ ((if same_line previous t.loc then b' ' else b'\n') ∷ []))
        ++ t.text)
      t.loc ts

unfoldable pub text : Setting → State → Outcome Bytes
text set p = run set p >>= λ success q. ok (if success then text_from [] unset q.output else []) q
