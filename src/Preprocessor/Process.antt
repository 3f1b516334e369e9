-- ===== src/Preprocessor/Process.antt =====
-- `process` and `run` of lib/Lex/Preprocessor.cpp.
pub mod Returns
pub mod Run
use tensorium_cc.Prelude.{
  ℕ, zero, suc, Bool, true, false, not, ◌&&◌, ◌||◌, Option, none, some, List, [], ◌∷◌, ◌++◌,
  if◌then◌else◌, Bytes, String, codes, str_eq,
}
use tensorium_cc.Location.{SourceLoc}
use tensorium_cc.Diagnostic.{DiagnosticEngine, has_errors}
use tensorium_cc.LangOptions.{LangOptions}
use tensorium_cc.Sources.{SourceFile, FilePointer}
use tensorium_cc.Preprocessor.{PpToken, PpTokenKind}
use tensorium_cc.Preprocessor.Normalize.{Input, normalize}
use tensorium_cc.Preprocessor.Tokenize.{is_within, scan_input, tokenize_input}
use tensorium_cc.Preprocessor.State.{
  State, Setting, Outcome, ok, failed, out_of_range, out_of_fuel, ◌>>=◌, engine, with_engine, fail,
  is_defined, is_predefined, erase_macro,
}
use tensorium_cc.Preprocessor.Define.{is, is_identifier, is_empty, named, define}
use tensorium_cc.Preprocessor.Expand.{expand}
use tensorium_cc.Preprocessor.Conditionals.{
  Conditional, is_active, open_frame, wants_condition, elif_frame, else_frame,
}
use tensorium_cc.Preprocessor.Condition.{condition}
use tensorium_cc.Preprocessor.Include.{include}

-- The vectors `line` that the loop makes one after the other.
unfoldable pub lines_from : List PpToken → List PpToken → List (List PpToken)
lines_from line [] = line ∷ []
lines_from line (t ∷ ts) = elim t.kind [
  | PpTokenKind.newline ↦ line ∷ lines_from [] ts
  | _ ↦ lines_from (line ++ (t ∷ [])) ts
]

-- The lambda `flush`, but for `pending.clear()`.
unfoldable pub flush : Setting → List PpToken → State → Outcome Unit
flush set pending p = expand set pending p >>= λ ts q. ok _ (record q { output = q.output ++ ts })

abbrev pub one_name : List PpToken → Option PpToken
one_name (t ∷ []) = if is_identifier t then some t else none
one_name _ = none

unfoldable pub selected_name : Setting → PpToken → SourceLoc → Option PpToken → State → Outcome Bool
selected_name set directive loc none p =
    fail loc (codes "expected one macro name after #" ++ directive.text) p
selected_name set directive loc (some t) p =
    let exists = is_defined set.options p t.text in
    ok (if is directive "ifndef" then not exists else exists) p

-- `selected` for `#if`, `#ifdef` and `#ifndef`.
unfoldable pub selected : Setting → PpToken → List PpToken → SourceLoc → Bool → State → Outcome Bool
selected set directive args loc active p =
    if not (is directive "if")
    then selected_name set directive loc (one_name args) p
    else elim active [ true ↦ condition set args loc p | false ↦ ok false p ]

-- `#elif`, `#else` and `#endif` for the innermost conditional: what is left of the stack.
unfoldable pub next_branch :
    Setting
    → PpToken
    → List PpToken
    → SourceLoc
    → Conditional
    → List Conditional
    → State
    → Outcome (List Conditional)
next_branch set directive args loc frame outer p =
    if is directive "elif"
    then (if frame.seen_else
        then fail loc (codes "#elif after #else") p
        else elim (wants_condition frame) [ true ↦ condition set args loc p | false ↦ ok false p ]
          >>= λ chosen q. ok (elif_frame chosen frame ∷ outer) q)
    else if not (is_empty args)
    then fail loc (codes "unexpected tokens after #" ++ directive.text) p
    else if is directive "endif"
    then ok outer p
    else if frame.seen_else
    then fail loc (codes "duplicate #else") p
    else ok (else_frame frame ∷ outer) p

unfoldable pub undef : LangOptions → SourceLoc → Option PpToken → State → Outcome Unit
undef options loc none p = fail loc (codes "expected one macro name after #undef") p
undef options loc (some t) p =
    if is_predefined options t.text
    then fail t.loc (named "cannot undefine predefined macro '" t.text "'") p
    else ok _ (record p { macros = erase_macro t.text p.macros })

-- The texts with one space between them.
unfoldable pub error_message : Bytes → List PpToken → Bytes
error_message message [] = message
error_message message (t ∷ ts) =
    error_message ((if is_empty message then [] else message ++ (b' ' ∷ [])) ++ t.text) ts

abbrev pub error_text : Bytes → Bytes
error_text message = if is_empty message then codes "#error" else codes "#error " ++ message

abbrev pub is_once : List PpToken → Bool
is_once (t ∷ []) = is t "once"
is_once _ = false

-- A set of files.
unfoldable pub holds : String → List String → Bool
holds identity [] = false
holds identity (other ∷ more) = str_eq other identity || holds identity more

abbrev pub with_once : FilePointer → State → State
with_once file p = record p { once = file.identity ∷ p.once }

module _ (set : Setting) (deeper : FilePointer → SourceLoc → State → Outcome Unit) where
  -- A directive that only counts where the text is active.
  unfoldable pub command : FilePointer → PpToken → List PpToken → SourceLoc → State → Outcome Unit
  command file directive args loc p =
      if is directive "define"
      then define set.options args loc p
      else if is directive "undef"
      then undef set.options loc (one_name args) p
      else if is directive "include"
      then include set deeper file.file args loc p
      else if is directive "pragma" && is_once args
      then ok _ (with_once file p)
      else if is directive "error"
      then fail loc (error_text (error_message [] args)) p
      else fail loc (named "unsupported preprocessing directive '#" directive.text "'") p

  abbrev pub opens : PpToken → Bool
  opens t = is t "if" || is t "ifdef" || is t "ifndef"

  abbrev pub continues : PpToken → Bool
  continues t = is t "elif" || is t "else" || is t "endif"

  unfoldable pub continued :
      PpToken → List PpToken → SourceLoc → List Conditional → State → Outcome (List Conditional)
  continued directive args loc [] p = fail loc (named "#" directive.text " without matching #if") p
  continued directive args loc (frame ∷ outer) p = next_branch set directive args loc frame outer p

  -- A line that begins with `#`: what becomes of the stack.
  unfoldable pub perform :
      FilePointer
      → PpToken
      → List PpToken
      → SourceLoc
      → List Conditional
      → State
      → Outcome (List Conditional)
  perform file directive args loc stack p =
      let active = is_active stack in
      if opens directive
      then (selected set directive args loc active p >>= λ chosen q.
          ok (open_frame active chosen loc ∷ stack) q)
      else if continues directive
      then continued directive args loc stack p
      else if not active
      then ok stack p
      else command file directive args loc p >>= λ _ q. ok stack q

  unfoldable pub after_hash :
      FilePointer → List PpToken → SourceLoc → List Conditional → State → Outcome (List Conditional)
  after_hash file [] loc stack p = ok stack p
  after_hash file (directive ∷ args) loc stack p = perform file directive args loc stack p

  abbrev pub on_new_line : PpToken → PpToken
  on_new_line t = record t { leading_space = true }

  -- The loop over the lines, with `stack` and `pending`.
  unfoldable pub process_lines :
      FilePointer
      → List (List PpToken)
      → List Conditional
      → List PpToken
      → State
      → Outcome (List Conditional)
  process_lines file [] stack pending p = flush set pending p >>= λ _ q. ok stack q
  process_lines file ([] ∷ lines) stack pending p = process_lines file lines stack pending p
  process_lines file ((first ∷ line) ∷ lines) stack pending p = elim (is first "#") [
    | false ↦
        process_lines file lines stack
          (if is_active stack then pending ++ (on_new_line first ∷ line) else pending) p
    | true ↦ flush set pending p >>= λ _ q.
        after_hash file line first.loc stack q >>= λ stack' r. process_lines file lines stack' [] r
  ]

  -- A conditional that is left open.
  unfoldable pub close_file : List Conditional → State → Outcome Unit
  close_file [] p = ok _ p
  close_file (frame ∷ outer) p = fail frame.loc (codes "unterminated conditional directive") p

  unfoldable pub process_tokens :
      FilePointer → List PpToken × DiagnosticEngine → State → Outcome Unit
  process_tokens file (tokens, d) p =
      if has_errors d
      then failed (with_engine d p)
      else process_lines file (lines_from [] tokens) [] [] (with_engine d p) >>= λ stack q.
          close_file stack q

  -- `_visited.insert(&file)`, and `_end` at the end of the main file.
  abbrev pub visit : FilePointer → Input → State → State
  visit file input p = record p {
    visited = file.identity ∷ p.visited;
    end = if str_eq file.identity set.main.identity then input.end else p.end;
  }

  unfoldable pub process_file : FilePointer → State → Outcome Unit
  process_file file p =
      let input = normalize file.file in
      let q = visit file input p in
      let allow = set.options.allow_line_comments in
      elim (is_within (scan_input allow input)) [
        | true ↦ process_tokens file (tokenize_input allow input (engine q)) q
        | false ↦ out_of_range
      ]

-- Whether `#pragma once` keeps a file from being read again.
abbrev pub is_done : FilePointer → State → Bool
is_done file p = holds file.identity p.once && holds file.identity p.visited

-- `levels` is 64 less the depth.
unfoldable pub process : Setting → ℕ → FilePointer → SourceLoc → State → Outcome Unit
process set zero file at p = elim (is_done file p) [
  | true ↦ ok _ p
  | false ↦ fail at (codes "include nesting limit exceeded") p
]
process set (suc levels) file at p = elim (is_done file p) [
  | true ↦ ok _ p
  | false ↦ process_file set (process set levels) file p
]

-- What `run` does with the end of `process`.
unfoldable pub ran : Outcome Unit → Outcome Unit
ran (failed p) = ok _ (record p { output = [] })
ran result = result

abbrev pub no_errors : Outcome Unit → Outcome Bool
no_errors result = result >>= λ _ p. ok (not (has_errors (engine p))) p

unfoldable pub run : Setting → State → Outcome Bool
run set p = elim p.ran [
  | true ↦ no_errors (ok _ p)
  | false ↦ no_errors (ran (process set 64 set.main p.end (record p { ran = true })))
]
