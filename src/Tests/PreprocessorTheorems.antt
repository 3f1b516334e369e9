-- ===== src/Tests/PreprocessorTheorems.antt =====
-- The theorems on lib/Lex/Preprocessor.cpp and lib/Basic/SourceManager.cpp at small inputs.
use tensorium_cc.Prelude.{
  ◌≡◌, ◌≤◌, ◌+◌, refl, true, false, not, List, [], ◌∷◌, some, String, codes, same_bytes, length,
  arith,
}
use tensorium_cc.Location.{SourceLoc}
use tensorium_cc.Diagnostic.{has_errors, new_engine}
use tensorium_cc.LangOptions.{for_c99}
use tensorium_cc.Sources.{
  SourceFile, FilePointer, SourceManager, contents, unopened, find_file, add, load_new, load,
}
use tensorium_cc.Sources.Lookup.{now, after_load, load-load}
use tensorium_cc.Token.{is_eof}
use tensorium_cc.Lexer.Bytes.{is_alpha, is_ident_start}
use tensorium_cc.Preprocessor.{PpToken, PpTokenKind}
use tensorium_cc.Preprocessor.Normalize.{Input, normalize, file_start}
use tensorium_cc.Preprocessor.Normalize.Phases.{phases, bytes_of, places_of, normalize-phases}
use tensorium_cc.Preprocessor.Tokenize.{plain_token, tokenize_input}
use tensorium_cc.Preprocessor.Tokenize.Cover.{Cover}
use tensorium_cc.Preprocessor.Tokenize.Lexed.{tokenize_input-AllLexed}
use tensorium_cc.Preprocessor.State.{Macro, State, Outcome, engine, member}
use tensorium_cc.Preprocessor.Setup.{new_state}
use tensorium_cc.Preprocessor.Ends.{Ends}
use tensorium_cc.Preprocessor.Define.{define}
use tensorium_cc.Preprocessor.Define.Valid.{AllLexed, WellFormed, ValidMacro}
use tensorium_cc.Preprocessor.Define.WellFormed.{define-WellFormed}
use tensorium_cc.Preprocessor.Expand.{expand}
use tensorium_cc.Preprocessor.Expand.Ends.{Grown}
use tensorium_cc.Preprocessor.Expand.Returns.{expand-Keeps}
use tensorium_cc.Preprocessor.Conditionals.{Conditional, open_frame}
use tensorium_cc.Preprocessor.Conditionals.Nested.{Nested}
use tensorium_cc.Preprocessor.Conditionals.Branches.{
  group, first_only, conditions, group-first_only,
}
use tensorium_cc.Preprocessor.Process.{perform, process, run}
use tensorium_cc.Preprocessor.Process.Run.{perform-Nested, process-Returns, run-Reports}
use tensorium_cc.Preprocessor.Output.Ending.{nth_next, nth_next-EndsInput}
use tensorium_cc.Tests.Preprocessing.{main_file, set_of, sources_of, start_of}

-- A text with a splice, a '\r\n' and a comment.
abbrev spliced : SourceFile
spliced = record { filename = "a.c"; content = codes "#def\\\nine A\r\n/* b */c" }

normalize-phases_example :
    (normalize spliced).text ≡ bytes_of (phases (file_start spliced) spliced.content)
    × (normalize spliced).locations ≡ places_of (phases (file_start spliced) spliced.content)
normalize-phases_example = normalize-phases spliced

abbrev at : SourceLoc
at = record { filename = some "a.c"; line = 1; col = 1 }

-- A comment and a word.
abbrev small : Input
small = record {
  text = codes "/* b */c";
  locations = at ∷ at ∷ at ∷ at ∷ at ∷ at ∷ at ∷ at ∷ [];
  end = at;
}

abbrev word : PpToken
word = record (plain_token PpTokenKind.identifier (codes "c") at) { leading_space = true }

tokenize_input-AllLexed_example : AllLexed (tokenize_input true small (new_engine false "a.c" [])).0
tokenize_input-AllLexed_example = tokenize_input-AllLexed true small (new_engine false "a.c" [])

abbrev token_of : PpTokenKind → String → PpToken
token_of kind text = plain_token kind (codes text) at

-- `#define F(x) x ## 1`, behind the directive's name.
abbrev definition : List PpToken
definition =
    token_of PpTokenKind.identifier "F"
    ∷ token_of PpTokenKind.punct "("
    ∷ token_of PpTokenKind.identifier "x"
    ∷ token_of PpTokenKind.punct ")"
    ∷ token_of PpTokenKind.identifier "x"
    ∷ token_of PpTokenKind.punct "##"
    ∷ token_of PpTokenKind.number "1"
    ∷ []

definition-AllLexed : AllLexed definition
unfolding is_ident_start is_alpha
definition-AllLexed = (
  (refl, refl),
  ((refl, refl), ((refl, refl), ((refl, refl), ((refl, refl), ((refl, refl), ((refl, refl), _)))))),
)

abbrev source : String
source = "#if 1\nx\n#endif\n"

start_of-WellFormed : WellFormed (start_of source "")
unfolding new_state
start_of-WellFormed = _

define-WellFormed_example :
    Ends
      (λ _ q. WellFormed q)
      (λ q. WellFormed q × has_errors (engine q) ≡ true)
      (define for_c99 definition at (start_of source ""))
define-WellFormed_example =
    define-WellFormed for_c99 definition at (start_of source "") definition-AllLexed
      start_of-WellFormed

-- The macro of that definition.
abbrev pasting : Macro
pasting = record {
  function_like = true;
  variadic = false;
  parameters = codes "x" ∷ [];
  replacement =
      token_of PpTokenKind.identifier "x"
      ∷ token_of PpTokenKind.punct "##"
      ∷ token_of PpTokenKind.number "1"
      ∷ [];
}

pasting-Valid : ValidMacro pasting
unfolding is_ident_start is_alpha member same_bytes
pasting-Valid = record {
  named = ((refl, _), (refl, _), refl);
  fits = (
    record {
      pastes = λ e. ground arith;
      stringizes = λ f e. ground arith;
      varies = λ e. ground arith;
    },
    (
      record {
        pastes = λ e. (refl, refl);
        stringizes = λ f e. ground arith;
        varies = λ e. ground arith;
      },
      (
        record {
          pastes = λ e. ground arith;
          stringizes = λ f e. ground arith;
          varies = λ e. ground arith;
        },
        _,
      ),
    ),
  );
  lexed = ((refl, refl), ((refl, refl), ((refl, refl), _)));
  object = λ e. ground arith;
}

abbrev with_macro : State
with_macro = record (start_of source "") { macros = (codes "F", pasting) ∷ [] }

-- `F(F(2))`.
abbrev call : List PpToken
call =
    token_of PpTokenKind.identifier "F"
    ∷ token_of PpTokenKind.punct "("
    ∷ token_of PpTokenKind.identifier "F"
    ∷ token_of PpTokenKind.punct "("
    ∷ token_of PpTokenKind.number "2"
    ∷ token_of PpTokenKind.punct ")"
    ∷ token_of PpTokenKind.punct ")"
    ∷ []

expand-Keeps_example :
    Ends
      (λ _ q. Grown with_macro q)
      (λ q. Grown with_macro q × has_errors (engine q) ≡ true)
      (expand (set_of source "") call with_macro)
expand-Keeps_example = expand-Keeps (set_of source "") call with_macro (pasting-Valid, _)

group-first_only_example :
    group true at false (true ∷ true ∷ []) true
    ≡ first_only true (conditions false (true ∷ true ∷ []) true)
group-first_only_example = group-first_only true at false (true ∷ true ∷ []) true

process-Returns_example :
    Ends
      (λ _ q. WellFormed q)
      (λ q. WellFormed q × has_errors (engine q) ≡ true)
      (process (set_of source "") 64 (main_file source) at with_macro)
process-Returns_example =
    process-Returns (set_of source "") 64 (main_file source) at with_macro (pasting-Valid, _)

run-Reports_example :
    Ends
      (λ success q. success ≡ not (has_errors (engine q)))
      (λ q. ⊥)
      (run (set_of source "") (start_of source ""))
run-Reports_example = run-Reports (set_of source "") (start_of source "") start_of-WellFormed

-- A state behind `run`, with one token.
abbrev ran_state : State
ran_state = record with_macro { ran = true; output = word ∷ [] }

one_left : length ran_state.output ≤ 1 + ran_state.cursor
unfolding new_state
one_left = omega arith

nth_next-EndsInput_example :
    Ends (λ token q. is_eof token ≡ true) (λ q. ⊥) (nth_next (set_of source "") 1 ran_state)
nth_next-EndsInput_example = nth_next-EndsInput (set_of source "") 1 ran_state refl one_left

abbrev added : FilePointer
added = record { identity = "b.h"; file = record { filename = "b.h"; content = codes "x" } }

first_load :
    (load (λ path. path) (λ path. contents (codes "x")) "b.h" at (sources_of source)).0 ≡ some added
unfolding load load_new add find_file
first_load = refl

-- `#else` inside `#if 0`.
abbrev frame : Conditional
frame = open_frame true false at

frame-Nested : Nested (frame ∷ [])
unfolding open_frame
frame-Nested = (
  record {
    inside = refl;
    active_inside = λ e. ground arith;
    active_taken = λ e. e;
    else_taken = λ e. ground arith;
  },
  _,
)

abbrev no_file : FilePointer → SourceLoc → State → Outcome Unit
no_file = process (set_of source "") 63

perform-Nested_example :
    Ends
      (λ after q. Nested after × WellFormed q)
      (λ q. WellFormed q × has_errors (engine q) ≡ true)
      (perform
        (set_of source "")
        no_file
        (main_file source)
        (token_of PpTokenKind.identifier "else")
        []
        at
        (frame ∷ [])
        with_macro)
perform-Nested_example =
    perform-Nested (set_of source "") no_file (process-Returns (set_of source "") 63)
      (main_file source) (token_of PpTokenKind.identifier "else") [] at (frame ∷ []) with_macro _
      frame-Nested (pasting-Valid, _)

-- The manager that has loaded b.h, and behind it c.h.
abbrev loaded : SourceManager
loaded = (load (λ path. path) (λ path. contents (codes "x")) "b.h" at (sources_of source)).1

abbrev loaded_more : SourceManager
loaded_more = (load (λ path. path) (λ path. contents (codes "y")) "c.h" at loaded).1

load-load_example :
    load (λ path. path) (λ path. unopened) "b.h" at loaded_more ≡ (some added, loaded_more)
load-load_example =
    load-load (λ path. path) (λ path. contents (codes "x")) (λ path. unopened) "b.h" "b.h" at at
      (sources_of source) loaded_more added first_load
      (after_load (λ path. contents (codes "y")) "c.h" at now) refl
