-- ===== src/Invocation.antt =====
-- include/cc1/Frontend/CompilerInvocation.hpp and lib/Frontend/CompilerInvocation.cpp: the command line.
-- Parameters are what CompilerInstance::hasMLIRSupport returns, which the build decides, and what
-- useColor makes of a mode on the stream that is written to.
pub mod Reports
pub mod Spelled
use tensorium_cc.Prelude.{
  ℕ, ◌+◌, Bool, true, false, ◌&&◌, ◌||◌, Option, none, some, List, [], ◌∷◌, ◌++◌, ltb, ◌==◌,
  if◌then◌else◌, drop, Bytes, String, codes, same_bytes,
}
use tensorium_cc.Location.{unset}
use tensorium_cc.Diagnostic.{error, DiagnosticEngine, new_engine, report}
use tensorium_cc.LangOptions.{LangOptions, for_c99}
use tensorium_cc.Sema.Target.{TargetInfo}
use tensorium_cc.Preprocessor.Scan.{starts_with}

pub data DiagnosticColor : Type 0 where
  auto always never : DiagnosticColor

pub data FrontendAction : Type 0 where
  check_syntax preprocess dump_tokens dump_ast dump_sema emit_mlir : FrontendAction

pub record CompilerInvocation : Type 0 where
  pub input_file : Bytes
  pub action : FrontendAction
  pub diagnostic_color : DiagnosticColor
  pub lang_options : LangOptions
  pub include_dirs : List Bytes
  pub target : Option TargetInfo

-- With the members' initializers; std::string() is empty.
abbrev pub default_invocation : CompilerInvocation
default_invocation = record {
  input_file = [];
  action = FrontendAction.check_syntax;
  diagnostic_color = DiagnosticColor.auto;
  lang_options = for_c99;
  include_dirs = [];
  target = none;
}

-- The locals of `parseCompilerInvocation`.
pub record Choices : Type 0 where
  pub color : DiagnosticColor
  pub tokens : Bool
  pub ast : Bool
  pub sema : Bool
  pub preprocessed : Bool
  pub mlir : Bool
  pub dirs : List Bytes
  pub filename : Option Bytes
  pub options : Bool

abbrev pub nothing_chosen : Choices
nothing_chosen = record {
  color = DiagnosticColor.auto;
  tokens = false;
  ast = false;
  sema = false;
  preprocessed = false;
  mlir = false;
  dirs = [];
  filename = none;
  options = true;
}

-- What one argument does: the loop goes on, it takes the next argument for a directory, or the
-- function reports an error and returns.
pub data Step : Type 0 where
  go_ahead : Choices → Step
  directory : Step
  reject : Bytes → Step

abbrev pub is_arg : Bytes → String → Bool
is_arg arg text = same_bytes arg (codes text)

abbrev pub begins_with_dash : Bytes → Bool
begins_with_dash [] = false
begins_with_dash (c ∷ arg) = c == b'-'

-- The last two branches.
unfoldable pub file_or_error : Bytes → Choices → Step
file_or_error arg c = elim c.filename [
  | some name ↦ reject (codes "expected a single input file")
  | none ↦
      if c.options && begins_with_dash arg
      then reject (codes "unknown option '" ++ arg ++ codes "'")
      else go_ahead (record c { filename = some arg })
]

-- A branch that is taken while `options` holds.
unfoldable pub option : (mlir_support : Bool) → Bytes → Choices → Step
option mlir_support arg c =
    if is_arg arg "--"
    then go_ahead (record c { options = false })
    else if is_arg arg "-fcolor-diagnostics"
    then go_ahead (record c { color = DiagnosticColor.always })
    else if is_arg arg "-fno-color-diagnostics"
    then go_ahead (record c { color = DiagnosticColor.never })
    else if is_arg arg "--dump-tokens"
    then go_ahead (record c { tokens = true })
    else if is_arg arg "--dump-ast"
    then go_ahead (record c { ast = true })
    else if is_arg arg "--dump-sema"
    then go_ahead (record c { sema = true })
    else if is_arg arg "--emit-mlir"
    then (if mlir_support
        then go_ahead (record c { mlir = true })
        else reject (codes "MLIR support is disabled; rebuild with -DCC1_ENABLE_MLIR=ON"))
    else if is_arg arg "-E"
    then go_ahead (record c { preprocessed = true })
    else if is_arg arg "-I"
    then directory
    else if starts_with (codes "-I") arg
    then go_ahead (record c { dirs = c.dirs ++ (drop 2 arg ∷ []) })
    else file_or_error arg c

unfoldable pub argument : (mlir_support : Bool) → Bytes → Choices → Step
argument mlir_support arg c = if c.options then option mlir_support arg c else file_or_error arg c

-- How the loop, and the tests behind it, end. An error is single_error in the color chosen so far; the
-- flag says that the usage is written behind it.
pub data Ended (A : Type 0) : Type 0 where
  done : A → Ended A
  refused : DiagnosticColor → Bytes → (usage : Bool) → Ended A

unfoldable pub read_arguments : (mlir_support : Bool) → List Bytes → Choices → Ended Choices
read_arguments mlir_support [] c = done c
read_arguments mlir_support (arg ∷ []) c = elim (argument mlir_support arg c) [
  | go_ahead d ↦ done d
  | directory ↦ refused c.color (codes "expected directory after -I") false
  | reject message ↦ refused c.color message false
]
read_arguments mlir_support (arg ∷ next ∷ args) c = elim (argument mlir_support arg c) [
  | go_ahead d ↦ read_arguments mlir_support (next ∷ args) d
  | directory ↦ read_arguments mlir_support args (record c { dirs = c.dirs ++ (next ∷ []) })
  | reject message ↦ refused c.color message false
]

-- `static_cast<int>`.
abbrev pub to_int : Bool → ℕ
to_int b = if b then 1 else 0

unfoldable pub action_of : Choices → FrontendAction
action_of c =
    if c.preprocessed
    then preprocess
    else if c.tokens
    then dump_tokens
    else if c.ast
    then dump_ast
    else if c.sema
    then dump_sema
    else if c.mlir
    then emit_mlir
    else check_syntax

unfoldable pub check_choices : Choices → CompilerInvocation → Ended CompilerInvocation
check_choices c invocation = elim c.filename [
  | none ↦ refused c.color (codes "no input file") true
  | some name ↦
      if ltb 1 (to_int c.tokens + to_int c.ast + to_int c.sema + to_int c.mlir)
      then refused c.color (codes "output options cannot be combined") false
      else if c.preprocessed && (c.tokens || c.ast || c.sema || c.mlir)
      then refused c.color (codes "-E cannot be combined with another output option") false
      else done (record invocation {
        input_file = name;
        diagnostic_color = c.color;
        include_dirs = c.dirs;
        action = action_of c;
      })
]

abbrev pub usage_text : Bytes
usage_text =
    codes "usage: cc1 [-E|--dump-tokens|--dump-ast|--dump-sema|--emit-mlir] [-I directory] "
    ++ codes "[-fcolor-diagnostics|-fno-color-diagnostics] <file.c>\n"

-- What an engine that is made for one error writes.
abbrev pub single_error : Bool → Bytes → DiagnosticEngine
single_error use_color message = report error unset message 1 (new_engine use_color "cc1" [])

module _ (mlir_support : Bool) (use_color : DiagnosticColor → Bool) where
  -- The result, the invocation and the stream behind the call.
  abbrev pub returned :
      CompilerInvocation → Bytes → Ended CompilerInvocation → Bool × (CompilerInvocation × Bytes)
  returned invocation output (done parsed) = (true, (parsed, output))
  returned invocation output (refused color message usage) = (
    false,
    (
      invocation,
      output
          ++ (single_error (use_color color) message).output
          ++ (if usage then usage_text else []),
    ),
  )

  abbrev pub checked : CompilerInvocation → Ended Choices → Ended CompilerInvocation
  checked invocation (done c) = check_choices c invocation
  checked invocation (refused color message usage) = refused color message usage

  unfoldable pub parse_compiler_invocation :
      (argv : List Bytes) → CompilerInvocation → Bytes → Bool × (CompilerInvocation × Bytes)
  parse_compiler_invocation argv invocation output =
      returned invocation output
        (checked invocation (read_arguments mlir_support (drop 1 argv) nothing_chosen))
