-- ===== src/Tests/CommandLine.antt =====
-- Runs of lib/Frontend/CompilerInvocation.cpp, and its theorems at small command lines.
use tensorium_cc.Prelude.{◌≡◌, refl, Bool, true, false, none, [], ◌∷◌, codes, same_bytes}
use tensorium_cc.LangOptions.{for_c89, for_c99}
use tensorium_cc.Diagnostic.{
  new_engine, add_source, put_source, line_starts_from, find_source, report,
}
use tensorium_cc.Diagnostic.Render.{headline, source_lines, render}
use tensorium_cc.Preprocessor.Scan.{starts_with}
use tensorium_cc.Invocation.{
  DiagnosticColor, FrontendAction, CompilerInvocation, default_invocation, file_or_error, option,
  argument, read_arguments, action_of, check_choices, parse_compiler_invocation,
}
use tensorium_cc.Invocation.Reports.{Reports}
use tensorium_cc.Invocation.Spelled.{command_line, parse_compiler_invocation-command_line}

-- The colours are used if they are asked for.
abbrev asked : DiagnosticColor → Bool
asked DiagnosticColor.always = true
asked _ = false

in_any_order :
    parse_compiler_invocation false asked
      (codes "cc1"
        ∷ codes "a.c"
        ∷ codes "-Ilib"
        ∷ codes "--dump-ast"
        ∷ codes "-I"
        ∷ codes "-x"
        ∷ [])
      default_invocation
      []
    ≡ (
      true,
      (
        record default_invocation {
          input_file = codes "a.c";
          action = FrontendAction.dump_ast;
          include_dirs = codes "lib" ∷ codes "-x" ∷ [];
        },
        [],
      ),
    )
unfolding parse_compiler_invocation read_arguments argument option file_or_error check_choices
    action_of same_bytes starts_with
in_any_order = refl

without_directory :
    parse_compiler_invocation false asked (codes "cc1" ∷ codes "-I" ∷ []) default_invocation []
    ≡ (false, (default_invocation, codes "cc1: error: expected directory after -I\n"))
unfolding parse_compiler_invocation read_arguments argument option check_choices same_bytes report
    new_engine add_source put_source line_starts_from find_source headline source_lines render
without_directory = refl

abbrev dumping : CompilerInvocation
dumping = record default_invocation {
  input_file = codes "-x";
  action = FrontendAction.emit_mlir;
  diagnostic_color = DiagnosticColor.never;
  lang_options = for_c89;
  include_dirs = codes "a" ∷ codes "-b" ∷ [];
}

parse_compiler_invocation-command_line_example :
    parse_compiler_invocation true asked (codes "cc1" ∷ command_line dumping) default_invocation []
    ≡ (true, (record dumping { lang_options = for_c99; target = none }, []))
parse_compiler_invocation-command_line_example =
    parse_compiler_invocation-command_line true asked dumping default_invocation (codes "cc1") []
      refl
