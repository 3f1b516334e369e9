-- ===== src/Invocation/Spelled.antt =====
-- A command line that is written for an invocation is read back as that invocation
-- (lib/Frontend/CompilerInvocation.cpp).
use mathlib.Core.List.{append_assoc, append-nil}
use tensorium_cc.Prelude.{
  ◌≡◌, refl, sym, ap, ◌∙◌, Bool, true, false, List, [], ◌∷◌, ◌++◌, some, Bytes, codes, same_bytes,
}
use tensorium_cc.Invocation.{
  DiagnosticColor, FrontendAction, CompilerInvocation, Choices, nothing_chosen, done, go_ahead,
  file_or_error, option, argument, read_arguments, action_of, check_choices, returned, checked,
  parse_compiler_invocation,
}

abbrev pub color_arguments : DiagnosticColor → List Bytes
color_arguments DiagnosticColor.auto = []
color_arguments DiagnosticColor.always = codes "-fcolor-diagnostics" ∷ []
color_arguments DiagnosticColor.never = codes "-fno-color-diagnostics" ∷ []

abbrev pub action_arguments : FrontendAction → List Bytes
action_arguments FrontendAction.check_syntax = []
action_arguments FrontendAction.preprocess = codes "-E" ∷ []
action_arguments FrontendAction.dump_tokens = codes "--dump-tokens" ∷ []
action_arguments FrontendAction.dump_ast = codes "--dump-ast" ∷ []
action_arguments FrontendAction.dump_sema = codes "--dump-sema" ∷ []
action_arguments FrontendAction.emit_mlir = codes "--emit-mlir" ∷ []

abbrev pub dir_arguments : List Bytes → List Bytes
dir_arguments [] = []
dir_arguments (dir ∷ dirs) = codes "-I" ∷ dir ∷ dir_arguments dirs

-- The file stands behind `--`, so that it can have any name.
abbrev pub command_line : CompilerInvocation → List Bytes
command_line i =
    color_arguments i.diagnostic_color
    ++ (action_arguments i.action
        ++ (dir_arguments i.include_dirs ++ (codes "--" ∷ i.input_file ∷ [])))

abbrev pub Supported : Bool → FrontendAction → Type 0
Supported mlir_support FrontendAction.emit_mlir = mlir_support ≡ true
Supported mlir_support _ = Unit

abbrev same_action : FrontendAction → FrontendAction → Bool
same_action FrontendAction.dump_tokens FrontendAction.dump_tokens = true
same_action FrontendAction.dump_ast FrontendAction.dump_ast = true
same_action FrontendAction.dump_sema FrontendAction.dump_sema = true
same_action FrontendAction.preprocess FrontendAction.preprocess = true
same_action FrontendAction.emit_mlir FrontendAction.emit_mlir = true
same_action _ _ = false

-- The locals behind the options of an invocation.
abbrev chosen : DiagnosticColor → FrontendAction → List Bytes → Choices
chosen color action dirs = record nothing_chosen {
  color = color;
  tokens = same_action action FrontendAction.dump_tokens;
  ast = same_action action FrontendAction.dump_ast;
  sema = same_action action FrontendAction.dump_sema;
  preprocessed = same_action action FrontendAction.preprocess;
  mlir = same_action action FrontendAction.emit_mlir;
  dirs = dirs;
}

module _ (m : Bool) where
  read_arguments-go_ahead :
      (arg : Bytes) (args : List Bytes) (c d : Choices)
      → argument m arg c ≡ go_ahead d
      → read_arguments m (arg ∷ args) c ≡ read_arguments m args d
  unfolding read_arguments
  read_arguments-go_ahead arg [] c d h = rw (h, read_arguments)
  read_arguments-go_ahead arg (next ∷ args) c d h = rw (h, read_arguments)

  read_arguments-action :
      (color : DiagnosticColor) (action : FrontendAction) (args : List Bytes)
      → Supported m action
      → read_arguments m
          (action_arguments action ++ args)
          (chosen color FrontendAction.check_syntax [])
        ≡ read_arguments m args (chosen color action [])
  unfolding argument option same_bytes
  read_arguments-action color FrontendAction.check_syntax args h = refl
  read_arguments-action color FrontendAction.preprocess args h =
      read_arguments-go_ahead (codes "-E") args _ _ refl
  read_arguments-action color FrontendAction.dump_tokens args h =
      read_arguments-go_ahead (codes "--dump-tokens") args _ _ refl
  read_arguments-action color FrontendAction.dump_ast args h =
      read_arguments-go_ahead (codes "--dump-ast") args _ _ refl
  read_arguments-action color FrontendAction.dump_sema args h =
      read_arguments-go_ahead (codes "--dump-sema") args _ _ refl
  read_arguments-action color FrontendAction.emit_mlir args h =
      read_arguments-go_ahead (codes "--emit-mlir") args _ _ (rw h refl)

  read_arguments-color :
      (color : DiagnosticColor) (args : List Bytes)
      → read_arguments m (color_arguments color ++ args) nothing_chosen
        ≡ read_arguments m args (chosen color FrontendAction.check_syntax [])
  unfolding argument option same_bytes
  read_arguments-color DiagnosticColor.auto args = refl
  read_arguments-color DiagnosticColor.always args =
      read_arguments-go_ahead (codes "-fcolor-diagnostics") args _ _ refl
  read_arguments-color DiagnosticColor.never args =
      read_arguments-go_ahead (codes "-fno-color-diagnostics") args _ _ refl

  read_arguments-dirs :
      (color : DiagnosticColor) (action : FrontendAction) (prior dirs : List Bytes) (file : Bytes)
      → read_arguments m
          (dir_arguments dirs ++ (codes "--" ∷ file ∷ []))
          (chosen color action prior)
        ≡ done
            (record (chosen color action (prior ++ dirs)) { options = false; filename = some file })
  unfolding read_arguments argument option file_or_error same_bytes
  read_arguments-dirs color action prior [] file =
      ap
        (λ dirs. done (record (chosen color action dirs) { options = false; filename = some file }))
        (sym (append-nil prior))
  read_arguments-dirs color action prior (dir ∷ dirs) file =
      read_arguments-dirs color action (prior ++ (dir ∷ [])) dirs file
      ∙ ap
          (λ all. done (record (chosen color action all) { options = false; filename = some file }))
          (append_assoc prior (dir ∷ []) dirs)

  read_arguments-command_line :
      (i : CompilerInvocation)
      → Supported m i.action
      → read_arguments m (command_line i) nothing_chosen
        ≡ done (record (chosen i.diagnostic_color i.action i.include_dirs) {
          options = false;
          filename = some i.input_file;
        })
  read_arguments-command_line i h =
      read_arguments-color i.diagnostic_color _
      ∙ read_arguments-action i.diagnostic_color i.action _ h
      ∙ read_arguments-dirs i.diagnostic_color i.action [] i.include_dirs i.input_file

check_choices-chosen :
    (color : DiagnosticColor) (action : FrontendAction) (dirs : List Bytes) (file : Bytes)
    (before : CompilerInvocation)
    → check_choices
        (record (chosen color action dirs) { options = false; filename = some file })
        before
      ≡ done (record before {
        input_file = file;
        diagnostic_color = color;
        include_dirs = dirs;
        action = action;
      })
unfolding check_choices action_of
check_choices-chosen color FrontendAction.check_syntax dirs file before = refl
check_choices-chosen color FrontendAction.preprocess dirs file before = refl
check_choices-chosen color FrontendAction.dump_tokens dirs file before = refl
check_choices-chosen color FrontendAction.dump_ast dirs file before = refl
check_choices-chosen color FrontendAction.dump_sema dirs file before = refl
check_choices-chosen color FrontendAction.emit_mlir dirs file before = refl

-- The command line that is written for an invocation, with its colour, its action, a `-I` before each
-- directory and the file behind `--`, is accepted without output, whatever the file and the
-- directories are called, and gives that invocation. The language options and the target stay as
-- they were, and --emit-mlir needs a build that supports it.
pub parse_compiler_invocation-command_line :
    (mlir_support : Bool) (use_color : DiagnosticColor → Bool) (i before : CompilerInvocation)
    (program output : Bytes)
    → Supported mlir_support i.action
    → parse_compiler_invocation mlir_support use_color (program ∷ command_line i) before output
      ≡ (true, (record i { lang_options = before.lang_options; target = before.target }, output))
unfolding parse_compiler_invocation
parse_compiler_invocation-command_line mlir_support use_color i before program output h =
    ap
      (λ ended.
        returned mlir_support use_color before output (checked mlir_support use_color before ended))
      (read_arguments-command_line mlir_support i h)
    ∙ ap (returned mlir_support use_color before output)
        (check_choices-chosen i.diagnostic_color i.action i.include_dirs i.input_file before)
