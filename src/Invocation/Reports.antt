-- ===== src/Invocation/Reports.antt =====
-- How `parseCompilerInvocation` ends on any command line (lib/Frontend/CompilerInvocation.cpp).
use tensorium_cc.Prelude.{◌≡◌, Bool, true, false, List, [], ◌∷◌, ◌++◌, if◌then◌else◌, Bytes, codes}
use tensorium_cc.Invocation.{
  DiagnosticColor, CompilerInvocation, Choices, Step, go_ahead, directory, reject, Ended, done,
  refused, usage_text, begins_with_dash,
}
use tensorium_cc.Invocation.Spelled.{Supported}

-- What a refused command line is told, and the text behind the error.
pub data Complaint (m : Bool) : Bytes → Bytes → Type 0 where
  no_mlir :
      m ≡ false
      → Complaint m (codes "MLIR support is disabled; rebuild with -DCC1_ENABLE_MLIR=ON") []
  no_directory : Complaint m (codes "expected directory after -I") []
  second_file : Complaint m (codes "expected a single input file") []
  unknown :
      (arg : Bytes)
      → begins_with_dash arg ≡ true
      → Complaint m (codes "unknown option '" ++ (arg ++ codes "'")) []
  no_file : Complaint m (codes "no input file") (
      codes
        "usage: cc1 [-E|--dump-tokens|--dump-ast|--dump-sema|--emit-mlir] [-I directory] [-fcolor-diagnostics|-fno-color-diagnostics] <file.c>\n")
  two_outputs : Complaint m (codes "output options cannot be combined") []
  output_with_preprocessing :
      Complaint m (codes "-E cannot be combined with another output option") []

-- The line of an error on the stream, with or without the colours of a terminal.
abbrev pub error_line : Bool → Bytes → Bytes
error_line false message = codes "cc1: error: " ++ message ++ codes "\n"
error_line true message =
    (27 ∷ codes "[1mcc1: ")
    ++ (27 ∷ codes "[0m")
    ++ (27 ∷ codes "[1;31merror: ")
    ++ (27 ∷ codes "[0m")
    ++ (27 ∷ codes "[1m")
    ++ message
    ++ (27 ∷ codes "[0m")
    ++ codes "\n"

module _ (m : Bool) where
  -- The locals hold an option for MLIR only in a build that supports it.
  abbrev Honest : Choices → Type 0
  Honest c = c.mlir ≡ true → m ≡ true

  abbrev HonestStep : Step → Type 0
  HonestStep (go_ahead c) = Honest c
  HonestStep directory = Unit
  HonestStep (reject message) = Complaint m message []

  abbrev HonestEnd : Ended Choices → Type 0
  HonestEnd (done c) = Honest c
  HonestEnd (refused k message usage) = Complaint m message (if usage then usage_text else [])

module _ (m : Bool) (use_color : DiagnosticColor → Bool) (before : CompilerInvocation)
    (output : Bytes) where
  -- The two ways to return: an invocation without output, in which the language options and the target
  -- are the old ones and MLIR is asked for only where the build supports it; or one error line behind
  -- the output, with the usage where there is no file, and the old invocation.
  pub data Reports : Bool × (CompilerInvocation × Bytes) → Type 0 where
    accepted :
        (i : CompilerInvocation)
        → i.lang_options ≡ before.lang_options
        → i.target ≡ before.target
        → Supported m i.action
        → Reports (true, (i, output))
    rejected :
        (color : DiagnosticColor) (message text : Bytes)
        → Complaint m message text
        → Reports (false, (before, output ++ error_line (use_color color) message ++ text))

  data Settled : Ended CompilerInvocation → Type 0 where
    ends :
        (i : CompilerInvocation)
        → i.lang_options ≡ before.lang_options
        → i.target ≡ before.target
        → Supported m i.action
        → Settled (done i)
    fails :
        (k : DiagnosticColor) (message : Bytes) (usage : Bool)
        → Complaint m message (if usage then usage_text else [])
        → Settled (refused k message usage)
