-- ===== src/Diagnostic.antt =====
-- include/cc1/Basic/Diagnostic.hpp and lib/Basic/Diagnostic.cpp: the engine that every phase reports to.
pub mod Data
pub mod Render
pub use Data.{DiagnosticLevel, note, warning, error, fatal, Diagnostic, SourceText}
unfoldable pub use Data.{find_source}
use Render.{render}
use tensorium_cc.Prelude.{
  ℕ, ◌+◌, Bool, true, false, Option, none, some, List, [], ◌∷◌, ◌++◌, ltb, ◌==◌, if◌then◌else◌,
  Bytes, String, str_eq,
}
use tensorium_cc.Location.{SourceLoc}

-- `output` is what was written to `_output`.
pub record DiagnosticEngine : Type 0 where
  pub filename : String
  pub output : Bytes
  pub use_color : Bool
  pub error_count : ℕ
  pub sources : List (String × SourceText)
  pub diagnostics : List Diagnostic

-- The offsets that the loop of `addSource` appends, from offset `i` on.
unfoldable pub line_starts_from : ℕ → Bytes → List ℕ
line_starts_from i [] = []
line_starts_from i (c ∷ []) =
    if c == b'\r' then (i + 1) ∷ [] else if c == b'\n' then (i + 1) ∷ [] else []
line_starts_from i (c ∷ d ∷ cs) =
    let pair = (i + 2) ∷ line_starts_from (i + 2) cs in
    let next = line_starts_from (i + 1) (d ∷ cs) in
    if c == b'\r'
    then (if d == b'\n' then pair else (i + 1) ∷ next)
    else if c == b'\n'
    then (i + 1) ∷ next
    else next

-- `_sources[filename] = entry`.
unfoldable pub put_source :
    String → SourceText → List (String × SourceText) → List (String × SourceText)
put_source name entry [] = (name, entry) ∷ []
put_source name entry ((other, text) ∷ rest) =
    if str_eq other name then (name, entry) ∷ rest else (other, text) ∷ put_source name entry rest

unfoldable pub add_source : String → Bytes → DiagnosticEngine → DiagnosticEngine
add_source name source engine = record engine {
  sources =
      put_source name (record { text = source; line_starts = 0 ∷ line_starts_from 0 source })
        engine.sources;
}

-- `use_color` is what `useColor` makes of the stream, the mode and the environment.
unfoldable pub new_engine : (use_color : Bool) → String → Bytes → DiagnosticEngine
new_engine use_color name source = add_source name source (record {
  filename = name;
  output = [];
  use_color = use_color;
  error_count = 0;
  sources = [];
  diagnostics = [];
})

-- The two levels that `report` counts.
abbrev pub counts : DiagnosticLevel → Bool
counts error = true
counts fatal = true
counts _ = false

abbrev pub or_else {ℓ} : {A : Type ℓ} → Option A → A → A
or_else none d = d
or_else (some a) d = a

abbrev made : DiagnosticLevel → SourceLoc → Bytes → ℕ → String → Diagnostic
made level loc message length name = record {
  level = level;
  filename = or_else loc.filename name;
  line = loc.line;
  col = loc.col;
  message = message;
  length = if ltb 1 length then length else 1;
}

unfoldable pub report :
    DiagnosticLevel → SourceLoc → Bytes → ℕ → DiagnosticEngine → DiagnosticEngine
report level loc message length engine =
    let d = made level loc message length engine.filename in
    record engine {
      diagnostics = engine.diagnostics ++ (d ∷ []);
      error_count = if counts level then engine.error_count + 1 else engine.error_count;
      output = engine.output ++ render engine.use_color engine.sources d;
    }

unfoldable pub has_errors : DiagnosticEngine → Bool
has_errors engine = ltb 0 engine.error_count
