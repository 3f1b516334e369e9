-- ===== src/Tests.antt =====
-- Runs of the modelled code on small inputs, and the theorems at such inputs.
mod Lexing
mod CommandLine
mod LexerTheorems
mod Preprocessing
mod PreprocessorTheorems
mod Directives
mod DirectiveTheorems
mod SemaTheorems
mod SemaTypes
mod Rendering
mod Operators
