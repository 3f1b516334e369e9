-- ===== src/Lib.antt =====
-- A model of the C frontend cc1 of Tensorium_cc, with its theorems.
--
-- A source text goes through the lexer (lib/Lex/Lexer.cpp), directly or behind the preprocessor, to
-- the parser and from there to the semantic analysis (lib/Sema) and the code generation. Every phase
-- reports to one diagnostic engine and asks it whether there were errors. The modules follow these
-- parts:
--
-- - Location and Diagnostic: include/cc1/Basic/SourceLocation.hpp and lib/Basic/Diagnostic.cpp. The
--   engine is a record that `report` and `add_source` return anew; `render` gives the bytes that
--   `report` writes to the stream, which the record collects.
-- - Token: include/cc1/Lex/Token.hpp and lib/Lex/Token.cpp. The constructors of TokenKind stand in
--   the order of the enumeration, since isLiteral and the others compare positions.
-- - Lexer: lib/Lex/Lexer.cpp. A `Scan` is the text that is left, with the offset, line and column;
--   each function `lexX` is `lex_x` on it, and `next` and `peek` step the `Lexer` record, which also
--   keeps the token looked at. Lexer/Space, Ident, Number, Literal, Punct and Next model the
--   functions; their children and Lexer/Progress hold the proofs.
-- - Numeral: what std::stoll and std::stoull do in base 0 on texts without space or sign.
-- - Sources and LangOptions: lib/Basic/SourceManager.cpp and include/cc1/Basic/LangOptions.hpp. A
--   pointer to a file is the key that the manager stores it under, with the file.
-- - Preprocessor: lib/Lex/Preprocessor.cpp. Its state is the record `State`, the members that nothing
--   changes are the record `Setting`, and a method ends in an `Outcome`: true with a value, false, an
--   access out of range, or fuel that is spent. Preprocessor/Normalize, Scan, Tokenize, Define,
--   Predefined, Expand, Conditionals, Condition, Include, Process and Output follow the order of the
--   file; the parts of `expand` stand in Expand/Arguments, Substitute and Paste. Their other children
--   and Ends hold the proofs. `process` calls the scanner on each file, `define`, `condition` and
--   `include` on its directives and `expand` on the text between; `next` gives each token of the output
--   to a lexer of its own.
-- - PpExpression: lib/Lex/PPExpression.cpp, with the token list behind the position as its state.
--   `unary`, `binary` and `conditional` keep their names; the loop of `binary` is `binary_loop`.
--   They are compared with PpExpression/Meaning, which says what the operators and constants of C
--   mean, and PpExpression/Grammar, which says how they are grouped.
-- - Parser: the tables of binary operators of lib/Parse/ParseExpr.cpp, with `BinaryOp` of
--   include/cc1/AST/AST.hpp and the operators of lib/Sema/SemaInternal.hpp.
-- - Invocation: lib/Frontend/CompilerInvocation.cpp. The locals of `parseCompilerInvocation` are the
--   record `Choices`, on which `argument` makes one step of the loop `read_arguments`, and
--   `check_choices` is what stands behind the loop.
-- - Sema: include/cc1/AST/Type.hpp, lib/Basic/TargetInfo.cpp, the functions of
--   lib/Sema/SemaConversions.cpp on types and literals, `compatible`, `normalize_type` and
--   `validate_type` of lib/Sema/SemaDecl.cpp, and include/cc1/Sema/SymbolTable.hpp. `TypeState` has
--   the members of class Sema that normalization changes.
--
-- Conventions. A std::string and a source text are lists of bytes. The tests of <cctype> are those
-- of the C locale, so a byte from 128 on is in no class. Line and column wrap around as uint32_t;
-- offsets of type size_t do not, since no text is that long. std::stod is a parameter that gives bit
-- patterns, and the file system and the clock are parameters, for the preprocessor in the record
-- `System`. The answer of `useColor`, which asks the stream and the environment, is a parameter too,
-- and so is whether the build supports MLIR.
-- The values of directives are bit patterns below 2 ^ 64, with the arithmetic of uint64_t and, through
-- two's complement, of int64_t.
--
-- Bounds and fuel. The loops of the lexer run on fuel that their callers set to the number of bytes
-- left and a constant. The evaluator of directives has fuel 4 n + 3 for n tokens, since each of its
-- calls that does not shorten the list is followed by at most three more before one that does; its
-- own limit of 256 levels is an argument of the functions. The scanner of the preprocessor recurs on the
-- text, with a number that says how far the index is ahead. `expand` has one unit of fuel for each
-- expansion that its own limit of 100000 leaves, and `process` one level for each file that its limit
-- of 64 leaves.
--
-- Types are trees: normalization, which writes the parts of a type in place, returns the new tree.
-- Objects are compared by address only where both are struct, union or enum types, so only these
-- carry an address, and the type pool is the next address. The tests for null types are left out,
-- since the analysis stops before them where the parser failed. A use of the symbol table without a
-- scope is `none`.
--
-- Not modelled: the rest of the parser and the nodes of the syntax tree, the parts of the analysis that
-- rewrite the syntax tree, the code generation, which calls MLIR, the dialect, and
-- the rest of the driver, which opens the file and calls the phases.
pub mod Prelude
pub mod Location
pub mod Diagnostic
pub mod Sources
pub mod LangOptions
pub mod Token
pub mod Numeral
pub mod Lexer
mod Tests
pub mod Preprocessor
pub mod PpExpression
pub mod Parser
pub mod Sema
pub mod Invocation
