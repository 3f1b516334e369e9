-- ===== src/Lexer.antt =====
-- lib/Lex/Lexer.cpp and include/cc1/Lex/Lexer.hpp, one child for each group of its methods.
pub mod Bytes
pub mod Scan
pub mod Outcome
pub mod Space
pub mod Ident
pub mod Number
pub mod Literal
pub mod Punct
pub mod Next
pub mod Progress
