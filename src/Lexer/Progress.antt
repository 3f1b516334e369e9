-- ===== src/Lexer/Progress.antt =====
-- Every method of lib/Lex/Lexer.cpp moves over the input and stays within it.
pub mod Space
pub mod Words
pub mod Punct
pub mod Literals
pub mod Tokens
pub mod Positions
pub mod Places
pub mod Blank
pub mod LineStarts
pub mod Lines
