-- ===== src/PpExpression.antt =====
-- lib/Lex/PPExpression.cpp: the expressions of `#if`.
pub mod State
pub mod Operators
pub mod Numbers
pub mod Parse
pub mod Rest
pub mod Total
pub mod Meaning
pub mod Meant
pub mod Constants
pub mod Grammar
pub mod Values
pub mod Choice
pub mod Correct
