-- ===== src/Parser.antt =====
-- lib/Parse: the tables of operators.
pub mod Operators
