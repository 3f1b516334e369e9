-- ===== src/Sema.antt =====
-- lib/Sema, with the types of include/cc1/AST/Type.hpp and the targets of lib/Basic/TargetInfo.cpp.
pub mod Types
pub mod Target
pub mod Compatible
pub mod Validate
pub mod Normalize
pub mod Conversions
pub mod Literal
pub mod Symbols
