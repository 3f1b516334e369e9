-- ===== src/Preprocessor.antt =====
-- include/cc1/Lex/Preprocessor.hpp: the tokens of the preprocessor.
pub mod Normalize
pub mod Scan
pub mod Tokenize
pub mod State
pub mod Ends
pub mod Setup
pub mod Define
pub mod Predefined
pub mod Expand
pub mod Conditionals
pub mod Condition
pub mod Include
pub mod Process
pub mod Output
use tensorium_cc.Prelude.{Bool, List, Bytes}
use tensorium_cc.Location.{SourceLoc}

pub data PpTokenKind : Type 0 where
  identifier number string character header punct other newline : PpTokenKind

pub record PpToken : Type 0 where
  pub kind : PpTokenKind
  pub text : Bytes
  pub loc : SourceLoc
  pub leading_space : Bool
  pub spelling_locations : List SourceLoc
  pub hide_set : List Bytes
  pub original_spelling : Bytes
  pub expansion_loc : SourceLoc
