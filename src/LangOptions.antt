-- ===== src/LangOptions.antt =====
-- include/cc1/Basic/LangOptions.hpp.
use tensorium_cc.Prelude.{Bool, true, false}

pub data Standard : Type 0 where
  c89 c99 c11 c17 : Standard

pub record LangOptions : Type 0 where
  pub std : Standard
  pub allow_line_comments : Bool
  pub allow_vla : Bool
  pub allow_designated_init : Bool
  pub allow_bool : Bool
  pub allow_inline : Bool
  pub allow_restrict : Bool

-- The members' initializers, in a standard and with or without line comments.
abbrev defaults : Standard → Bool → LangOptions
defaults std comments = record {
  std = std;
  allow_line_comments = comments;
  allow_vla = false;
  allow_designated_init = false;
  allow_bool = false;
  allow_inline = false;
  allow_restrict = false;
}

abbrev pub for_c89 : LangOptions
for_c89 = defaults c89 false

abbrev pub for_c99 : LangOptions
for_c99 = record (defaults c99 true) {
  allow_vla = true;
  allow_designated_init = true;
  allow_bool = true;
  allow_inline = true;
  allow_restrict = true;
}

abbrev pub is_c89 : Standard → Bool
is_c89 c89 = true
is_c89 _ = false
