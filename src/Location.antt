-- ===== src/Location.antt =====
-- include/cc1/Basic/SourceLocation.hpp. A location with no file name is one that nothing has set.
use tensorium_cc.Prelude.{ℕ, ◌+◌, ◌%◌, ◌^◌, String, Option, none}

pub record SourceLoc : Type 0 where
  pub filename : Option String
  pub line : ℕ
  pub col : ℕ

abbrev pub unset : SourceLoc
unset = record { filename = none; line = 0; col = 0 }

-- `++` on a `uint32_t`.
abbrev pub next_u32 : ℕ → ℕ
next_u32 n = (n + 1) % 2 ^ 32
