-- ===== src/Sema/Target.antt =====
-- include/cc1/Basic/TargetInfo.hpp and lib/Basic/TargetInfo.cpp.
use tensorium_cc.Prelude.{ℕ, String}

pub data Arch : Type 0 where
  i386 : Arch
  x86_64 : Arch
  aarch64 : Arch

pub record TargetInfo : Type 0 where
  pub arch : Arch
  pub sizeof_short : ℕ
  pub sizeof_int : ℕ
  pub sizeof_long : ℕ
  pub sizeof_longlong : ℕ
  pub sizeof_pointer : ℕ
  pub sizeof_float : ℕ
  pub sizeof_double : ℕ
  pub max_align : ℕ
  pub datalayout : String
  pub triple : String

-- `TargetInfo::i386`, `TargetInfo::x86_64` and `TargetInfo::aarch64`.
abbrev pub target_info : Arch → TargetInfo
target_info Arch.i386 = record {
  arch = Arch.i386;
  sizeof_short = 2;
  sizeof_int = 4;
  sizeof_long = 4;
  sizeof_longlong = 8;
  sizeof_pointer = 4;
  sizeof_float = 4;
  sizeof_double = 8;
  max_align = 4;
  datalayout = "e-m:e-p:32:32-i64:64-f80:32-n8:16:32-S32";
  triple = "i386-pc-linux-gnu";
}
target_info Arch.x86_64 = record {
  arch = Arch.x86_64;
  sizeof_short = 2;
  sizeof_int = 4;
  sizeof_long = 8;
  sizeof_longlong = 8;
  sizeof_pointer = 8;
  sizeof_float = 4;
  sizeof_double = 8;
  max_align = 16;
  datalayout = "e-m:e-p270:32:32-p271:32:32-p272:64:64-i64:64-f80:128-n8:16:32:64-S128";
  triple = "x86_64-pc-linux-gnu";
}
target_info Arch.aarch64 = record {
  arch = Arch.aarch64;
  sizeof_short = 2;
  sizeof_int = 4;
  sizeof_long = 8;
  sizeof_longlong = 8;
  sizeof_pointer = 8;
  sizeof_float = 4;
  sizeof_double = 8;
  max_align = 16;
  datalayout = "e-m:o-i64:64-i128:128-n32:64-S128";
  triple = "aarch64-apple-macosx13.0.0";
}
