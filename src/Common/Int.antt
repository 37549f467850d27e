-- ===== src/Common/Int.antt =====
-- Signed integers over the native numbers, and the integer that a 64-bit pattern stands for.
use Prim.Native.Nat.{ℕ, ◌-◌, ◌^◌}
use corelib_rs_no_std.Common.Tests.{ltb, if◌then◌else◌}

-- `negsuc n` is -(n + 1).
pub data ℤ : Type 0 where
  pos : ℕ → ℤ
  negsuc : ℕ → ℤ

-- The value of an `i64` with these bits.
abbrev pub signed64 : ℕ → ℤ
signed64 w = if ltb w (2 ^ 63) then pos w else negsuc (2 ^ 64 - w - 1)
