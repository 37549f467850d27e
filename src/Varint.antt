-- ===== src/Varint.antt =====
-- src/varint.rs: the ZigZag map between signed and unsigned values. A `Signed` is its bit pattern.
pub mod ZigZag
pub mod Groups
mod Tests
use corelib_rs_no_std.Common.{ℕ, ◌-◌, ◌%◌, ◌^◌, bit_and, bit_xor, ltb, if◌then◌else◌}
use corelib_rs_no_std.Common.Word.{shr, shl64}

-- `v >> (Signed::BITS - 1)` on an `i64`: the sign bit in every place.
abbrev pub sign_mask : ℕ → ℕ
sign_mask v = if ltb v (2 ^ 63) then 0 else 2 ^ 64 - 1

-- `-x` on an `i64`.
abbrev pub neg64 : ℕ → ℕ
neg64 x = (2 ^ 64 - x) % 2 ^ 64

unfoldable pub zigzag_encode : ℕ → ℕ
zigzag_encode v = bit_xor (shl64 v 1) (sign_mask v)

unfoldable pub zigzag_decode : ℕ → ℕ
zigzag_decode u = bit_xor (shr u 1) (neg64 (bit_and u 1))
