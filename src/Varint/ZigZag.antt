-- ===== src/Varint/ZigZag.antt =====
-- ZigZag against its arithmetic description, and that the two maps are inverse bijections.
use corelib_rs_no_std.Common.{ℕ, ◌+◌, ◌-◌, ◌*◌, ◌/◌, ◌%◌, ◌^◌, ◌<◌, ◌≡◌, arith, ltb, if◌then◌else◌}
use corelib_rs_no_std.Common.Bits.{and_one, xor-zero, xor_ones}
use corelib_rs_no_std.Common.Int.{ℤ, pos, negsuc, signed64}
use corelib_rs_no_std.Varint.{zigzag_encode, zigzag_decode}

-- The unsigned value of an integer: 0, -1, 1, -2, … become 0, 1, 2, 3, …
abbrev pub zigzag : ℤ → ℕ
zigzag (pos n) = 2 * n
zigzag (negsuc n) = 2 * n + 1

pub encode_parts :
    (v : ℕ)
    → v < 2 ^ 64
    → zigzag_encode v ≡ (if ltb v (2 ^ 63) then 2 * v else 2 ^ 64 - 1 - (2 * v - 2 ^ 64))
unfolding zigzag_encode
encode_parts v h = ground (arith, xor-zero (v * 2 % 2 ^ 64), xor_ones 64 (v * 2 % 2 ^ 64))

pub decode_parts :
    (u : ℕ) → u < 2 ^ 64 → zigzag_decode u ≡ (if ltb (u % 2) 1 then u / 2 else 2 ^ 64 - 1 - u / 2)
unfolding zigzag_decode
decode_parts u h = ground (arith, and_one u, xor-zero (u / 2), xor_ones 64 (u / 2))

-- On the bits of every `i64` the encoder computes the ZigZag number of the integer that they stand
-- for, and the result is a `u64`.
pub zigzag_encode_lem :
    (v : ℕ) → v < 2 ^ 64 → (zigzag_encode v ≡ zigzag (signed64 v)) × (zigzag_encode v < 2 ^ 64)
zigzag_encode_lem v h = ground (arith, encode_parts v h)

-- Decoding undoes encoding on every `i64`, and encoding undoes decoding on every `u64`.
pub zigzag_inverse :
    (v : ℕ)
    → v < 2 ^ 64
    → (zigzag_decode (zigzag_encode v) ≡ v) × (zigzag_encode (zigzag_decode v) ≡ v)
zigzag_inverse v h = ground (
  arith,
  encode_parts v h,
  decode_parts v h,
  decode_parts (zigzag_encode v),
  encode_parts (zigzag_decode v),
)
