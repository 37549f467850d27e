-- ===== src/Varint/Tests.antt =====
-- ZigZag of `-7`.
use corelib_rs_no_std.Common.{◌≡◌, ◌-◌, ◌^◌, ◌<◌, arith}
use corelib_rs_no_std.Common.Int.{signed64}
use corelib_rs_no_std.Varint.{zigzag_encode, zigzag_decode}
use corelib_rs_no_std.Varint.ZigZag.{zigzag, zigzag_encode_lem, zigzag_inverse}

zigzag_encode_lem_example :
    (zigzag_encode (2 ^ 64 - 7) ≡ zigzag (signed64 (2 ^ 64 - 7)))
    × (zigzag_encode (2 ^ 64 - 7) < 2 ^ 64)
zigzag_encode_lem_example = zigzag_encode_lem (2 ^ 64 - 7) (omega arith)

zigzag_inverse_example :
    (zigzag_decode (zigzag_encode (2 ^ 64 - 7)) ≡ 2 ^ 64 - 7)
    × (zigzag_encode (zigzag_decode (2 ^ 64 - 7)) ≡ 2 ^ 64 - 7)
zigzag_inverse_example = zigzag_inverse (2 ^ 64 - 7) (omega arith)
