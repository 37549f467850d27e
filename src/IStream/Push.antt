-- ===== src/IStream/Push.antt =====
-- src/istream.rs: `Core::push`, which feeds one byte into the varint being decoded.
use corelib_rs_no_std.Common.{ℕ, ◌==◌, ltb, if◌then◌else◌, not, ◌&&◌, ◌||◌, bit_and, bit_or}
use corelib_rs_no_std.Common.Word.{shr, shl64, shl32, add_u8, sub_u32}
use corelib_rs_no_std.Types.{value_bits}
use corelib_rs_no_std.IStream.State.{State, Core}

-- `payload << shift`, on a target with 64-bit pointers.
unfoldable pub payload_at : ℕ → ℕ → ℕ
payload_at payload shift = shl64 payload shift

-- The same on a 32-bit target, from two 32-bit halves.
unfoldable pub payload_at_halves : ℕ → ℕ → ℕ
payload_at_halves p shift =
    if ltb shift 32
    then bit_or (shl64 (shr (shr p 1) (sub_u32 31 shift)) 32) (shl32 p shift)
    else shl64 (shl32 p (sub_u32 shift 32)) 32

abbrev pub reset_varint : Core → Core
reset_varint c = record c { acc = 0; shift = 0 }

-- The value read so far, and the new state.
unfoldable pub push : Core → ℕ → ℕ × Core
unfolding payload_at
push c byte =
    let shift = c.shift in
    let room = sub_u32 value_bits shift in
    let grown = record c {
      acc = bit_or c.acc (payload_at (bit_and byte 0x7f) shift);
      shift = add_u8 shift 7;
    } in
    if ltb room 7 && (not (bit_and byte 0x80 == 0) || not (shr (bit_and byte 0x7f) room == 0))
    then (0, record c { shift = 0; state = State.invalid })
    else (grown.acc, if bit_and byte 0x80 == 0 then reset_varint grown else grown)
