-- ===== src/Types.antt =====
-- src/types.rs: wire constants and tags, in the default build (every wire feature on, 64-bit
-- values). An `Id` is a number below 2 ^ 32, an `Unsigned` a number below 2 ^ 64, and a `Signed` the
-- bit pattern of an `i64`, below 2 ^ 64 too.
use corelib_rs_no_std.Common.{ℕ, ◌-◌, ◌^◌, ◌==◌, ltb, if◌then◌else◌}
use corelib_rs_no_std.Common.Word.{shr}
use corelib_rs_no_std.Error.{Result, ok, err, invalid_msg}

abbrev pub value_bits : ℕ
value_bits = 64

abbrev pub unsigned_max : ℕ
unsigned_max = 2 ^ 64 - 1

abbrev pub i32_max : ℕ
i32_max = 2 ^ 31 - 1

-- The largest field id: what leaves room for the 3 type bits, or the ceiling of the format.
abbrev pub id_max : ℕ
id_max =
    let by_width : ℕ = shr unsigned_max 3 in
    let by_format : ℕ = i32_max in if ltb by_width by_format then by_width else by_format

abbrev pub max_depth : ℕ
max_depth = 255

abbrev pub array_max : ℕ
array_max = i32_max

-- The 3-bit wire types of a field header.
abbrev pub t_varint_unsigned : ℕ
t_varint_unsigned = 0

abbrev pub t_varint_signed : ℕ
t_varint_signed = 1

abbrev pub t_fixlen : ℕ
t_fixlen = 2

abbrev pub t_varintarray_unsigned : ℕ
t_varintarray_unsigned = 3

abbrev pub t_varintarray_signed : ℕ
t_varintarray_signed = 4

abbrev pub t_fixlenarray : ℕ
t_fixlenarray = 5

abbrev pub t_sequence_start : ℕ
t_sequence_start = 6

abbrev pub t_sequence_end : ℕ
t_sequence_end = 7

pub data FixlenType : Type 0 where
  fp32 fp64 str blob : FixlenType

-- `subtype as Unsigned`: the discriminant.
abbrev pub raw_of : FixlenType → ℕ
raw_of FixlenType.fp32 = 0
raw_of FixlenType.fp64 = 1
raw_of FixlenType.str = 2
raw_of FixlenType.blob = 3

unfoldable pub from_raw : ℕ → Result FixlenType
from_raw raw =
    if raw == 0
    then ok FixlenType.fp32
    else if raw == 1
    then ok FixlenType.fp64
    else if raw == 2
    then ok FixlenType.str
    else if raw == 3
    then ok FixlenType.blob
    else err invalid_msg

pub data ArrayKind : Type 0 where
  unsigned signed fp32 fp64 : ArrayKind
