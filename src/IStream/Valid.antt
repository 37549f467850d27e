-- ===== src/IStream/Valid.antt =====
-- src/istream.rs: the decoder's invariant, state by state.
use corelib_rs_no_std.Common.{◌%◌, ◌^◌, ◌≤◌, ◌<◌, ◌≡◌, ◌≢◌, arith}
use corelib_rs_no_std.Types.{ArrayKind, id_max, max_depth, array_max}
use corelib_rs_no_std.IStream.State.{State, IStream, new}
use corelib_rs_no_std.IStream.Step.{width_of}

-- A varint is being read: the accumulator holds its bytes so far.
abbrev pub ReadsVarint : IStream → Type 0
ReadsVarint s = s.core.acc < 2 ^ s.core.shift

-- What a state promises of the fields that it reads.
abbrev pub InState : State → IStream → Type 0
InState State.idle s = ReadsVarint s × (s.array_remaining ≡ 0)
InState State.invalid s = Unit
InState State.varint_unsigned s = ReadsVarint s
InState State.varint_signed s = ReadsVarint s
InState State.fixlen_len s = ReadsVarint s × (s.array_remaining ≡ 0)
InState State.array_count s =
    ReadsVarint s × (s.array_remaining ≡ 0) × (s.core.array_kind ≢ ArrayKind.fp64)
InState State.fixlen_array_len s = ReadsVarint s
InState State.fixlen_val s =
    (s.core.shift ≡ 0) × (0 < s.fixlen_remaining) × (width_of s.core.fixlen_type ≡ s.fixlen_total)
InState State.fixlen_raw s =
    (s.core.shift ≡ 0)
    × (s.core.acc ≡ 0)
    × (0 < s.fixlen_remaining)
    × (width_of s.core.fixlen_type ≡ 0)
    × (s.array_remaining ≡ 0)

pub record IsValid (s : IStream) : Type 0 where
  pub sevens : s.core.shift % 7 ≡ 0
  pub short : s.core.shift ≤ 63
  pub wide : s.core.acc < 2 ^ 64
  pub nested : s.core.depth ≤ max_depth
  pub identified : s.id ≤ id_max
  pub counted : s.array_remaining ≤ array_max
  pub announced : s.fixlen_total ≤ array_max
  pub owed : s.fixlen_remaining ≤ s.fixlen_total
  pub promised : InState s.core.state s

-- A fresh decoder is valid.
pub new-IsValid : IsValid new
new-IsValid = omega arith
