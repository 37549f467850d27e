-- ===== src/IStream/Word.antt =====
-- src/istream.rs: one byte of a varint, at the level of the whole decoder.
use corelib_rs_no_std.Common.{
  ℕ, ◌+◌, ◌*◌, ◌%◌, ◌^◌, ◌<◌, ◌≡◌, ◌≢◌, arith, ltb, leb, ◌==◌, if◌then◌else◌, ◌&&◌,
}
use corelib_rs_no_std.IStream.State.{State, IStream}
use corelib_rs_no_std.IStream.Push.{reset_varint}
use corelib_rs_no_std.IStream.Step.{step, dispatch, quiet, reject}
use corelib_rs_no_std.IStream.Digit.{InVarint, push_lem}

-- The decoder between two words.
abbrev pub at_word : IStream → IStream
at_word s = record s { core = reset_varint s.core }

-- A step in the midst of a varint: the overlong byte, the last byte, and any other.
pub step_lem :
    (s : IStream) (b : ℕ)
    → InVarint s.core
    → s.core.state ≢ State.fixlen_val
    → b < 256
    → step s b ≡ (
        if s.core.shift == 63 && leb 2 b
        then reject (record s { core = record s.core { shift = 0; state = State.invalid } })
        else let v = s.core.acc + b % 128 * 2 ^ s.core.shift in
          if ltb b 128
          then dispatch s.core.state (at_word s) v
          else quiet (record s { core = record s.core { acc = v; shift = s.core.shift + 7 } }))
unfolding step
step_lem s b v ne h = ground (arith, push_lem s.core b v h)
