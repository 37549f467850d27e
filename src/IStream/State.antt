-- ===== src/IStream/State.antt =====
-- src/istream.rs: the decoder's state, its outcome, and what it tells the visitor. Floats are their
-- IEEE bit patterns. `Visitor`'s callbacks return nothing, so a visitor is told the events and
-- cannot steer the decoder: the model records the calls, in order.
use corelib_rs_no_std.Common.{ℕ, Bool, true, false, List}
use corelib_rs_no_std.Error.{Result, Nothing}
use corelib_rs_no_std.Types.{FixlenType, ArrayKind}

pub data Status : Type 0 where
  complete incomplete : Status

-- The callbacks of `Visitor`, with their arguments.
pub data Event : Type 0 where
  unsigned : ℕ → ℕ → Event
  signed : ℕ → ℕ → Event
  fp32 : ℕ → ℕ → Event
  fp64 : ℕ → ℕ → Event
  string : ℕ → ℕ → ℕ → List ℕ → Event
  blob : ℕ → ℕ → ℕ → List ℕ → Event
  fixlen_begin : ℕ → FixlenType → ℕ → Event
  array_begin : ℕ → ArrayKind → ℕ → Event
  sequence_begin : ℕ → Event
  sequence_end : Event

pub data State : Type 0 where
  idle invalid varint_unsigned varint_signed fixlen_len fixlen_val fixlen_raw array_count : State
  fixlen_array_len : State

-- `state == State::…`, for the states that the code tests for.
abbrev pub is_idle : State → Bool
is_idle State.idle = true
is_idle _ = false

abbrev pub is_invalid : State → Bool
is_invalid State.invalid = true
is_invalid _ = false

abbrev pub is_fixlen_val : State → Bool
is_fixlen_val State.fixlen_val = true
is_fixlen_val _ = false

abbrev pub is_fixlen_raw : State → Bool
is_fixlen_raw State.fixlen_raw = true
is_fixlen_raw _ = false

abbrev pub is_fixlen_array_len : State → Bool
is_fixlen_array_len State.fixlen_array_len = true
is_fixlen_array_len _ = false

pub record Core : Type 0 where
  pub acc : ℕ
  pub shift : ℕ
  pub state : State
  pub array_kind : ArrayKind
  pub fixlen_type : FixlenType
  pub depth : ℕ

pub record IStream : Type 0 where
  pub core : Core
  pub id : ℕ
  pub array_remaining : ℕ
  pub fixlen_total : ℕ
  pub fixlen_remaining : ℕ

-- `IStream::new`
abbrev pub new : IStream
new = record {
  core = record {
    acc = 0;
    shift = 0;
    state = State.idle;
    array_kind = ArrayKind.unsigned;
    fixlen_type = FixlenType.blob;
    depth = 0;
  };
  id = 0;
  array_remaining = 0;
  fixlen_total = 0;
  fixlen_remaining = 0;
}

-- `self.core.state = state`
abbrev pub set_state : IStream → State → IStream
set_state s st = record s { core = record s.core { state = st } }

-- What one call leaves behind: its result, the decoder, and the visitor's calls.
abbrev pub Turn : Type 0
Turn = Result Nothing × IStream × List Event
