-- ===== src/IStream/Bytewise.antt =====
-- src/istream.rs: the decoder as its documentation states it, one byte at a time and one callback
-- for each payload byte. `feed` is compared with it.
use corelib_rs_no_std.Common.{ℕ, ◌+◌, ◌==◌, if◌then◌else◌, List, [], ◌∷◌, ◌++◌, Option, none, some}
use corelib_rs_no_std.Common.Word.{sub_usize}
use corelib_rs_no_std.Error.{ok, err, invalid_msg}
use corelib_rs_no_std.IStream.State.{
  State, IStream, Event, Turn, set_state, is_invalid, is_fixlen_raw,
}
use corelib_rs_no_std.IStream.Step.{step, payload_chunk, reject}
use corelib_rs_no_std.IStream.Feed.{latch}

-- The decoder after `n` more payload bytes.
abbrev pub raw_advance : IStream → ℕ → IStream
raw_advance s n =
    let left = sub_usize s.fixlen_remaining n in
    let s' = record s { fixlen_remaining = left } in
    if left == 0 then set_state s' State.idle else s'

abbrev pub latched : Turn → Turn
latched (ok u, s, events) = (ok u, s, events)
latched (err e, s, events) = (err invalid_msg, latch s, events)

unfoldable pub byte_step : IStream → ℕ → Turn
byte_step s b =
    if is_invalid s.core.state
    then reject s
    else if is_fixlen_raw s.core.state
    then (
      ok tt,
      raw_advance s 1,
      payload_chunk s (sub_usize s.fixlen_total s.fixlen_remaining) (b ∷ []) ∷ [],
    )
    else latched (step s b)

-- Then go on, unless the bytes so far were malformed.
abbrev pub and_then : Turn → (IStream → Turn) → Turn
and_then (ok u, s, events) k = let (r, s', more) = k s in (r, s', events ++ more)
and_then (err e, s, events) k = (err e, s, events)

unfoldable pub run : IStream → List ℕ → Turn
run s [] = (ok tt, s, [])
run s (b ∷ bs) = and_then (byte_step s b) (λ s'. run s' bs)

-- The calls for a chunk, byte by byte. Only the empty payload has an empty chunk.
unfoldable pub per_byte : (ℕ → List ℕ → Event) → ℕ → List ℕ → List Event
per_byte f offset [] = []
per_byte f offset (b ∷ bs) = f offset (b ∷ []) ∷ per_byte f (offset + 1) bs

abbrev pub expand : Event → List Event
expand (Event.string id total offset (b ∷ bs)) = per_byte (Event.string id total) offset (b ∷ bs)
expand (Event.blob id total offset (b ∷ bs)) = per_byte (Event.blob id total) offset (b ∷ bs)
expand e = e ∷ []

abbrev pub expand_all : List Event → List Event
expand_all [] = []
expand_all (e ∷ es) = expand e ++ expand_all es

abbrev pub expand_turn : Option Turn → Option Turn
expand_turn none = none
expand_turn (some (r, s, events)) = some (r, s, expand_all events)
