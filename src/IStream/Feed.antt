-- ===== src/IStream/Feed.antt =====
-- src/istream.rs: `IStream::feed`, the loop over a chunk of input.
use corelib_rs_no_std.Common.{
  ℕ, zero, suc, ◌+◌, ◌*◌, ◌==◌, if◌then◌else◌, not, ◌||◌, min, length, drop, take, Bool, true,
  false, List, [], ◌∷◌, ◌++◌, Option, none, some,
}
use corelib_rs_no_std.Common.Word.{sub_usize}
use corelib_rs_no_std.Error.{Result, ok, err, invalid_msg}
use corelib_rs_no_std.IStream.State.{
  State, IStream, Event, Status, Turn, complete, incomplete, set_state, is_idle, is_invalid,
  is_fixlen_raw,
}
use corelib_rs_no_std.IStream.Step.{step, payload_chunk}

-- The latched decoder; the error that goes with it is always `invalid_msg`.
abbrev pub latch : IStream → IStream
latch s = set_state s State.invalid

abbrev pub at_field_boundary : IStream → Bool
at_field_boundary s =
    if not (is_idle s.core.state) || not (s.core.shift == 0)
    then false
    else if not (s.core.depth == 0)
    then false
    else true

-- One round of the bulk path: the bytes taken from `rest`, the event, and the decoder after it.
unfoldable pub drain_raw : IStream → List ℕ → ℕ × Event × IStream
unfolding payload_chunk
drain_raw s rest =
    let count = min (length rest) s.fixlen_remaining in
    let offset = sub_usize s.fixlen_total s.fixlen_remaining in
    let left = sub_usize s.fixlen_remaining count in
    let s' = record s { fixlen_remaining = left } in
    (
      count,
      payload_chunk s offset (take count rest),
      if left == 0 then set_state s' State.idle else s',
    )

-- Put earlier calls of the visitor in front.
abbrev pub after : List Event → Option Turn → Option Turn
after events none = none
after events (some (r, s, more)) = some (r, s, events ++ more)

-- Behind a step: the next byte, or the latched error.
abbrev pub carry_on : Turn → (IStream → Option Turn) → Option Turn
carry_on (ok u, s, events) k = after events (k s)
carry_on (err e, s, events) k = some (err invalid_msg, latch s, events)

-- The loop, over the input from index `i` on. `none` means that the fuel ran out.
unfoldable pub feed_loop : ℕ → IStream → List ℕ → Option Turn
unfolding drain_raw step
feed_loop fuel s [] = some (ok tt, s, [])
feed_loop zero s (b ∷ bs) = none
feed_loop (suc fuel) s (b ∷ bs) =
    let (count, event, drained) = drain_raw s (b ∷ bs) in
    let bulk = after (event ∷ []) (feed_loop fuel drained (drop count (b ∷ bs))) in
    let one = carry_on (step s b) (λ s'. feed_loop fuel s' bs) in
    if is_fixlen_raw s.core.state then bulk else one

abbrev pub verdict : IStream → Status
verdict s = if at_field_boundary s then complete else incomplete

abbrev pub finish : Option Turn → Option (Result Status × IStream × List Event)
finish none = none
finish (some (ok _, s, events)) = some (ok (verdict s), s, events)
finish (some (err e, s, events)) = some (err e, s, events)

-- Each round takes a byte or leaves `fixlen_raw`, so twice the length is fuel enough.
unfoldable pub feed : IStream → List ℕ → Option (Result Status × IStream × List Event)
unfolding feed_loop
feed s bytes =
    if is_invalid s.core.state
    then some (err invalid_msg, s, [])
    else finish (feed_loop (2 * length bytes + 1) s bytes)
