-- ===== src/Build/Decoder.antt =====
-- src/istream.rs: the decoder of a build with 64-bit values that leaves some of the wire's constructs
-- out, by the constructs that it has. A field or a state that the build does not have keeps its initial value.
use corelib_rs_no_std.Common.{
  ℕ, zero, suc, ◌+◌, ◌*◌, ◌==◌, ltb, if◌then◌else◌, not, ◌&&◌, ◌||◌, bit_and, length, drop, Bool,
  true, List, [], ◌∷◌, Option, none, some,
}
use corelib_rs_no_std.Common.Word.{shr}
use corelib_rs_no_std.Error.{Result, ok, err, invalid_msg}
use corelib_rs_no_std.Types.{
  FixlenType, from_raw, id_max, t_fixlen, t_varintarray_unsigned, t_varintarray_signed,
  t_fixlenarray, t_sequence_start, t_sequence_end,
}
use corelib_rs_no_std.IStream.State.{State, IStream, Turn, is_invalid, is_fixlen_val, is_fixlen_raw}
use corelib_rs_no_std.IStream.Push.{push}
use corelib_rs_no_std.IStream.Step.{
  quiet, reject, on_wire_type, on_subtype, step_fixlen_val, dispatch,
}
use corelib_rs_no_std.IStream.Feed.{drain_raw, after, carry_on, finish}
use corelib_rs_no_std.IStream.Deliver.{Outcome}
use corelib_rs_no_std.Build.{Wire}

-- The arms of `on_header` that are compiled in; the scalar integers always are.
unfoldable pub compiled : Wire → ℕ → Bool
compiled c wire_type =
    if wire_type == t_fixlen
    then c.fixlen
    else if wire_type == t_varintarray_unsigned || wire_type == t_varintarray_signed
    then c.array
    else if wire_type == t_fixlenarray
    then c.array && c.fixlen
    else if wire_type == t_sequence_start || wire_type == t_sequence_end
    then c.sequence
    else true

-- Any other wire type meets the last arm.
unfoldable pub on_wire_type_in : Wire → ℕ → IStream → Turn
unfolding compiled on_wire_type
on_wire_type_in c wire_type s = if compiled c wire_type then on_wire_type wire_type s else reject s

unfoldable pub on_header_in : Wire → IStream → ℕ → Turn
unfolding on_wire_type_in
on_header_in c s header =
    let wire_type = bit_and header 0x07 in
    let id = shr header 3 in
    if ltb id_max id then reject s else on_wire_type_in c wire_type (record s { id = id })

-- `from_raw`, whose arm for `fp64` is compiled in with it.
unfoldable pub from_raw_in : Wire → ℕ → Result FixlenType
unfolding from_raw
from_raw_in c raw = if raw == 1 && not c.fp64 then err invalid_msg else from_raw raw

unfoldable pub on_fixlen_len_in : Wire → IStream → ℕ → Turn
unfolding from_raw_in on_subtype
on_fixlen_len_in c s header = on_subtype (from_raw_in c (bit_and header 0x07)) (shr header 3) s

unfoldable pub dispatch_in : Wire → State → IStream → ℕ → Turn
unfolding on_header_in on_fixlen_len_in dispatch
dispatch_in c State.idle s value = on_header_in c s value
dispatch_in c State.fixlen_len s value = on_fixlen_len_in c s value
dispatch_in c State.fixlen_array_len s value = on_fixlen_len_in c s value
dispatch_in c st s value = dispatch st s value

unfoldable pub step_in : Wire → IStream → ℕ → Turn
unfolding step_fixlen_val push dispatch_in
step_in c s byte =
    let (value, core) = push s.core byte in
    let s' = record s { core = core } in
    if is_fixlen_val s.core.state
    then step_fixlen_val s byte
    else if not (core.shift == 0)
    then quiet s'
    else dispatch_in c core.state s' value

unfoldable pub feed_loop_in : Wire → ℕ → IStream → List ℕ → Option Turn
unfolding drain_raw step_in
feed_loop_in c fuel s [] = some (ok tt, s, [])
feed_loop_in c zero s (b ∷ bs) = none
feed_loop_in c (suc fuel) s (b ∷ bs) =
    let (count, event, drained) = drain_raw s (b ∷ bs) in
    let bulk = after (event ∷ []) (feed_loop_in c fuel drained (drop count (b ∷ bs))) in
    let one = carry_on (step_in c s b) (λ s'. feed_loop_in c fuel s' bs) in
    if is_fixlen_raw s.core.state then bulk else one

-- `IStream::feed`, of this build.
unfoldable pub feed_in : Wire → IStream → List ℕ → Option Outcome
unfolding feed_loop_in
feed_in c s bytes =
    if is_invalid s.core.state
    then some (err invalid_msg, s, [])
    else finish (feed_loop_in c (2 * length bytes + 1) s bytes)
