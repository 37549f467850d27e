-- ===== src/IStream/Step.antt =====
-- src/istream.rs: what one byte does to the decoder, handler by handler.
use corelib_rs_no_std.Common.{
  ℕ, ◌%◌, ◌^◌, ◌==◌, ltb, leb, if◌then◌else◌, not, ◌&&◌, bit_and, bit_or, Bool, true, false, List,
  [], ◌∷◌,
}
use corelib_rs_no_std.Common.Word.{shr, shl64, add_u8, sub_u8, sub_usize}
use corelib_rs_no_std.Error.{Result, ok, err, invalid_msg}
use corelib_rs_no_std.Types.{
  FixlenType, ArrayKind, from_raw, id_max, max_depth, array_max, t_varint_unsigned, t_varint_signed,
  t_fixlen, t_varintarray_unsigned, t_varintarray_signed, t_fixlenarray, t_sequence_start,
  t_sequence_end,
}
use corelib_rs_no_std.Varint.{zigzag_decode}
use corelib_rs_no_std.IStream.State.{
  State, IStream, Event, Turn, set_state, is_fixlen_val, is_fixlen_array_len,
}
use corelib_rs_no_std.IStream.Push.{push}

-- `Ok(())`, with no call of the visitor.
abbrev pub quiet : IStream → Turn
quiet s = (ok tt, s, [])

abbrev pub reject : IStream → Turn
reject s = (err invalid_msg, s, [])

-- Which arm a wire type takes.
unfoldable pub on_wire_type : ℕ → IStream → Turn
on_wire_type wire_type s =
    let counting = λ (kind : ArrayKind). record s {
      core = record s.core { array_kind = kind; state = State.array_count };
    } in
    if wire_type == t_varint_unsigned
    then quiet (set_state s State.varint_unsigned)
    else if wire_type == t_varint_signed
    then quiet (set_state s State.varint_signed)
    else if wire_type == t_fixlen
    then quiet (set_state s State.fixlen_len)
    else if wire_type == t_varintarray_unsigned
    then quiet (counting ArrayKind.unsigned)
    else if wire_type == t_varintarray_signed
    then quiet (counting ArrayKind.signed)
    else if wire_type == t_fixlenarray
    then quiet (counting ArrayKind.fp32)
    else if wire_type == t_sequence_start
    then (if leb max_depth s.core.depth then reject s else (
      ok tt,
      record s { core = record s.core { depth = add_u8 s.core.depth 1 } },
      Event.sequence_begin s.id ∷ [],
    ))
    else if wire_type == t_sequence_end
    then (if s.core.depth == 0 then reject s else (
      ok tt,
      record s { core = record s.core { depth = sub_u8 s.core.depth 1 } },
      Event.sequence_end ∷ [],
    ))
    else reject s

unfoldable pub on_header : IStream → ℕ → Turn
unfolding on_wire_type
on_header s header =
    let wire_type = bit_and header 0x07 in
    let id = shr header 3 in
    if ltb id_max id then reject s else on_wire_type wire_type (record s { id = id })

-- True when another array element follows.
unfoldable pub advance_after_element : IStream → Bool × IStream
advance_after_element s =
    if s.array_remaining == 0
    then (false, set_state s State.idle)
    else (let left = sub_usize s.array_remaining 1 in
        let s' = record s { array_remaining = left } in
        if left == 0 then (false, set_state s' State.idle) else (true, s'))

is_blob : FixlenType → Bool
is_blob FixlenType.blob = true
is_blob _ = false

unfoldable pub payload_chunk : IStream → ℕ → List ℕ → Event
unfolding is_blob
payload_chunk s offset chunk =
    if is_blob s.core.fixlen_type
    then Event.blob s.id s.fixlen_total offset chunk
    else Event.string s.id s.fixlen_total offset chunk

-- The payload width of a float, and 0 for the subtypes of any length.
abbrev pub width_of : FixlenType → ℕ
width_of FixlenType.fp32 = 4
width_of FixlenType.fp64 = 8
width_of FixlenType.str = 0
width_of FixlenType.blob = 0

-- The `fixlen_word` of an array.
unfoldable pub on_array_word : FixlenType → ℕ → IStream → Turn
on_array_word subtype length s =
    let width = width_of subtype in
    let legal_float = not (width == 0) && (length == width) in
    let kind = if width == 4 then ArrayKind.fp32 else ArrayKind.fp64 in
    if not legal_float then reject s else (
      ok tt,
      set_state s (if s.array_remaining == 0 then State.idle else State.fixlen_val),
      Event.array_begin s.id kind s.array_remaining ∷ [],
    )

-- The length word of a scalar field.
unfoldable pub on_scalar_word : FixlenType → ℕ → IStream → Turn
unfolding payload_chunk
on_scalar_word subtype length s =
    let width = width_of subtype in
    let legal_float = not (width == 0) && (length == width) in
    let begin = Event.fixlen_begin s.id subtype length in
    if not (width == 0) && not legal_float
    then reject s
    else if not (width == 0)
    then (ok tt, set_state s State.fixlen_val, begin ∷ [])
    else if length == 0
    then (ok tt, set_state s State.idle, begin ∷ payload_chunk s 0 [] ∷ [])
    else (ok tt, set_state s State.fixlen_raw, begin ∷ [])

-- After the subtype is known: the limit on the length, the stores, then the array or the scalar.
unfoldable pub on_fixlen_type : FixlenType → ℕ → IStream → Turn
unfolding on_array_word on_scalar_word
on_fixlen_type subtype length s =
    let s' = record s {
      core = record s.core { fixlen_type = subtype };
      fixlen_total = length;
      fixlen_remaining = length;
    } in
    if ltb array_max length
    then reject s
    else if is_fixlen_array_len s.core.state
    then on_array_word subtype length s'
    else on_scalar_word subtype length s'

-- The `?` behind `from_raw`.
unfoldable pub on_subtype : Result FixlenType → ℕ → IStream → Turn
unfolding on_fixlen_type
on_subtype (ok subtype) length s = on_fixlen_type subtype length s
on_subtype (err e) length s = (err e, s, [])

unfoldable pub on_fixlen_len : IStream → ℕ → Turn
unfolding from_raw on_subtype
on_fixlen_len s header = on_subtype (from_raw (bit_and header 0x07)) (shr header 3) s

abbrev pub is_fp32_kind : ArrayKind → Bool
is_fp32_kind ArrayKind.fp32 = true
is_fp32_kind _ = false

abbrev pub is_signed_kind : ArrayKind → Bool
is_signed_kind ArrayKind.signed = true
is_signed_kind _ = false

unfoldable pub on_array_count : IStream → ℕ → Turn
on_array_count s count =
    let begin = Event.array_begin s.id s.core.array_kind count in
    let counted = record s { array_remaining = count } in
    if ltb array_max count
    then reject s
    else if is_fp32_kind s.core.array_kind
    then quiet (set_state counted State.fixlen_array_len)
    else if count == 0
    then (ok tt, set_state s State.idle, begin ∷ [])
    else (
      ok tt,
      set_state counted
          (if is_signed_kind s.core.array_kind then State.varint_signed else State.varint_unsigned),
      begin ∷ [],
    )

unfoldable pub float_push : IStream → ℕ → IStream
float_push s byte = record s {
  core = record s.core { acc = bit_or (shr s.core.acc 8) (shl64 byte 56) };
}

-- `float_take_f32` and `float_take_f64`: the bits, and the decoder with its accumulator cleared.
abbrev pub float_take_f32 : IStream → ℕ × IStream
float_take_f32 s = (shr s.core.acc 32 % 2 ^ 32, record s { core = record s.core { acc = 0 } })

abbrev pub float_take_f64 : IStream → ℕ × IStream
float_take_f64 s = (s.core.acc, record s { core = record s.core { acc = 0 } })

-- The event of a finished float, and the decoder that took it.
abbrev pub take_float : FixlenType → IStream → Event × IStream
take_float FixlenType.fp64 s = let (v, s') = float_take_f64 s in (Event.fp64 s.id v, s')
take_float _ s = let (v, s') = float_take_f32 s in (Event.fp32 s.id v, s')

unfoldable pub step_fixlen_val : IStream → ℕ → Turn
unfolding float_push advance_after_element
step_fixlen_val s byte =
    let s₁ = float_push s byte in
    let left = sub_usize s₁.fixlen_remaining 1 in
    let s₂ = record s₁ { fixlen_remaining = left } in
    let (event, s₃) = take_float s₂.core.fixlen_type s₂ in
    let (more, s₄) = advance_after_element s₃ in
    if not (left == 0)
    then quiet s₂
    else (ok tt, if more then record s₄ { fixlen_remaining = s₄.fixlen_total } else s₄, event ∷ [])

-- A finished varint, by the state that it was read in.
unfoldable pub dispatch : State → IStream → ℕ → Turn
unfolding on_header on_fixlen_len on_array_count advance_after_element
dispatch State.idle s value = on_header s value
dispatch State.varint_unsigned s value =
    (ok tt, (advance_after_element s).1, Event.unsigned s.id value ∷ [])
dispatch State.varint_signed s value =
    (ok tt, (advance_after_element s).1, Event.signed s.id (zigzag_decode value) ∷ [])
dispatch State.fixlen_len s value = on_fixlen_len s value
dispatch State.fixlen_array_len s value = on_fixlen_len s value
dispatch State.array_count s value = on_array_count s value
dispatch State.invalid s value = reject s
dispatch State.fixlen_val s value = quiet s
dispatch State.fixlen_raw s value = quiet s

unfoldable pub step : IStream → ℕ → Turn
unfolding step_fixlen_val push dispatch
step s byte =
    let (value, core) = push s.core byte in
    let s' = record s { core = core } in
    if is_fixlen_val s.core.state
    then step_fixlen_val s byte
    else if not (core.shift == 0)
    then quiet s'
    else dispatch core.state s' value
