-- ===== src/OStream/Stream.antt =====
-- src/ostream.rs: the encoder's state, its buffer, and the primitives that push bytes.
use mathlib.Core.WellFounded.{Acc}
use mathlib.Core.Logic.{dite}
use native.Mathlib.Decide.{dec_lt}
use corelib_rs_no_std.Common.{
  ℕ, ◌%◌, ◌^◌, ◌<◌, arith, min, leb, ltb, if◌then◌else◌, not, ◌&&◌, false, List, [], ◌∷◌, length,
  take, set, replicate, Option, none, some, bit_and, bit_or, lt_wf,
}
use corelib_rs_no_std.Common.Word.{shr, add_usize}
use corelib_rs_no_std.Error.{Result, ok, err, Nothing, buffer_full}
use corelib_rs_no_std.OStream.Handover.{Flush, Handoff, check_install}

abbrev pub lazy_seq_depth : ℕ
lazy_seq_depth = 8

-- `env` holds what the fields `flush` and `handoff` own.
pub record OStream (S : Type 0) : Type 0 where
  pub buffer : List ℕ
  pub offset : ℕ
  pub env : S
  pub depth : ℕ
  pub pending : List ℕ
  pub npending : ℕ

-- A method that returns `Result<()>`.
abbrev pub Write : Type 0 → Type 0
Write S = OStream S → Result Nothing × OStream S

abbrev pub and_write :
    {S : Type 0} → Result Nothing × OStream S → Write S → Result Nothing × OStream S
and_write (ok u, s) k = k s
and_write (err e, s) k = (err e, s)

-- `m?; k`
infixl 5 ◌>>◌
abbrev pub ◌>>◌ : {S : Type 0} → Write S → Write S → Write S
◌>>◌ m k s = and_write (m s) k

abbrev pub done : {S : Type 0} → Write S
done s = (ok tt, s)

-- Private constructor of the source, behind the checks of the public ones.
abbrev pub build : {S : Type 0} → List ℕ → ℕ → S → OStream S
build buffer offset env = record {
  buffer = buffer;
  offset = offset;
  env = env;
  depth = 0;
  pending = replicate lazy_seq_depth 0;
  npending = 0;
}

abbrev checked : {S : Type 0} → Result Nothing → OStream S → Result (OStream S)
checked (ok u) s = ok s
checked (err e) s = err e

-- `OStream::new`, with no sink.
unfoldable pub new : List ℕ → OStream Nothing
new buffer = build buffer 0 tt

unfoldable pub with_offset : List ℕ → ℕ → Result (OStream Nothing)
unfolding check_install
with_offset buffer offset =
    checked (check_install (length buffer) offset false) (build buffer offset tt)

-- `with_flush`, and `with_handover` with the channel in `env`.
unfoldable pub with_flush : {S : Type 0} → Flush S → List ℕ → ℕ → S → Result (OStream S)
unfolding check_install
with_flush F buffer offset env =
    checked (check_install (length buffer) offset F.sinks) (build buffer offset env)

abbrev pub bytes_used : {S : Type 0} → OStream S → ℕ
bytes_used s = s.offset

abbrev pub take_over : {S : Type 0} → Handoff S → OStream S → Option (List ℕ × ℕ) × S → OStream S
take_over H s (none, env) = record s { env = env }
take_over H s (some (next, offset), env) = record s {
  buffer = next;
  offset = offset;
  env = H.retire s.buffer env;
}

-- `self.buffer.get_mut(self.offset)`, and the write into the slot.
unfoldable pub store : {S : Type 0} → ℕ → Write S
store b s =
    if ltb s.offset (length s.buffer)
    then (ok tt, record s { buffer = set s.buffer s.offset b; offset = add_usize s.offset 1 })
    else (err buffer_full, s)

pub shift_shrinks : (value : ℕ) → 0 < shr value 7 → shr value 7 < value
shift_shrinks value more = omega arith

module _ {S : Type 0} (F : Flush S) (H : Handoff S) where
  unfoldable pub drain : OStream S → OStream S
  drain s =
      let end = min s.offset (length s.buffer) in
      let flushed = record s { offset = 0; env = F.flush (take end s.buffer) s.env } in
      if H.takes then take_over H flushed (H.installed flushed.env) else flushed

  -- The number of pending bytes, and the encoder after the sink has run.
  unfoldable pub flush : OStream S → ℕ × OStream S
  unfolding drain
  flush s = (s.offset, if ltb 0 s.offset && F.sinks then drain s else s)

  -- The `?` behind the check.
  abbrev pub swap_checked : Result Nothing → OStream S → OStream S → Result Nothing × OStream S
  swap_checked (ok u) swapped s = (ok u, swapped)
  swap_checked (err e) swapped s = (err e, s)

  unfoldable pub buffer_set : List ℕ → ℕ → Write S
  unfolding flush check_install
  buffer_set buffer offset s =
      let drained = if F.sinks then (flush s).1 else s in
      let swapped = record drained { buffer = buffer; offset = offset } in
      swap_checked (check_install (length buffer) offset F.sinks) swapped s

  unfoldable pub push_byte : ℕ → Write S
  unfolding drain store
  push_byte b s =
      if leb (length s.buffer) s.offset
      then (if not F.sinks then (err buffer_full, s) else store b (drain s))
      else store b s

  unfoldable pub push_raw : List ℕ → Write S
  unfolding push_byte
  push_raw [] = done
  push_raw (b ∷ bs) = push_byte b >> push_raw bs

  -- `value >>= 7` until it is 0.
  unfoldable pub write_varint_loop : (value : ℕ) → Acc ◌<◌ value → Write S
  unfolding push_byte
  write_varint_loop value (Acc.intro _ smaller) =
      let b = bit_and (value % 2 ^ 8) 0x7f in
      dite (dec_lt 0 (shr value 7))
        (λ more.
          push_byte (bit_or b 0x80)
          >> write_varint_loop (shr value 7) (smaller (shr value 7) (shift_shrinks value more)))
        (λ _. push_byte b)

  unfoldable pub write_varint : ℕ → Write S
  unfolding write_varint_loop lt_wf dec_lt
  write_varint value = write_varint_loop value (lt_wf.apply value)
