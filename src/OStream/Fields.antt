-- ===== src/OStream/Fields.antt =====
-- src/ostream.rs: the writers. A float is its bit pattern, a `&str` its bytes, and an `i64` its bits.
use corelib_rs_no_std.Common.{
  ℕ, zero, suc, ◌+◌, ◌-◌, ◌/◌, ◌%◌, ◌^◌, leb, ltb, ◌==◌, if◌then◌else◌, not, Bool, List, [], ◌∷◌,
  length, set, bit_or,
}
use corelib_rs_no_std.Common.Word.{shl64, add_u16, sub_u16}
use corelib_rs_no_std.Error.{ok, err, argument}
use corelib_rs_no_std.Types.{
  FixlenType, raw_of, id_max, max_depth, t_varint_unsigned, t_varint_signed, t_fixlen,
  t_varintarray_unsigned, t_varintarray_signed, t_fixlenarray, t_sequence_start, t_sequence_end,
}
use corelib_rs_no_std.Varint.{zigzag_encode}
use corelib_rs_no_std.OStream.Handover.{Flush, Handoff}
use corelib_rs_no_std.OStream.Stream.{OStream, Write, ◌>>◌, done, and_write, push_raw, write_varint}

-- `to_le_bytes` of a float of `n` bytes.
abbrev pub le_bytes : ℕ → ℕ → List ℕ
le_bytes zero bits = []
le_bytes (suc n) bits = (bits % 256) ∷ le_bytes n (bits / 256)

-- `for i in 1..LAZY_SEQ_DEPTH { pending[i - 1] = pending[i] }`
abbrev pub shift_down : List ℕ → List ℕ
shift_down [] = []
shift_down (x ∷ []) = x ∷ []
shift_down (x ∷ y ∷ rest) = y ∷ shift_down (y ∷ rest)

abbrev pub head_slot : List ℕ → ℕ
head_slot [] = 0
head_slot (x ∷ xs) = x

-- `UnsignedElem::widen` on a `u8` … `u64`, and `SignedElem::widen` on the bits of a `width`-bit
-- integer.
abbrev pub widen_unsigned : ℕ → ℕ
widen_unsigned x = x

abbrev pub widen_signed : ℕ → ℕ → ℕ
widen_signed width x = if ltb x (2 ^ (width - 1)) then x else x + (2 ^ 64 - 2 ^ width)

module _ {S : Type 0} (F : Flush S) (H : Handoff S) where
  abbrev pub drop_oldest : OStream S → OStream S
  drop_oldest s = record s { pending = shift_down s.pending; npending = sub_u16 s.npending 1 }

  -- The held-back headers, outermost first: one round for each.
  unfoldable pub commit_rounds : ℕ → Write S
  unfolding write_varint
  commit_rounds zero s = done s
  commit_rounds (suc n) s =
      and_write (write_varint F H (bit_or (shl64 (head_slot s.pending) 3) t_sequence_start) s)
        (λ s'. commit_rounds n (drop_oldest s'))

  unfoldable pub commit_pending : Write S
  unfolding commit_rounds
  commit_pending s = commit_rounds s.npending s

  unfoldable pub write_id_type : ℕ → ℕ → Write S
  unfolding commit_pending write_varint
  write_id_type id wire_type s =
      let commit = λ (t : OStream S). if not (t.npending == 0) then commit_pending t else done t in
      let header = write_varint F H (bit_or (shl64 id 3) wire_type) in
      if ltb id_max id then (err argument, s) else (commit >> header) s

  unfoldable pub write_unsigned : ℕ → ℕ → Write S
  unfolding write_id_type write_varint
  write_unsigned id value = write_id_type id t_varint_unsigned >> write_varint F H value

  unfoldable pub write_signed : ℕ → ℕ → Write S
  unfolding write_id_type write_varint
  write_signed id value = write_id_type id t_varint_signed >> write_varint F H (zigzag_encode value)

  unfoldable pub write_boolean : ℕ → Bool → Write S
  unfolding write_unsigned
  write_boolean id value = write_unsigned id (if value then 1 else 0)

  unfoldable pub write_fixlen_raw : ℕ → List ℕ → FixlenType → Write S
  unfolding write_id_type write_varint push_raw
  write_fixlen_raw id bytes subtype =
      write_id_type id t_fixlen
      >> write_varint F H (bit_or (shl64 (length bytes) 3) (raw_of subtype))
      >> push_raw F H bytes

  unfoldable pub write_fixlen : ℕ → List ℕ → FixlenType → Write S
  unfolding write_fixlen_raw
  write_fixlen id bytes FixlenType.str s = (err argument, s)
  write_fixlen id bytes subtype s = write_fixlen_raw id bytes subtype s

  unfoldable pub write_fp32 : ℕ → ℕ → Write S
  unfolding write_fixlen_raw
  write_fp32 id bits = write_fixlen_raw id (le_bytes 4 bits) FixlenType.fp32

  unfoldable pub write_fp64 : ℕ → ℕ → Write S
  unfolding write_fixlen_raw
  write_fp64 id bits = write_fixlen_raw id (le_bytes 8 bits) FixlenType.fp64

  unfoldable pub write_str : ℕ → List ℕ → Write S
  unfolding write_fixlen_raw
  write_str id text = write_fixlen_raw id text FixlenType.str

  unfoldable pub write_blob : ℕ → List ℕ → Write S
  unfolding write_fixlen_raw
  write_blob id bytes = write_fixlen_raw id bytes FixlenType.blob

  unfoldable pub write_array_head : ℕ → ℕ → ℕ → Write S
  unfolding write_id_type write_varint
  write_array_head id wire_type count = write_id_type id wire_type >> write_varint F H count

  -- `for e in data { write(e)? }`
  abbrev pub write_each {ℓ} : {T : Type ℓ} → (T → Write S) → List T → Write S
  write_each write [] = done
  write_each write (e ∷ es) = write e >> write_each write es

  unfoldable pub write_array_unsigned {ℓ} : {T : Type ℓ} → (T → ℕ) → ℕ → List T → Write S
  unfolding write_array_head write_varint
  write_array_unsigned widen id elems =
      write_array_head id t_varintarray_unsigned (length elems)
      >> write_each (λ e. write_varint F H (widen e)) elems

  unfoldable pub write_array_signed {ℓ} : {T : Type ℓ} → (T → ℕ) → ℕ → List T → Write S
  unfolding write_array_head write_varint
  write_array_signed widen id elems =
      write_array_head id t_varintarray_signed (length elems)
      >> write_each (λ e. write_varint F H (zigzag_encode (widen e))) elems

  unfoldable pub write_array_fp32 : ℕ → List ℕ → Write S
  unfolding write_array_head write_varint push_raw
  write_array_fp32 id elems =
      write_array_head id t_fixlenarray (length elems)
      >> write_varint F H (bit_or (shl64 4 3) (raw_of FixlenType.fp32))
      >> write_each (λ e. push_raw F H (le_bytes 4 e)) elems

  unfoldable pub write_array_fp64 : ℕ → List ℕ → Write S
  unfolding write_array_head write_varint push_raw
  write_array_fp64 id elems =
      write_array_head id t_fixlenarray (length elems)
      >> write_varint F H (bit_or (shl64 8 3) (raw_of FixlenType.fp64))
      >> write_each (λ e. push_raw F H (le_bytes 8 e)) elems

  abbrev pub deeper : Write S
  deeper s = (ok tt, record s { depth = add_u16 s.depth 1 })

  abbrev pub shallower : Write S
  shallower s = (ok tt, record s { depth = sub_u16 s.depth 1 })

  unfoldable pub write_sequence_begin_lazy : ℕ → Write S
  unfolding commit_pending write_varint
  write_sequence_begin_lazy id s =
      let held = record s {
        pending = set s.pending s.npending id;
        npending = add_u16 s.npending 1;
      } in
      let eager =
        commit_pending >> write_varint F H (bit_or (shl64 id 3) t_sequence_start) >> deeper in
      if leb max_depth s.depth
      then (err argument, s)
      else if ltb id_max id
      then (err argument, s)
      else if ltb s.npending (length s.pending)
      then deeper held
      else eager s

  unfoldable pub write_sequence_end : Write S
  unfolding write_id_type
  write_sequence_end s =
      let dropped = record s { npending = sub_u16 s.npending 1; depth = sub_u16 s.depth 1 } in
      let close = write_id_type 0 t_sequence_end >> shallower in
      if s.depth == 0
      then (err argument, s)
      else if not (s.npending == 0)
      then (ok tt, dropped)
      else close s

  unfoldable pub write_sequence_end_keep : Write S
  unfolding write_id_type
  write_sequence_end_keep s =
      let close = write_id_type 0 t_sequence_end >> shallower in
      if s.depth == 0 then (err argument, s) else close s
