-- ===== src/OStream/Push.antt =====
-- src/ostream.rs: `push_byte`, `push_raw` and `write_varint` emit their bytes.
use mathlib.Core.WellFounded.{Acc}
use corelib_rs_no_std.Common.{
  ℕ, zero, suc, ◌+◌, ◌/◌, ◌%◌, ◌^◌, ◌≤◌, ◌<◌, ◌≡◌, refl, ap, sym, ◌∙◌, arith, true, false, List, [],
  ◌∷◌, ◌++◌, length, take, drop, append-nil, append_assoc, length-set, take-set, lt_wf, Bool-cases,
  inl, inr, ltb, lt→ltb, bit_and, bit_or,
}
use mathlib.Core.Logic.{dif_pos, dif_neg}
use native.Mathlib.Bridge.{le_prop}
use native.Mathlib.Nat.{mod-eq_of_lt}
use native.Mathlib.Decide.{dec_lt}
use corelib_rs_no_std.Common.Bits.{and_low_bits, or_top_bit}
use corelib_rs_no_std.Error.{err, buffer_full}
use corelib_rs_no_std.Varint.Groups.{groups, varint}
use corelib_rs_no_std.OStream.Handover.{Flush, Handoff}
use corelib_rs_no_std.OStream.Stream.{
  OStream, and_write, store, shift_shrinks, drain, push_byte, push_raw, write_varint_loop,
  write_varint,
}
use corelib_rs_no_std.OStream.Drain.{drain-Drained, length-front}
use corelib_rs_no_std.OStream.Wrote.{
  View, Keeps, IsValid, frames, Wrote, whole, cut, done-Wrote, and_write-Wrote, behind-Wrote,
}

module _ {S : Type 0} (F : Flush S) (H : Handoff S) (seen : View S) (K : Keeps F H seen) where
  take-all : (xs : List ℕ) → take (length xs) xs ≡ xs
  take-all [] = refl
  take-all (x ∷ xs) = ap (λ t. x ∷ t) (take-all xs)

  drop-behind : (n : ℕ) (xs ys : List ℕ) → n ≤ length xs → drop n (xs ++ ys) ≡ drop n xs ++ ys
  drop-behind zero xs ys h = refl
  drop-behind (suc n) [] ys h = absurd (omega arith)
  drop-behind (suc n) (x ∷ xs) ys h = drop-behind n xs ys (omega arith)

  -- A byte stored where there is room.
  store-Wrote :
      (s : OStream S) (b : ℕ)
      → IsValid F seen s
      → s.offset < length s.buffer
      → Wrote F seen s (frames F seen s) (b ∷ []) (store b s)
  unfolding store
  store-Wrote s b v h =
      let e : (s.offset + 1) % 2 ^ 64 ≡ s.offset + 1 = omega (arith, v.small) in
      let inside : seen.reserved s.env ≤ length (take s.offset s.buffer) =
        omega (arith, length-front s.offset s.buffer v.within, v.behind) in
      rw (lt→ltb _ _ h, e)
        (whole
          (record {
            within = rw length-set (omega arith);
            small = rw length-set v.small;
            streaming = λ q. rw length-set (v.streaming q);
            slots = v.slots;
            window = v.window;
            nested = v.nested;
            bounded = v.bounded;
            ids = v.ids;
            behind = omega (arith, v.behind);
            good = v.good;
          })
          (rw (
            take-set s.buffer s.offset b h,
            drop-behind (seen.reserved s.env) (take s.offset s.buffer) (b ∷ []) inside,
            append_assoc,
          ))
          refl (λ q. (refl, length-set _ _ _)))

  push_byte-full :
      (b : ℕ) (s : OStream S)
      → length s.buffer ≤ s.offset
      → F.sinks ≡ false
      → push_byte F H b s ≡ (err buffer_full, s)
  unfolding push_byte
  push_byte-full b s h e = ground arith

  push_byte-drain :
      (b : ℕ) (s : OStream S)
      → length s.buffer ≤ s.offset
      → F.sinks ≡ true
      → push_byte F H b s ≡ store b (drain F H s)
  unfolding push_byte
  push_byte-drain b s h e = ground arith

  push_byte-store :
      (b : ℕ) (s : OStream S) → s.offset < length s.buffer → push_byte F H b s ≡ store b s
  unfolding push_byte
  push_byte-store b s h = ground arith

  -- `push_byte` on a valid encoder emits the byte behind all bytes before it, through a drain where the
  -- buffer is full, and the open sequences stay; or there is no sink and no room, and it fails with
  -- `buffer_full`.
  pub push_byte-Wrote :
      (s : OStream S) (b : ℕ)
      → IsValid F seen s
      → Wrote F seen s (frames F seen s) (b ∷ []) (push_byte F H b s)
  push_byte-Wrote s b v = elim (dec_lt s.offset (length s.buffer)) [
    | yes room ↦ rw (push_byte-store b s room) (store-Wrote s b v room)
    | no full ↦ elim (Bool-cases F.sinks) [
      | inl on ↦
          let d = drain-Drained F H seen K s v on in
          let stored = store-Wrote (drain F H s) b d.valid d.room in
          rw (push_byte-drain b s (omega arith) on) (
            behind-Wrote F seen s [] (d.kept ∙ sym (append-nil _)) (λ off. cc)
              (rw d.framed at stored))
      | inr off ↦
          rw (push_byte-full b s (omega arith) off)
            (cut [] (b ∷ []) refl (sym (append-nil _)) v off (omega arith))
    ]
  ]

  push_raw_round :
      (b : ℕ) (bs : List ℕ) (s : OStream S)
      → push_raw F H (b ∷ bs) s ≡ and_write (push_byte F H b s) (push_raw F H bs)
  unfolding push_raw
  push_raw_round b bs s = refl

  pub push_raw-Wrote :
      (bytes : List ℕ) (s : OStream S)
      → IsValid F seen s
      → Wrote F seen s (frames F seen s) bytes (push_raw F H bytes s)
  push_raw-Wrote [] s v = unfold push_raw in done-Wrote F seen v
  push_raw-Wrote (b ∷ bs) s v = rw push_raw_round (
      and_write-Wrote F seen bs (push_raw F H bs) (push_byte-Wrote s b v)
        (λ s' v' e. rw e at (push_raw-Wrote bs s' v')))

  low_group : (v : ℕ) → bit_and (v % 2 ^ 8) 0x7f ≡ v % 128
  low_group v = omega (arith, and_low_bits (v % 256))

  inner_group : (v : ℕ) → bit_or (bit_and (v % 2 ^ 8) 0x7f) 0x80 ≡ v % 128 + 128
  inner_group v = rw low_group (or_top_bit (v % 128) (omega arith))

  loop_last :
      (value : ℕ) (w : Acc ◌<◌ value) (s : OStream S)
      → value < 128
      → write_varint_loop F H value w s ≡ push_byte F H value s
  unfolding write_varint_loop
  loop_last value (Acc.intro _ smaller) s h =
      let last : ¬ (0 < value / 128) = omega arith in
      rw (dif_neg (dec_lt 0 (value / 128)) last, low_group, mod-eq_of_lt h)

  loop_more :
      (value : ℕ) (w : Acc ◌<◌ value) (s : OStream S)
      → 128 ≤ value
      → (w' : Acc ◌<◌ (value / 128)) × (write_varint_loop F H value w s
          ≡ and_write
              (push_byte F H (value % 128 + 128) s)
              (write_varint_loop F H (value / 128) w'))
  unfolding write_varint_loop
  loop_more value (Acc.intro _ smaller) s h =
      let more : 0 < value / 128 = omega arith in
      (
        smaller (value / 128) (shift_shrinks value more),
        rw (dif_pos (dec_lt 0 (value / 128)) le_prop more, inner_group),
      )

  write_varint_loop-Wrote :
      (k value : ℕ) (w : Acc ◌<◌ value) (s : OStream S)
      → IsValid F seen s
      → value < 128 ^ suc k
      → Wrote F seen s (frames F seen s) (groups k value) (write_varint_loop F H value w s)
  unfolding groups
  write_varint_loop-Wrote zero value w s v h =
      rw (loop_last value w s (omega arith)) (push_byte-Wrote s value v)
  write_varint_loop-Wrote (suc k) value w s v h = elim (dec_lt value 128) [
    | yes low ↦ rw (loop_last value w s low, lt→ltb _ _ low) (push_byte-Wrote s value v)
    | no high ↦
        let (w', e) = loop_more value w s (omega arith) in
        let more : ltb value 128 ≡ false = ground arith in
        rw (e, more)
          (and_write-Wrote F seen (groups k (value / 128)) _
            (push_byte-Wrote s (value % 128 + 128) v)
            (λ s' v' e'. rw e' at (write_varint_loop-Wrote k (value / 128) w' s' v' (omega arith))))
  ]

  -- From a valid encoder, every `u64` is emitted as its varint and the open sequences stay; without a
  -- sink, as far as the room goes.
  pub write_varint-Wrote :
      (value : ℕ) (s : OStream S)
      → IsValid F seen s
      → value < 2 ^ 64
      → Wrote F seen s (frames F seen s) (varint value) (write_varint F H value s)
  unfolding write_varint varint
  write_varint-Wrote value s v h =
      write_varint_loop-Wrote 9 value (lt_wf.apply value) s v (omega arith)
