-- ===== src/RoundTrip/Scalars.antt =====
-- src/istream.rs on src/ostream.rs: the decoder over one scalar field.
use corelib_rs_no_std.Common.{
  ℕ, suc, ◌+◌, ◌*◌, ◌/◌, ◌%◌, ◌^◌, ◌≤◌, ◌<◌, ◌≡◌, refl, ap, arith, List, [], ◌∷◌, ◌++◌, length, All,
}
use corelib_rs_no_std.Error.{ok}
use corelib_rs_no_std.Types.{
  FixlenType, raw_of, id_max, array_max, t_varint_unsigned, t_varint_signed, t_fixlen,
}
use corelib_rs_no_std.Varint.{zigzag_encode, zigzag_decode}
use corelib_rs_no_std.Varint.Groups.{varint}
use corelib_rs_no_std.Varint.ZigZag.{zigzag_encode_lem, zigzag_inverse}
use corelib_rs_no_std.IStream.State.{State, Event}
use corelib_rs_no_std.IStream.Step.{dispatch, on_wire_type, width_of}
use corelib_rs_no_std.IStream.FeedRun.{IsByte}
use corelib_rs_no_std.OStream.Fields.{le_bytes}
use corelib_rs_no_std.OStream.Spec.{header, fixlen_body}
use corelib_rs_no_std.RoundTrip.Leads.{
  dec, Leads-nil, Leads-append, Leads-regroup, word-Leads, header-Leads,
}
use corelib_rs_no_std.RoundTrip.Payloads.{
  chunk_event, raw-Leads, float_event, float-Leads, pushed, pushed-le_bytes4, pushed-le_bytes8,
}
use corelib_rs_no_std.RoundTrip.Boundary.{Reads, Reads-from, rests}
use corelib_rs_no_std.RoundTrip.Lengths.{
  width_of-le, length-Leads, empty_word, text_word, float_word,
}

module _ (depth id : ℕ) (known : id ≤ id_max) where
  pub unsigned-Reads :
      (v : ℕ)
      → v < 2 ^ 64
      → Reads depth (header id t_varint_unsigned ++ varint v) depth (Event.unsigned id v ∷ [])
  unfolding on_wire_type dispatch
  unsigned-Reads v h = Reads-from (λ kind subtype old total left.
      let s = dec State.varint_unsigned kind subtype depth 0 id 0 total left in
      let t = dec State.idle kind subtype depth 0 id 0 total left in
      (
        t,
        rests kind subtype depth id total left,
        Leads-append
            (header-Leads kind subtype depth old 0 total left id t_varint_unsigned s [] known
              (omega arith) refl)
            (word-Leads s t v (Event.unsigned id v ∷ []) tt h refl),
      ))

  pub signed-Reads :
      (v : ℕ)
      → v < 2 ^ 64
      → Reads depth
          (header id t_varint_signed ++ varint (zigzag_encode v))
          depth
          (Event.signed id v ∷ [])
  unfolding on_wire_type dispatch
  signed-Reads v h = Reads-from (λ kind subtype old total left.
      let s = dec State.varint_signed kind subtype depth 0 id 0 total left in
      let t = dec State.idle kind subtype depth 0 id 0 total left in
      let back : zigzag_decode (zigzag_encode v) ≡ v = (zigzag_inverse v h).0 in
      (
        t,
        rests kind subtype depth id total left,
        Leads-append
            (header-Leads kind subtype depth old 0 total left id t_varint_signed s [] known
              (omega arith) refl)
            (word-Leads s t (zigzag_encode v) (Event.signed id v ∷ []) tt (zigzag_encode_lem v h).1
              (ap (λ (w : ℕ). (ok tt, t, Event.signed id w ∷ [])) back)),
      ))

module _ (depth id : ℕ) (known : id ≤ id_max) where
  pub text-Reads :
      (subtype : FixlenType) (bytes : List ℕ)
      → width_of subtype ≡ 0
      → All IsByte bytes
      → length bytes ≤ array_max
      → Reads depth
          (header id t_fixlen ++ fixlen_body bytes subtype)
          depth
          (Event.fixlen_begin id subtype (length bytes) ∷ chunk_event subtype id bytes ∷ [])
  text-Reads subtype [] e a h = Reads-from (λ kind old was total left.
      let t = dec State.idle kind subtype depth 0 id 0 0 0 in
      let read =
        length-Leads kind old subtype depth was total left id 0 t _ known (omega arith)
          (empty_word kind old subtype depth id total left e) in
      (
        t,
        rests kind subtype depth id 0 0,
        Leads-regroup (header id t_fixlen) (varint (0 * 8 + raw_of subtype)) []
            (Leads-append read (Leads-nil t)),
      ))
  text-Reads subtype (b ∷ bs) e a h = Reads-from (λ kind old was total left.
      let n = suc (length bs) in
      let s = dec State.fixlen_raw kind subtype depth 0 id 0 n n in
      let t = dec State.idle kind subtype depth 0 id 0 n 0 in
      let read =
        length-Leads kind old subtype depth was total left id n s _ known h
          (text_word kind old subtype depth id total left n e (omega arith) h) in
      (
        t,
        rests kind subtype depth id n 0,
        Leads-regroup (header id t_fixlen) (varint (n * 8 + raw_of subtype)) (b ∷ bs)
            (Leads-append read (raw-Leads kind subtype depth id b bs h a)),
      ))

  pub float-Reads :
      (subtype : FixlenType) (b : ℕ) (bs : List ℕ)
      → width_of subtype ≡ length (b ∷ bs)
      → All IsByte (b ∷ bs)
      → Reads depth (header id t_fixlen ++ fixlen_body (b ∷ bs) subtype) depth (
          Event.fixlen_begin id subtype (length (b ∷ bs))
          ∷ float_event subtype id (pushed 0 (b ∷ bs))
          ∷ [])
  float-Reads subtype b bs e a = Reads-from (λ kind old was total left.
      let n = suc (length bs) in
      let s = dec State.fixlen_val kind subtype depth 0 id 0 n n in
      let t = dec State.idle kind subtype depth 0 id 0 n 0 in
      let small : n ≤ 8 = omega (arith, width_of-le subtype) in
      let read =
        length-Leads kind old subtype depth was total left id n s _ known (omega arith)
          (float_word kind old subtype depth id total left n e (omega arith)) in
      (
        t,
        rests kind subtype depth id n 0,
        Leads-regroup (header id t_fixlen) (varint (n * 8 + raw_of subtype)) (b ∷ bs) (
            Leads-append read
              (float-Leads kind subtype depth id 0 n b bs a (omega arith) refl (omega arith))),
      ))

  pub fp32-Reads :
      (bits : ℕ)
      → bits < 2 ^ 32
      → Reads depth
          (header id t_fixlen ++ fixlen_body (le_bytes 4 bits) FixlenType.fp32)
          depth
          (Event.fixlen_begin id FixlenType.fp32 4 ∷ Event.fp32 id bits ∷ [])
  fp32-Reads bits h =
      rw (pushed-le_bytes4 bits h) at
        (float-Reads FixlenType.fp32 (bits % 256) (le_bytes 3 (bits / 256)) refl (omega arith))

  pub fp64-Reads :
      (bits : ℕ)
      → bits < 2 ^ 64
      → Reads depth
          (header id t_fixlen ++ fixlen_body (le_bytes 8 bits) FixlenType.fp64)
          depth
          (Event.fixlen_begin id FixlenType.fp64 8 ∷ Event.fp64 id bits ∷ [])
  fp64-Reads bits h =
      rw (pushed-le_bytes8 bits h) at
        (float-Reads FixlenType.fp64 (bits % 256) (le_bytes 7 (bits / 256)) refl (omega arith))
