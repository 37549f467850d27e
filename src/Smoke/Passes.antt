-- ===== src/Smoke/Passes.antt =====
-- .github/smoke/roundtrip.rs: `main`, on the encoder and the decoder.
use corelib_rs_no_std.Common.{
  ℕ, ◌+◌, ◌^◌, ◌≡◌, ◌≤◌, ◌<◌, refl, ◌∙◌, arith, List, [], ◌∷◌, length, replicate, All, Option, some,
  ◌==◌, true, false,
}
use corelib_rs_no_std.Error.{Result, ok, err, Nothing}
use corelib_rs_no_std.Types.{FixlenType}
use corelib_rs_no_std.Floats.{bits_equal_f32, bits_equal_lem}
use corelib_rs_no_std.IStream.State
use corelib_rs_no_std.IStream.State.{IStream, Event, Status, complete}
use corelib_rs_no_std.IStream.Feed.{feed}
use corelib_rs_no_std.IStream.Valid.{new-IsValid}
use corelib_rs_no_std.IStream.FeedRun.{IsByte}
use corelib_rs_no_std.IStream.Chunks.{feed_bytewise, feed-Refines}
use corelib_rs_no_std.OStream.Handover.{no_flush, no_handoff}
use corelib_rs_no_std.OStream.Stream.{OStream, and_write, done, new}
use corelib_rs_no_std.OStream.Fields.{write_unsigned, write_signed, write_str}
use corelib_rs_no_std.OStream.Spec.{IsBytes}
use corelib_rs_no_std.OStream.Perform.{perform, perform_all}
use corelib_rs_no_std.RoundTrip.Fixed.{Holds, written-Holds}
use corelib_rs_no_std.RoundTrip.Message.{ReadsAs, spec_all-ReadsAs}
use corelib_rs_no_std.Smoke.Baremetal.{sofab_smoke_roundtrip}
use corelib_rs_no_std.Smoke.Returns.{sofab_smoke_roundtrip_lem}
use corelib_rs_no_std.Smoke.Probe.{Probe, default, copy, visits}
use corelib_rs_no_std.Smoke.Host.{
  expect, same_slice, text_of, decoded, feed_each, compare, decode_both, main,
}
use corelib_rs_no_std.Smoke.Slices.{visits_alike, take-copy}
use corelib_rs_no_std.Smoke.Bytes.{feed_each_lem}
use corelib_rs_no_std.Smoke.Written.{
  scalars_text, scalars_text_bytes, scalars_text-accepted, scalars_text-size, scalars_text-told,
}

abbrev events : ℕ → ℕ → List ℕ → List Event
events v w text =
    Event.unsigned 1 v
    ∷ Event.signed 2 w
    ∷ Event.fixlen_begin 3 FixlenType.str (length text)
    ∷ Event.string 3 (length text) 0 text
    ∷ []

-- The probe behind the message.
abbrev filled : ℕ → ℕ → List ℕ → Probe
filled v w text = record { a = v; b = w; s = copy (replicate 8 0) 0 text; s_len = 0 + length text }

visits-events :
    (v w : ℕ) (text : List ℕ)
    → length text ≤ 8
    → visits (events v w text) default ≡ some (filled v w text)
visits-events v w text h = ground arith

filled_text : (v w : ℕ) (text : List ℕ) → length text ≤ 8 → text_of (filled v w text) ≡ text
filled_text v w text h = take-copy text (replicate 8 0) 0 (omega arith)

same_slice_refl : (a : List ℕ) → same_slice a a ≡ true
same_slice_refl a = unfold bits_equal_f32 in (bits_equal_lem a a).0.1 refl

agreed :
    (v w : ℕ) (text wire : List ℕ)
    → length text ≤ 8
    → feed_each State.new default wire ≡ some (filled v w text)
    → compare v w text wire (some (filled v w text)) ≡ some tt
unfolding compare
agreed v w text wire h e =
    let self : (x : ℕ) → (x == x) ≡ true = λ x. ground arith in
    rw (e, self v, self w, filled_text v w text h, same_slice_refl text) refl

each_byte :
    (bytes : List ℕ) (s : IStream) (told : List Event)
    → 0 < length bytes
    → All IsByte bytes
    → feed_bytewise State.new bytes ≡ (ok complete, s, told)
    → feed_each State.new default bytes ≡ visits told default
each_byte [] s told h a e = absurd (omega arith)
each_byte (b ∷ bs) s told h a e = feed_each_lem b bs State.new s default told new-IsValid a e

compared :
    (v w : ℕ) (text bytes : List ℕ)
    → length text ≤ 8
    → 0 < length bytes
    → ReadsAs bytes complete (events v w text)
    → compare v w text bytes (decoded (feed State.new bytes)) ≡ some tt
compared v w text bytes h k (s, told, reference, tells, octets) =
    let (calls, p, q) = rw reference at (feed-Refines State.new bytes new-IsValid octets) in
    let whole : visits calls default ≡ some (filled v w text) =
      visits_alike calls (events v w text) default (q ∙ tells) ∙ visits-events v w text h in
    let each : feed_each State.new default bytes ≡ some (filled v w text) =
      each_byte bytes s told k octets reference
      ∙ visits_alike told (events v w text) default tells
      ∙ visits-events v w text h in
    rw (p, whole) (agreed v w text bytes h each)

both :
    (v w : ℕ) (text bytes : List ℕ) (t : Result Nothing × OStream Nothing)
    → length text ≤ 8
    → 0 < length bytes
    → ReadsAs bytes complete (events v w text)
    → Holds bytes (and_write t done)
    → expect t (decode_both v w text) ≡ some tt
unfolding decode_both
both v w text bytes (ok u, os) h k r (o, m, n) =
    let some_bytes : (length bytes == 0) ≡ false = ground arith in
    rw (m, some_bytes) (compared v w text bytes h k r)
both v w text bytes (err e, os) h k r (o, m, n) = absurd (ground arith)

-- A call that is expected to succeed, in front of others.
expected :
    {bytes : List ℕ} (t : Result Nothing × OStream Nothing)
    (k : OStream Nothing → Result Nothing × OStream Nothing)
    (rest : OStream Nothing → Option Nothing)
    → Holds bytes (and_write t k)
    → ((os : OStream Nothing) → Holds bytes (k os) → rest os ≡ some tt)
    → expect t rest ≡ some tt
expected (ok u, os) k rest h later = later os h
expected (err e, os) k rest (o, m, n) later = absurd (ground arith)

-- The `main` of roundtrip.rs does not panic, for any two 64-bit values and any text of up to 8 bytes.
main_lem :
    (v w : ℕ) (text : List ℕ)
    → v < 2 ^ 64
    → w < 2 ^ 64
    → IsBytes text
    → length text ≤ 8
    → main v w text ≡ some tt
unfolding main perform_all perform
main_lem v w text h k b l =
    let size = scalars_text-size v w text h k l in
    let ops = scalars_text v w text in
    let bytes = scalars_text_bytes v w text in
    let accepted = scalars_text-accepted v w text in
    let held =
      written-Holds ops (replicate 64 0) bytes (0, []) (omega arith) (h, (k, (b, tt))) accepted
        (omega (arith, size)) in
    let read =
      rw (scalars_text-told v w text) at
        (spec_all-ReadsAs ops bytes (0, []) (h, (k, (b, tt))) (tt, (tt, (tt, tt))) accepted) in
    expected (write_unsigned no_flush no_handoff 1 v (new (replicate 64 0))) _ _ held (λ os h1.
      expected (write_signed no_flush no_handoff 2 w os) _ _ h1 (λ os' h2.
        both v w text bytes (write_str no_flush no_handoff 3 text os') l (omega (arith, size)) read
          h2))

-- Both programs succeed, for any two 64-bit values and any text of up to 8 bytes: the one returns 0,
-- and the other, which reads the message back whole and byte by byte, does not panic.
pub smoke_passes :
    (v w : ℕ) (text : List ℕ)
    → v < 2 ^ 64
    → w < 2 ^ 64
    → IsBytes text
    → length text ≤ 8
    → (sofab_smoke_roundtrip v w ≡ 0) × (main v w text ≡ some tt)
smoke_passes v w text h k b l = (sofab_smoke_roundtrip_lem v w h k, main_lem v w text h k b l)
