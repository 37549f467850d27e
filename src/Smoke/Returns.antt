-- ===== src/Smoke/Returns.antt =====
-- .github/smoke/baremetal.rs: the program, on the encoder and the decoder.
use corelib_rs_no_std.Common.{
  ℕ, ◌+◌, ◌^◌, ◌≡◌, ◌<◌, refl, sym, ap, ◌∙◌, arith, List, [], ◌∷◌, ◌++◌, length, replicate, some,
  ◌==◌, false,
}
use corelib_rs_no_std.Error.{Result, ok, err, Nothing}
use corelib_rs_no_std.IStream.State
use corelib_rs_no_std.IStream.State.{IStream, Event, Status, complete}
use corelib_rs_no_std.IStream.Feed.{feed}
use corelib_rs_no_std.IStream.Valid.{new-IsValid}
use corelib_rs_no_std.IStream.Bytewise.{per_byte, expand, expand_all}
use corelib_rs_no_std.IStream.Chunks.{feed-Refines}
use corelib_rs_no_std.OStream.Handover.{no_flush, no_handoff}
use corelib_rs_no_std.OStream.Stream.{OStream, and_write, done, new}
use corelib_rs_no_std.OStream.Fields.{write_unsigned, write_signed}
use corelib_rs_no_std.OStream.Perform.{perform, perform_all}
use corelib_rs_no_std.RoundTrip.Fixed.{Holds, written-Holds}
use corelib_rs_no_std.RoundTrip.Message.{ReadsAs, spec_all-ReadsAs}
use corelib_rs_no_std.Smoke.Baremetal.{
  Probe, default, visit, visits, judge, after_signed, after_unsigned, sofab_smoke_roundtrip,
}
use corelib_rs_no_std.Smoke.Written.{
  scalars, scalars_bytes, scalars-accepted, scalars-size, scalars-told,
}

visits-append : (xs ys : List Event) (p : Probe) → visits (xs ++ ys) p ≡ visits ys (visits xs p)
visits-append [] ys p = refl
visits-append (x ∷ xs) ys p = visits-append xs ys (visit x p)

-- The probe takes no payload.
strings :
    (id total off : ℕ) (bs : List ℕ) (p : Probe)
    → visits (per_byte (Event.string id total) off bs) p ≡ p
unfolding per_byte
strings id total off [] p = refl
strings id total off (b ∷ bs) p = strings id total (off + 1) bs p

blobs :
    (id total off : ℕ) (bs : List ℕ) (p : Probe)
    → visits (per_byte (Event.blob id total) off bs) p ≡ p
unfolding per_byte
blobs id total off [] p = refl
blobs id total off (b ∷ bs) p = blobs id total (off + 1) bs p

visits-expand : (e : Event) (p : Probe) → visits (expand e) p ≡ visit e p
visits-expand (Event.string id total off (b ∷ bs)) p = strings id total off (b ∷ bs) p
visits-expand (Event.string id total off []) p = refl
visits-expand (Event.blob id total off (b ∷ bs)) p = blobs id total off (b ∷ bs) p
visits-expand (Event.blob id total off []) p = refl
visits-expand (Event.unsigned id x) p = refl
visits-expand (Event.signed id x) p = refl
visits-expand (Event.fp32 id x) p = refl
visits-expand (Event.fp64 id x) p = refl
visits-expand (Event.fixlen_begin id subtype total) p = refl
visits-expand (Event.array_begin id kind count) p = refl
visits-expand (Event.sequence_begin id) p = refl
visits-expand Event.sequence_end p = refl

visits-expand_all : (es : List Event) (p : Probe) → visits (expand_all es) p ≡ visits es p
visits-expand_all [] p = refl
visits-expand_all (e ∷ es) p = rw (
  visits-append (expand e) (expand_all es) p,
  visits-expand e p,
  visits-expand_all es (visit e p),
)

judged :
    (v w : ℕ) (s : IStream) (calls : List Event)
    → visits calls default ≡ record { a = v; b = w }
    → judge v w (some (ok complete, s, calls)) ≡ 0
judged v w s calls e = rw e (ground arith)

read_back :
    (v w : ℕ) (bytes : List ℕ)
    → ReadsAs bytes complete (Event.unsigned 1 v ∷ Event.signed 2 w ∷ [])
    → judge v w (feed State.new bytes) ≡ 0
read_back v w bytes (s, told, reference, tells, octets) =
    let (calls, p, q) = rw reference at (feed-Refines State.new bytes new-IsValid octets) in
    let same : visits calls default ≡ record { a = v; b = w } =
      sym (visits-expand_all calls default) ∙ ap (λ es. visits es default) (q ∙ tells) in
    rw p (judged v w s calls same)

signed_back :
    (v w : ℕ) (bytes : List ℕ) (t : Result Nothing × OStream Nothing)
    → 0 < length bytes
    → ReadsAs bytes complete (Event.unsigned 1 v ∷ Event.signed 2 w ∷ [])
    → Holds bytes (and_write t done)
    → after_signed v w t ≡ 0
signed_back v w bytes (ok u, os) h r (o, m, n) =
    let some_bytes : (os.offset == 0) ≡ false = ground arith in
    rw (some_bytes, m) (read_back v w bytes r)
signed_back v w bytes (err e, os) h r (o, m, n) = absurd (ground arith)

unsigned_back :
    (v w : ℕ) (bytes : List ℕ) (t : Result Nothing × OStream Nothing)
    → 0 < length bytes
    → ReadsAs bytes complete (Event.unsigned 1 v ∷ Event.signed 2 w ∷ [])
    → Holds bytes (and_write t (λ os. and_write (write_signed no_flush no_handoff 2 w os) done))
    → after_unsigned v w t ≡ 0
unsigned_back v w bytes (ok u, os) h r k =
    signed_back v w bytes (write_signed no_flush no_handoff 2 w os) h r k
unsigned_back v w bytes (err e, os) h r (o, m, n) = absurd (ground arith)

-- The program of baremetal.rs returns 0, for any two 64-bit values.
pub sofab_smoke_roundtrip_lem : (v w : ℕ) → v < 2 ^ 64 → w < 2 ^ 64 → sofab_smoke_roundtrip v w ≡ 0
unfolding sofab_smoke_roundtrip perform_all perform
sofab_smoke_roundtrip_lem v w h k =
    let size = scalars-size v w h k in
    let held =
      written-Holds (scalars v w) (replicate 32 0) (scalars_bytes v w) (0, []) (omega arith)
        (h, (k, tt)) (scalars-accepted v w) (omega (arith, size)) in
    let read = rw (scalars-told v w) at (
      spec_all-ReadsAs (scalars v w) (scalars_bytes v w) (0, []) (h, (k, tt)) (tt, (tt, tt))
        (scalars-accepted v w)) in
    unsigned_back v w (scalars_bytes v w)
      (write_unsigned no_flush no_handoff 1 v (new (replicate 32 0))) (omega (arith, size)) read
      held
