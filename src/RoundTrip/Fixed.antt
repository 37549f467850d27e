-- ===== src/RoundTrip/Fixed.antt =====
-- src/ostream.rs and src/istream.rs: a message in one buffer of the caller, without a sink.
use corelib_rs_no_std.Common.{
  joined, ℕ, ◌^◌, ◌≡◌, ◌∙◌, ◌≤◌, ◌<◌, refl, arith, List, [], length, take, All,
}
use corelib_rs_no_std.Error.{Result, ok, Nothing}
use corelib_rs_no_std.IStream.State
use corelib_rs_no_std.IStream.Deliver.{feed_chunks}
use corelib_rs_no_std.OStream.Handover.{no_flush, no_handoff}
use corelib_rs_no_std.OStream.Stream.{OStream, new, bytes_used}
use corelib_rs_no_std.OStream.Wrote.{View, all_sent, Keeps, IsValid, Wrote, whole, cut}
use corelib_rs_no_std.OStream.Construct.{fresh-IsValid}
use corelib_rs_no_std.OStream.Spec.{Op, Frames, InRange, spec_all}
use corelib_rs_no_std.OStream.Perform.{perform_all}
use corelib_rs_no_std.OStream.Refine.{perform_all_refines}
use corelib_rs_no_std.RoundTrip.Told.{told_all, Sized}
use corelib_rs_no_std.RoundTrip.Messages.{framed}
use corelib_rs_no_std.RoundTrip.Message.{Accepts, status_of, feed_chunks-spec_all}

abbrev nothing_sent : View Nothing
nothing_sent = all_sent (λ s. [])

nothing-Keeps : Keeps no_flush no_handoff nothing_sent
nothing-Keeps = record { hands = λ q. absurd (ground arith) }

-- `OStream::new(buffer)` and the calls of a client.
abbrev pub written : List Op → List ℕ → Result Nothing × OStream Nothing
written ops buffer = perform_all no_flush no_handoff ops (new buffer)

-- `&buffer[..os.bytes_used()]`
abbrev pub message : OStream Nothing → List ℕ
message s = take (bytes_used s) s.buffer

new-IsValid :
    (buffer : List ℕ) → length buffer < 2 ^ 63 → IsValid no_flush nothing_sent (new buffer)
unfolding new
new-IsValid buffer h =
    fresh-IsValid no_flush nothing_sent buffer 0 tt h (omega arith) (λ q. absurd (ground arith))
      (omega arith) tt

-- Every call succeeded, and the buffer holds the message.
abbrev pub Holds : List ℕ → Result Nothing × OStream Nothing → Type 0
Holds bytes t = (t.0 ≡ ok tt) × (message t.1 ≡ bytes) × (bytes_used t.1 ≡ length bytes)

holds :
    (buffer bytes : List ℕ) (fr : Frames) (t : Result Nothing × OStream Nothing)
    → length bytes ≤ length buffer
    → Wrote no_flush nothing_sent (new buffer) fr bytes t
    → Holds bytes t
unfolding new
holds buffer bytes fr t h (whole v e f room) = (refl, e, omega (arith, room refl))
holds buffer bytes fr t h (cut front back p e v q over) = absurd (omega arith)

-- Calls with arguments in range, that the specification accepts and whose message fits a buffer of less than
-- 2 ^ 63 bytes: an encoder without a sink takes them all, and its buffer up to `bytes_used` is the
-- message.
pub written-Holds :
    (ops : List Op) (buffer bytes : List ℕ) (fr : Frames)
    → length buffer < 2 ^ 63
    → All InRange ops
    → spec_all ops (0, []) ≡ ok (bytes, fr)
    → length bytes ≤ length buffer
    → Holds bytes (written ops buffer)
written-Holds ops buffer bytes fr h r e fit = holds buffer bytes fr _ fit (
    perform_all_refines no_flush no_handoff nothing_sent nothing-Keeps ops (new buffer) bytes fr
      (new-IsValid buffer h) r (unfold new in e))

-- Calls with arguments in range and floats of the right size, that the specification accepts and whose
-- message fits a buffer of less than 2 ^ 63 bytes: an encoder without a sink takes them all, and a
-- fresh decoder that is fed its buffer up to `bytes_used`, in any chunks, takes it without an error,
-- with `complete` exactly if no framed sequence is left open, and tells its visitor those calls but
-- for the division of payloads into chunks.
pub feed_chunks-written :
    (ops : List Op) (buffer bytes : List ℕ) (fr : Frames) (chunks : List (List ℕ))
    → length buffer < 2 ^ 63
    → All InRange ops
    → All Sized ops
    → spec_all ops (0, []) ≡ ok (bytes, fr)
    → length bytes ≤ length buffer
    → joined chunks ≡ message (written ops buffer).1
    → ((written ops buffer).0 ≡ ok tt)
      × Accepts (feed_chunks State.new chunks) (status_of (framed fr)) (told_all ops (0, []))
feed_chunks-written ops buffer bytes fr chunks h r z e fit j =
    let held = written-Holds ops buffer bytes fr h r e fit in
    (held.0, feed_chunks-spec_all ops bytes fr chunks r z e (j ∙ held.1))
