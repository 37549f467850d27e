-- ===== src/RoundTrip/Message.antt =====
-- src/istream.rs behind src/ostream.rs: what a client encodes is what a visitor is told.
use corelib_rs_no_std.Common.{
  joined, ℕ, ◌≡◌, ◌≢◌, refl, ap, ◌∙◌, arith, true, if◌then◌else◌, ◌==◌, List, [], ◌∷◌, ◌++◌, Option,
  some, All,
}
use corelib_rs_no_std.Error.{Result, ok}
use corelib_rs_no_std.IStream.State.{State, IStream, Event, Status, complete, incomplete, new}
use corelib_rs_no_std.IStream.Feed.{verdict}
use corelib_rs_no_std.IStream.Valid.{new-IsValid}
use corelib_rs_no_std.IStream.Bytewise.{expand_all}
use corelib_rs_no_std.IStream.FeedRun.{IsByte}
use corelib_rs_no_std.IStream.Chunks.{feed_bytewise, feed_live}
use corelib_rs_no_std.IStream.Deliver.{feed_chunks, feed_chunks-Refines}
use corelib_rs_no_std.OStream.Handover.{Flush, Handoff}
use corelib_rs_no_std.OStream.Stream.{OStream, flush}
use corelib_rs_no_std.OStream.Wrote.{View, Keeps, IsValid, emitted, frames}
use corelib_rs_no_std.OStream.Flushing.{flush-HandedOver}
use corelib_rs_no_std.OStream.Spec.{Op, Frames, InRange, spec_all}
use corelib_rs_no_std.OStream.Perform.{perform_all}
use corelib_rs_no_std.OStream.Refine.{perform_all_streams}
use corelib_rs_no_std.RoundTrip.Boundary.{Rests, rests}
use corelib_rs_no_std.RoundTrip.Told.{told_all, Sized}
use corelib_rs_no_std.RoundTrip.Messages.{IsSound, framed, Tells}
use corelib_rs_no_std.RoundTrip.Calls.{every-Tells}

-- The verdict on a message that leaves `depth` sequences open.
abbrev pub status_of : ℕ → Status
status_of depth = if depth == 0 then complete else incomplete

-- The decoder takes a message without an error, and tells `events`, payloads byte by byte.
abbrev pub Accepts : Option (Result Status × IStream × List Event) → Status → List Event → Type 0
Accepts o status events =
    (s : IStream) × (calls : List Event) × (o ≡ some (ok status, s, calls))
    × (expand_all calls ≡ expand_all events)

verdict-Rests : (d : ℕ) (s : IStream) → Rests d s → verdict s ≡ status_of d
verdict-Rests d s r = rw (r.is) (ground arith)

front_bytes : (xs ys : List ℕ) → All IsByte (xs ++ ys) → All IsByte xs × All IsByte ys
front_bytes [] ys a = (tt, a)
front_bytes (x ∷ xs) ys a = let (p, q) = front_bytes xs ys a.1 in ((a.0, p), q)

chunk_bytes : (cs : List (List ℕ)) → All IsByte (joined cs) → All (All IsByte) cs
chunk_bytes [] a = tt
chunk_bytes (c ∷ cs) a = let (p, q) = front_bytes c (joined cs) a in (p, chunk_bytes cs q)

-- The same of the bytewise decoder, on bytes.
abbrev pub ReadsAs : List ℕ → Status → List Event → Type 0
ReadsAs bytes status events =
    (s : IStream) × (calls : List Event) × (feed_bytewise new bytes ≡ (ok status, s, calls))
    × (expand_all calls ≡ expand_all events)
    × All IsByte bytes

pub spec_all-ReadsAs :
    (ops : List Op) (bytes : List ℕ) (fr : Frames)
    → All InRange ops
    → All Sized ops
    → spec_all ops (0, []) ≡ ok (bytes, fr)
    → ReadsAs bytes (status_of (framed fr)) (told_all ops (0, []))
spec_all-ReadsAs ops bytes fr r z e =
    let sound : IsSound (0, []) = record { held = omega arith; bounded = omega arith; ids = tt } in
    let read : Tells (0, []) (ok (bytes, fr)) (told_all ops (0, [])) =
      rw e at (every-Tells ops (0, []) sound r z) in
    let (s, rested, l) = read.0 new (rests new.core.array_kind new.core.fixlen_type 0 0 0 0) in
    let live : new.core.state ≢ State.invalid = ground arith in
    (
      s,
      l.calls,
      rw (feed_live new bytes live, l.runs, verdict-Rests (framed fr) s rested) refl,
      l.tells,
      l.octets,
    )

-- The calls of a client, with arguments in range and floats of the right size, that `spec_all` accepts
-- describe a message that a fresh decoder takes, in any chunks: the verdict is `complete` exactly
-- if no framed sequence is left open, and the visitor is told those calls, but for the division of
-- payloads into chunks.
pub feed_chunks-spec_all :
    (ops : List Op) (bytes : List ℕ) (fr : Frames) (chunks : List (List ℕ))
    → All InRange ops
    → All Sized ops
    → spec_all ops (0, []) ≡ ok (bytes, fr)
    → joined chunks ≡ bytes
    → Accepts (feed_chunks new chunks) (status_of (framed fr)) (told_all ops (0, []))
feed_chunks-spec_all ops bytes fr chunks r z e j =
    let (s, read, reference, tells, octets) = spec_all-ReadsAs ops bytes fr r z e in
    let whole = feed_chunks-Refines chunks new new-IsValid (chunk_bytes chunks (rw j octets)) in
    let (calls, p, q) = rw (j, reference) at whole in (s, calls, p, q ∙ tells)

module _ {S : Type 0} (F : Flush S) (H : Handoff S) (seen : View S) (K : Keeps F H seen) where
  -- From a valid encoder with nothing emitted, outside every sequence, and a sink that keeps the
  -- bytes: after a run of calls, with arguments in range and floats of the right size, that `spec_all`
  -- accepts, and a `flush`, a fresh decoder that is fed what the sink has sent, in any chunks, takes
  -- it, with the verdict `complete` exactly if no framed sequence is left open, and tells its visitor
  -- those calls, but for the division of payloads into chunks.
  pub feed_chunks-perform_all :
      (ops : List Op) (s : OStream S) (bytes : List ℕ) (fr : Frames) (chunks : List (List ℕ))
      → IsValid F seen s
      → F.sinks ≡ true
      → emitted F seen s ≡ []
      → frames F seen s ≡ (0, [])
      → All InRange ops
      → All Sized ops
      → spec_all ops (0, []) ≡ ok (bytes, fr)
      → joined chunks ≡ seen.sent (flush F H (perform_all F H ops s).1).1.env
      → Accepts (feed_chunks new chunks) (status_of (framed fr)) (told_all ops (0, []))
  feed_chunks-perform_all ops s bytes fr chunks v on nothing outside r z e j =
      let done =
        perform_all_streams F H seen K ops s bytes fr v r on (ap (spec_all ops) outside ∙ e) in
      let handed = flush-HandedOver F H seen K (perform_all F H ops s).1 done.2 on in
      feed_chunks-spec_all ops bytes fr chunks r z e
        (j ∙ handed.3 ∙ done.1 ∙ ap (λ (l : List ℕ). l ++ bytes) nothing)
