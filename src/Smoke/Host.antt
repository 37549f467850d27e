-- ===== src/Smoke/Host.antt =====
-- .github/smoke/roundtrip.rs: `main`, for any two values and any text. The program of the source takes
-- 42, -7 and "hi". `none` is a panic: an `expect` or an assertion that fails.
use corelib_rs_no_std.Common.{
  ℕ, ◌==◌, if◌then◌else◌, not, ◌&&◌, Bool, true, false, List, [], ◌∷◌, length, replicate, take,
  Option, none, some,
}
use corelib_rs_no_std.Error.{Result, ok, err, Nothing}
use corelib_rs_no_std.Floats.{all_same}
use corelib_rs_no_std.IStream.State
use corelib_rs_no_std.IStream.State.{IStream, Status, complete, incomplete}
use corelib_rs_no_std.IStream.Feed.{feed}
use corelib_rs_no_std.IStream.Deliver.{Outcome}
use corelib_rs_no_std.OStream.Handover.{no_flush, no_handoff}
use corelib_rs_no_std.OStream.Stream.{OStream, new, bytes_used}
use corelib_rs_no_std.OStream.Fields.{write_unsigned, write_signed, write_str}
use corelib_rs_no_std.Smoke.Probe.{Probe, default, visits, and_visit}

-- `expect`, and the call behind it.
abbrev pub expect :
    {A : Type 0} → Result Nothing × OStream Nothing → (OStream Nothing → Option A) → Option A
expect (ok u, os) k = k os
expect (err e, os) k = none

-- An assertion, and the code behind it.
abbrev pub check : {A : Type 0} → Bool → Option A → Option A
check b k = if b then k else none

-- `==` on slices.
abbrev pub same_slice : List ℕ → List ℕ → Bool
same_slice a b = (length a == length b) && all_same a b

-- `&probe.s[..probe.s_len]`
abbrev pub text_of : Probe → List ℕ
text_of p = take p.s_len p.s

-- The whole message in one `feed`.
abbrev pub decoded : Option Outcome → Option Probe
decoded (some (ok Status.complete, s, calls)) = visits calls default
decoded _ = none

-- The outcome of one byte: the decoder and the probe behind it, `last` for the last one.
abbrev pub suspended :
    Bool → Probe → Option Outcome → (IStream → Probe → Option Probe) → Option Probe
suspended last p (some (ok Status.complete, s, calls)) k = and_visit (visits calls p) (k s)
suspended last p (some (ok Status.incomplete, s, calls)) k =
    if last then none else and_visit (visits calls p) (k s)
suspended last p _ k = none

abbrev is_last : List ℕ → Bool
is_last [] = true
is_last (b ∷ bs) = false

-- The loop over the bytes of the message.
unfoldable pub feed_each : IStream → Probe → List ℕ → Option Probe
unfolding feed
feed_each is p [] = some p
feed_each is p (b ∷ bs) =
    suspended (is_last bs) p (feed is (b ∷ [])) (λ is' p'. feed_each is' p' bs)

-- What is asserted of the second probe, and of the first.
abbrev pub agree : Probe → Option Probe → Option Nothing
agree probe none = none
agree probe (some chunked) =
    check (chunked.a == probe.a) (
      check (chunked.b == probe.b) (check (same_slice (text_of chunked) (text_of probe)) (some tt)))

unfoldable pub compare : ℕ → ℕ → List ℕ → List ℕ → Option Probe → Option Nothing
unfolding feed_each
compare v w text wire none = none
compare v w text wire (some probe) = check (probe.a == v) (
    check (probe.b == w)
      (check (same_slice (text_of probe) text) (agree probe (feed_each State.new default wire))))

-- Both decodings of the bytes that the encoder has put into its buffer.
unfoldable pub decode_both : ℕ → ℕ → List ℕ → OStream Nothing → Option Nothing
unfolding compare feed
decode_both v w text os =
    let wire = take (bytes_used os) os.buffer in
    check (not (length wire == 0)) (compare v w text wire (decoded (feed State.new wire)))

unfoldable pub main : ℕ → ℕ → List ℕ → Option Nothing
unfolding write_unsigned write_signed write_str decode_both
main v w text = expect (write_unsigned no_flush no_handoff 1 v (new (replicate 64 0))) (λ os.
    expect (write_signed no_flush no_handoff 2 w os)
      (λ os'. expect (write_str no_flush no_handoff 3 text os') (decode_both v w text)))
