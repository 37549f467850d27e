-- ===== src/RoundTrip/Tests.antt =====
-- A message of the encoder, in buffers of two bytes behind a reserved header, read back in three chunks.
use corelib_rs_no_std.Common.{
  none, drop, replicate, ℕ, ◌≡◌, refl, sym, ◌∙◌, arith, true, List, [], ◌∷◌, ◌++◌, All,
}
use corelib_rs_no_std.Error.{ok}
use corelib_rs_no_std.Varint.Groups.{groups, varint}
use corelib_rs_no_std.IStream.State.{complete, new}
use corelib_rs_no_std.IStream.Deliver.{feed_chunks}
use corelib_rs_no_std.OStream.Handover.{
  Flush, Handover, new_handover, install, check_install, by_handover,
}
use corelib_rs_no_std.OStream.Stream.{OStream, build, flush}
use corelib_rs_no_std.OStream.Wrote.{View, Keeps, IsValid}
use corelib_rs_no_std.OStream.Construct.{fresh-IsValid}
use corelib_rs_no_std.OStream.Spec.{Op, InRange, spec, spec_all}
use corelib_rs_no_std.OStream.Perform.{perform_all}
use corelib_rs_no_std.OStream.Refine.{perform_all_streams}
use corelib_rs_no_std.OStream.Flushing.{flush-HandedOver}
use corelib_rs_no_std.RoundTrip.Told.{told_all, Sized}
use corelib_rs_no_std.RoundTrip.Fixed.{message, written, written-Holds, feed_chunks-written}
use corelib_rs_no_std.RoundTrip.Message.{Accepts, feed_chunks-spec_all, feed_chunks-perform_all}

-- A sink that takes every buffer, and installs one with two bytes reserved in front of two more. It
-- keeps what is behind the reserved bytes.
abbrev spare : List ℕ
spare = 0 ∷ 0 ∷ 0 ∷ 0 ∷ []

abbrev taking : Flush (Handover × List ℕ)
taking = record { sinks = true; flush = λ bytes s. ((install spare 2 s.0).1, s.1 ++ drop 2 bytes) }

abbrev behind_headers : View (Handover × List ℕ)
behind_headers = record { sent = λ s. s.1; reserved = λ s. 2; Good = λ s. s.0.next ≡ none }

taking-Keeps : Keeps taking by_handover behind_headers
unfolding install check_install
taking-Keeps = record {
  hands = λ q unit old s good room. (refl, refl, (refl, omega arith, omega arith));
}

abbrev two_bytes : OStream (Handover × List ℕ)
two_bytes = build spare 2 (new_handover, [])

two_bytes-IsValid : IsValid taking behind_headers two_bytes
two_bytes-IsValid =
    fresh-IsValid taking behind_headers spare 2 (new_handover, []) (omega arith) (omega arith)
      (λ q. omega arith) (omega arith) refl

-- A sequence around a number and a text, then an array behind it.
abbrev sent : List Op
sent =
    Op.sequence_begin 1
    ∷ Op.unsigned 2 300
    ∷ Op.str 3 (104 ∷ 105 ∷ [])
    ∷ Op.sequence_end
    ∷ Op.array_unsigned 4 (7 ∷ 8 ∷ [])
    ∷ []

abbrev sent_bytes : List ℕ
sent_bytes = 14 ∷ 16 ∷ 172 ∷ 2 ∷ 26 ∷ 18 ∷ 104 ∷ 105 ∷ 7 ∷ 35 ∷ 2 ∷ 7 ∷ 8 ∷ []

abbrev sent_chunks : List (List ℕ)
sent_chunks = (14 ∷ 16 ∷ 172 ∷ []) ∷ (2 ∷ 26 ∷ 18 ∷ 104 ∷ []) ∷ (105 ∷ 7 ∷ 35 ∷ 2 ∷ 7 ∷ 8 ∷ []) ∷ []

sent-InRange : All InRange sent
sent-InRange = (
  tt,
  (
    omega arith,
    (
      ((omega arith, (omega arith, tt)), omega arith),
      (tt, (((omega arith, (omega arith, tt)), omega arith), tt)),
    ),
  ),
)

sent-Sized : All Sized sent
sent-Sized = (tt, (tt, (tt, (tt, (tt, tt)))))

sent_accepted : spec_all sent (0, []) ≡ ok (sent_bytes, (0, []))
unfolding spec_all spec varint groups
sent_accepted = refl

feed_chunks-spec_all_example :
    Accepts (feed_chunks new sent_chunks) complete (told_all sent (0, []))
feed_chunks-spec_all_example =
    feed_chunks-spec_all sent sent_bytes (0, []) sent_chunks sent-InRange sent-Sized sent_accepted
      refl

-- What the sink is handed is the message.
sent_whole :
    sent_bytes
    ≡ (flush taking by_handover (perform_all taking by_handover sent two_bytes).1).1.env.1
sent_whole =
    let done =
      perform_all_streams taking by_handover behind_headers taking-Keeps sent two_bytes sent_bytes
        (0, []) two_bytes-IsValid sent-InRange refl sent_accepted in
    let handed =
      flush-HandedOver taking by_handover behind_headers taking-Keeps
        (perform_all taking by_handover sent two_bytes).1 done.2 refl in
    sym (handed.3 ∙ done.1)

feed_chunks-perform_all_example :
    Accepts (feed_chunks new sent_chunks) complete (told_all sent (0, []))
feed_chunks-perform_all_example =
    feed_chunks-perform_all taking by_handover behind_headers taking-Keeps sent two_bytes sent_bytes
      (0, []) sent_chunks two_bytes-IsValid refl refl refl sent-InRange sent-Sized sent_accepted
      sent_whole

abbrev wide : List ℕ
wide = replicate 16 0

-- The buffer of an encoder without a sink holds the message.
written_whole : sent_bytes ≡ message (written sent wide).1
written_whole = sym (
    (written-Holds sent wide sent_bytes (0, []) (omega arith) sent-InRange sent_accepted
      (omega arith)).1)

feed_chunks-written_example :
    ((written sent wide).0 ≡ ok tt)
    × Accepts (feed_chunks new sent_chunks) complete (told_all sent (0, []))
feed_chunks-written_example =
    feed_chunks-written sent wide sent_bytes (0, []) sent_chunks (omega arith) sent-InRange
      sent-Sized sent_accepted (omega arith) written_whole
