-- ===== src/IStream/FeedTests.antt =====
-- Runs of the decoder on a message in chunks, on a payload in two parts and on malformed input.
use corelib_rs_no_std.Common.{joined, ℕ, ◌-◌, ◌≡◌, refl, arith, List, ◌∷◌, [], some, All}
use corelib_rs_no_std.Types.{FixlenType}
use corelib_rs_no_std.Error.{ok, err, invalid_msg}
use corelib_rs_no_std.IStream.State.{Event, IStream, complete, new, State}
use corelib_rs_no_std.IStream.Step.{payload_chunk}
use corelib_rs_no_std.IStream.Feed.{feed, feed_loop}
use corelib_rs_no_std.IStream.Valid.{IsValid, new-IsValid}
use corelib_rs_no_std.IStream.FeedRun.{IsByte}
use corelib_rs_no_std.IStream.Chunks.{Refines, feed_bytewise}
use corelib_rs_no_std.IStream.Deliver.{Outcome, feed_chunks, feed_chunks-Refines}
use corelib_rs_no_std.IStream.Ends.{Agree, feed_loop_ends}
use corelib_rs_no_std.IStream.Protocol.{between, follow, phase_of}
use corelib_rs_no_std.IStream.InOrder.{InOrder, feed-InOrder}
use corelib_rs_no_std.IStream.Verdicts.{feed_chunks-latched, feed_chunks-complete}
use corelib_rs_no_std.IStream.Progress.{finished, feed_chunks-finishes, feed-overlong}

-- A string of three bytes in field 1, then a sequence around an unsigned value.
abbrev parts : List (List ℕ)
parts = (0x0a ∷ 0x1a ∷ 65 ∷ []) ∷ (66 ∷ 67 ∷ 0x16 ∷ 0x08 ∷ []) ∷ (5 ∷ 7 ∷ []) ∷ []

parts-IsByte : All (All IsByte) parts
parts-IsByte = (
  (omega arith, (omega arith, (omega arith, tt))),
  (
    (omega arith, (omega arith, (omega arith, (omega arith, tt)))),
    ((omega arith, (omega arith, tt)), tt),
  ),
)

abbrev parts_decoder : IStream
parts_decoder = record new {
  core = record new.core { fixlen_type = FixlenType.str };
  fixlen_total = 3;
}

abbrev parts_calls : List Event
parts_calls =
    Event.fixlen_begin 1 FixlenType.str 3
    ∷ Event.string 1 3 0 (65 ∷ [])
    ∷ Event.string 1 3 1 (66 ∷ 67 ∷ [])
    ∷ Event.sequence_begin 2
    ∷ Event.unsigned 1 5
    ∷ Event.sequence_end
    ∷ []

parts_fed : feed_chunks new parts ≡ some (ok complete, parts_decoder, parts_calls)
unfolding feed_chunks feed
parts_fed = refl

feed_chunks-Refines_example : Refines (feed_chunks new parts) (feed_bytewise new (joined parts))
feed_chunks-Refines_example = feed_chunks-Refines parts new new-IsValid parts-IsByte

feed_chunks-complete_example : follow (0, between) parts_calls ≡ some (0, between)
feed_chunks-complete_example =
    feed_chunks-complete parts parts_decoder parts_calls parts-IsByte parts_fed

abbrev half : List ℕ
half = 0x16 ∷ 0x0a ∷ 0x1a ∷ 65 ∷ []

half-IsByte : All IsByte half
half-IsByte = (omega arith, (omega arith, (omega arith, (omega arith, tt))))

feed-InOrder_example : (o : Outcome) × (feed new half ≡ some o) × InOrder (phase_of new) o
feed-InOrder_example = feed-InOrder new half new-IsValid half-IsByte

-- The wire type 7 closes a sequence that is not open.
abbrev stray : List ℕ
stray = 0x08 ∷ 5 ∷ 7 ∷ []

abbrev stray_decoder : IStream
stray_decoder = record new { core = record new.core { state = State.invalid } }

stray_fed : feed new stray ≡ some (err invalid_msg, stray_decoder, Event.unsigned 1 5 ∷ [])
unfolding feed
stray_fed = refl

feed_chunks-latched_example :
    feed_chunks stray_decoder parts ≡ some (err invalid_msg, stray_decoder, [])
feed_chunks-latched_example =
    feed_chunks-latched new stray_decoder stray invalid_msg (Event.unsigned 1 5 ∷ []) parts
      new-IsValid (omega arith, (omega arith, (omega arith, tt))) stray_fed

-- In a blob of three bytes that owes two.
abbrev owing : IStream
owing = record {
  core = record new.core { state = State.fixlen_raw };
  id = 4;
  array_remaining = 0;
  fixlen_total = 3;
  fixlen_remaining = 2;
}

owing-IsValid : IsValid owing
owing-IsValid = omega arith

abbrev owed_parts : List (List ℕ)
owed_parts = (1 ∷ []) ∷ [] ∷ (2 ∷ []) ∷ []

feed_chunks-finishes_example :
    Refines
      (feed_chunks owing owed_parts)
      (ok complete, finished owing, payload_chunk owing (3 - 2) (1 ∷ 2 ∷ []) ∷ [])
feed_chunks-finishes_example =
    feed_chunks-finishes owing owed_parts owing-IsValid refl
      ((omega arith, tt), (tt, ((omega arith, tt), tt))) refl

abbrev endless : List ℕ
endless = 200 ∷ 128 ∷ 128 ∷ 128 ∷ 128 ∷ 128 ∷ 128 ∷ 128 ∷ 128 ∷ 129 ∷ []

feed-overlong_example : (s' : IStream) × (feed new endless ≡ some (err invalid_msg, s', []))
feed-overlong_example =
    feed-overlong new endless new-IsValid (λ e. ground arith) (λ e. ground arith) (omega arith)
      (omega arith)

abbrev first_part : List ℕ
first_part = 0x0a ∷ 0x1a ∷ 65 ∷ []

-- The loop on the first chunk, with more fuel than it needs.
feed_loop_ends_example : Agree (feed_loop 7 new first_part) (feed_loop 20 new first_part)
feed_loop_ends_example = feed_loop_ends new first_part 20 (omega arith)
