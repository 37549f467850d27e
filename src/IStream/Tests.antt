-- ===== src/IStream/Tests.antt =====
-- Runs of the decoder on small inputs.
use corelib_rs_no_std.Common.{ℕ, ◌≡◌, refl, arith, List, ◌∷◌, [], ◌++◌, some, All}
use corelib_rs_no_std.Types.{FixlenType}
use corelib_rs_no_std.Varint.{zigzag_decode}
use corelib_rs_no_std.Error.{Result, ok}
use corelib_rs_no_std.IStream.State.{
  Event, IStream, Status, complete, incomplete, new, set_state, State,
}
use corelib_rs_no_std.IStream.Push.{payload_at, payload_at_halves, push}
use corelib_rs_no_std.IStream.Step.{step}
use corelib_rs_no_std.IStream.Feed.{feed}
use corelib_rs_no_std.IStream.Digit.{push_lem}
use corelib_rs_no_std.IStream.Halves.{halves_agree}
use corelib_rs_no_std.IStream.Valid.{new-IsValid}
use corelib_rs_no_std.IStream.Preserve.{Keeps, step-Keeps}
use corelib_rs_no_std.IStream.FeedRun.{IsByte}
use corelib_rs_no_std.IStream.Chunks.{Refines, feed_bytewise, feed-Refines}
use corelib_rs_no_std.IStream.Interface.{Verdict, feed-Verdict, feed-append}

two_scalars :
    feed new (0x08 ∷ 42 ∷ 0x11 ∷ 13 ∷ [])
    ≡ some (
      ok complete,
      record new { id = 2 },
      Event.unsigned 1 42 ∷ Event.signed 2 (0xffff_ffff_ffff_fff9) ∷ [],
    )
unfolding feed zigzag_decode
two_scalars = refl

a_string_cut :
    feed new (0x0a ∷ 0x1a ∷ 65 ∷ 66 ∷ [])
    ≡ some (
      ok incomplete,
      record (set_state new State.fixlen_raw) {
        core = record new.core { state = State.fixlen_raw; fixlen_type = FixlenType.str };
        id = 1;
        fixlen_total = 3;
        fixlen_remaining = 1;
      },
      Event.fixlen_begin 1 FixlenType.str 3 ∷ Event.string 1 3 0 (65 ∷ 66 ∷ []) ∷ [],
    )
unfolding feed zigzag_decode
a_string_cut = refl

-- A field header, an unsigned value of two bytes, and a string of two bytes.
abbrev front : List ℕ
front = 0x08 ∷ 0xac ∷ []

abbrev back : List ℕ
back = 0x02 ∷ 0x0a ∷ 0x12 ∷ 65 ∷ 66 ∷ []

abbrev cut_decoder : IStream
cut_decoder = record new {
  core = record new.core { acc = 44; shift = 7; state = State.varint_unsigned };
  id = 1;
}

front_fed : feed new front ≡ some (ok incomplete, cut_decoder, [])
unfolding feed
front_fed = refl

back_fed :
    feed cut_decoder back
    ≡ some (
      ok complete,
      record new {
        core = record new.core { fixlen_type = FixlenType.str };
        id = 1;
        fixlen_total = 2;
      },
      Event.unsigned 1 300
          ∷ Event.fixlen_begin 1 FixlenType.str 2
          ∷ Event.string 1 2 0 (65 ∷ 66 ∷ [])
          ∷ [],
    )
unfolding feed
back_fed = refl

front_bytes : All IsByte front
front_bytes = (omega arith, (omega arith, tt))

back_bytes : All IsByte back
back_bytes = (omega arith, (omega arith, (omega arith, (omega arith, (omega arith, tt)))))

feed-append_example : Refines (feed new (front ++ back)) (
  ok complete,
  record new { core = record new.core { fixlen_type = FixlenType.str }; id = 1; fixlen_total = 2 },
  []
      ++ (Event.unsigned 1 300
          ∷ Event.fixlen_begin 1 FixlenType.str 2
          ∷ Event.string 1 2 0 (65 ∷ 66 ∷ [])
          ∷ []),
)
feed-append_example =
    feed-append new front back new-IsValid front_bytes back_bytes front_fed back_fed

feed-Refines_example : Refines (feed new back) (feed_bytewise new back)
feed-Refines_example = feed-Refines new back new-IsValid back_bytes

feed-Verdict_example :
    (o : Result Status × IStream × List Event) × (feed new back ≡ some o) × Verdict o
feed-Verdict_example = feed-Verdict new back new-IsValid back_bytes

step-Keeps_example : Keeps (step new 0x0a)
step-Keeps_example =
    step-Keeps new 0x0a new-IsValid (λ e. ground arith) (λ e. ground arith) (omega arith)

halves_agree_example : payload_at_halves 127 60 ≡ payload_at 127 60
halves_agree_example = halves_agree 127 60 (omega arith) (omega arith)

push_lem_example : push new.core 0x88 ≡ (8, record new.core { acc = 8; shift = 7 })
push_lem_example =
    push_lem new.core 0x88 (record { sevens = refl; short = omega arith; fits = omega arith })
      (omega arith)
