-- ===== src/Payload/Tests.antt =====
-- Runs of the accumulator.
use corelib_rs_no_std.Common.{joined, ◌≡◌, refl, arith, true, [], ◌∷◌, ◌++◌, List, ℕ, some, none}
use corelib_rs_no_std.Error.{ok}
use corelib_rs_no_std.Payload.{PayloadAcc, new, feed, append_chunk, deliver}
use corelib_rs_no_std.Payload.Assembly.{waits, deliver-joined}
use corelib_rs_no_std.Types.{ArrayKind, FixlenType}
use corelib_rs_no_std.IStream.State.{IStream, State}
use corelib_rs_no_std.IStream.Valid.{IsValid}
use corelib_rs_no_std.IStream.Deliver.{feed_chunks}
use corelib_rs_no_std.IStream.Progress.{finished}
use corelib_rs_no_std.Payload.Decoded.{Delivers, feed_chunks-answers_to}
use corelib_rs_no_std.Payload.Refusal.{refusals, deliver-refusals}

-- After a split payload of three bytes the accumulator still counts them as buffered.
split_payload : deliver 3 0 ((7 ∷ 8 ∷ []) ∷ (9 ∷ []) ∷ []) (new 4) ≡ (
  ok none ∷ ok (some (7 ∷ 8 ∷ 9 ∷ [])) ∷ [],
  record { buf = 7 ∷ 8 ∷ 9 ∷ 0 ∷ []; len = 3; complete = true },
)
unfolding deliver feed append_chunk
split_payload = refl

abbrev stale : PayloadAcc
stale = record { buf = 1 ∷ 2 ∷ 3 ∷ 4 ∷ []; len = 3; complete = true }

abbrev pieces : List (List ℕ)
pieces = (7 ∷ []) ∷ [] ∷ (8 ∷ []) ∷ []

deliver-joined_example :
    (deliver 3 0 (pieces ++ ((9 ∷ []) ∷ [])) stale).0
    ≡ waits pieces ++ (ok (some (joined pieces ++ (9 ∷ []))) ∷ [])
deliver-joined_example =
    deliver-joined 3 pieces (9 ∷ []) stale (omega arith) (omega arith) (omega arith)

deliver-refusals_example : (deliver 5 0 pieces stale).0 ≡ refusals pieces
deliver-refusals_example = deliver-refusals 5 pieces stale (omega arith)

-- A decoder at the start of a blob of three bytes.
abbrev expecting : IStream
expecting = record {
  core = record {
    acc = 0;
    shift = 0;
    state = State.fixlen_raw;
    array_kind = ArrayKind.unsigned;
    fixlen_type = FixlenType.blob;
    depth = 0;
  };
  id = 4;
  array_remaining = 0;
  fixlen_total = 3;
  fixlen_remaining = 3;
}

expecting-IsValid : IsValid expecting
expecting-IsValid = omega arith

abbrev arriving : List (List ℕ)
arriving = (7 ∷ []) ∷ [] ∷ (8 ∷ 9 ∷ []) ∷ []

feed_chunks-answers_to_example :
    Delivers (7 ∷ 8 ∷ 9 ∷ []) stale (finished expecting) (feed_chunks expecting arriving)
feed_chunks-answers_to_example =
    feed_chunks-answers_to expecting arriving stale expecting-IsValid refl refl
      ((omega arith, tt), (tt, ((omega arith, (omega arith, tt)), tt))) refl (omega arith)
