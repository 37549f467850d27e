-- ===== src/Build/Tests.antt =====
-- A build without arrays, sequences and `fp64`, on small messages.
use corelib_rs_no_std.Common.{ℕ, ◌≡◌, refl, true, false, List, [], ◌∷◌, some}
use corelib_rs_no_std.Error.{ok, err, invalid_msg}
use corelib_rs_no_std.Types.{FixlenType}
use corelib_rs_no_std.IStream.State.{State, IStream, Event, complete, new, set_state}
use corelib_rs_no_std.IStream.Feed.{feed}
use corelib_rs_no_std.Build.{Config, Wire, config, wire, Capability, require}
use corelib_rs_no_std.Build.Decoder.{feed_in}
use corelib_rs_no_std.Build.Narrower.{Narrows, feed_in-Narrows}
use corelib_rs_no_std.Build.Within.{Within, feed_in-Within, new-InBuild}
use corelib_rs_no_std.Build.Required.{all_needs, feed_in_required}

abbrev small_build : Config
small_build =
    config (record { fixlen = true; array = false; sequence = false; fp64 = false; value64 = true })

abbrev small_wire : Wire
small_wire = wire small_build

-- A number, then a text.
abbrev plain : List ℕ
plain = 8 ∷ 42 ∷ 26 ∷ 18 ∷ 104 ∷ 105 ∷ []

abbrev plain_calls : List Event
plain_calls =
    Event.unsigned 1 42
    ∷ Event.fixlen_begin 3 FixlenType.str 2
    ∷ Event.string 3 2 0 (104 ∷ 105 ∷ [])
    ∷ []

abbrev plain_end : IStream
plain_end = record new {
  core = record new.core { fixlen_type = FixlenType.str };
  id = 3;
  fixlen_total = 2;
}

plain_read : feed new plain ≡ some (ok complete, plain_end, plain_calls)
unfolding feed
plain_read = refl

-- A number, then a sequence.
abbrev nested : List ℕ
nested = 8 ∷ 42 ∷ 14 ∷ 7 ∷ []

nested_refused :
    feed_in small_wire new nested
    ≡ some
        (err invalid_msg, record (set_state new State.invalid) { id = 1 }, Event.unsigned 1 42 ∷ [])
unfolding feed_in
nested_refused = refl

needed : require (Capability.value64 ∷ all_needs plain_calls) small_build ≡ true
unfolding require
needed = refl

feed_in-Narrows_example : Narrows (feed_in small_wire new nested) (feed new nested)
feed_in-Narrows_example = feed_in-Narrows small_wire new nested

feed_in-Within_example : Within small_wire (feed_in small_wire new nested)
feed_in-Within_example = feed_in-Within small_wire new nested (new-InBuild small_wire)

feed_in_required_example : feed_in small_wire new plain ≡ some (ok complete, plain_end, plain_calls)
feed_in_required_example =
    feed_in_required small_build new plain_end plain plain_calls needed plain_read
