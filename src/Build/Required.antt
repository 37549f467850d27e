-- ===== src/Build/Required.antt =====
-- src/lib.rs and src/istream.rs: a client's `require!` and the messages that it receives.
use corelib_rs_no_std.Common.{ℕ, ◌≡◌, refl, arith, true, ◌&&◌, List, [], ◌∷◌, ◌++◌, some, All}
use corelib_rs_no_std.Error.{ok}
use corelib_rs_no_std.Types.{FixlenType, ArrayKind}
use corelib_rs_no_std.IStream.State.{IStream, Event, complete}
use corelib_rs_no_std.IStream.Feed.{feed}
use corelib_rs_no_std.Build.{Config, wire, Capability, require_one, require}
use corelib_rs_no_std.Build.Decoder.{feed_in}
use corelib_rs_no_std.Build.Compiled.{has}
use corelib_rs_no_std.Build.Enough.{feed_in_enough}

-- The capabilities behind a callback.
abbrev pub needs : Event → List Capability
needs (Event.unsigned id v) = []
needs (Event.signed id v) = []
needs (Event.fp32 id v) = Capability.fixlen ∷ []
needs (Event.fp64 id v) = Capability.fixlen ∷ Capability.fp64 ∷ []
needs (Event.string id total offset chunk) = Capability.fixlen ∷ []
needs (Event.blob id total offset chunk) = Capability.fixlen ∷ []
needs (Event.fixlen_begin id FixlenType.fp64 total) = Capability.fixlen ∷ Capability.fp64 ∷ []
needs (Event.fixlen_begin id _ total) = Capability.fixlen ∷ []
needs (Event.array_begin id ArrayKind.fp32 count) = Capability.array ∷ Capability.fixlen ∷ []
needs (Event.array_begin id ArrayKind.fp64 count) =
    Capability.array ∷ Capability.fixlen ∷ Capability.fp64 ∷ []
needs (Event.array_begin id _ count) = Capability.array ∷ []
needs (Event.sequence_begin id) = Capability.sequence ∷ []
needs Event.sequence_end = Capability.sequence ∷ []

abbrev pub all_needs : List Event → List Capability
all_needs [] = []
all_needs (e ∷ es) = needs e ++ all_needs es

require-append :
    (xs ys : List Capability) (c : Config) → require (xs ++ ys) c ≡ (require xs c && require ys c)
unfolding require
require-append [] ys c = refl
require-append (x ∷ xs) ys c = let e = require-append xs ys c in ground arith

required_rest :
    (cap : Capability) (caps : List Capability) (c : Config)
    → require (cap ∷ caps) c ≡ true
    → require caps c ≡ true
unfolding require
required_rest cap caps c h = ground arith

required-has : (c : Config) (e : Event) → require (needs e) c ≡ true → has (wire c) e ≡ true
unfolding require require_one
required-has c e h = ground arith

required-has_every :
    (c : Config) (es : List Event)
    → require (all_needs es) c ≡ true
    → All (λ e. has (wire c) e ≡ true) es
required-has_every c [] h = tt
required-has_every c (e ∷ es) h =
    let split = require-append (needs e) (all_needs es) c in
    (required-has c e (ground arith), required-has_every c es (ground arith))

-- A client whose `require!` names `value64` and what a message calls the visitor for, and an input that
-- the default build finds to be such a message, complete: in every build that the client compiles
-- with, the input has the same outcome, decoder and calls.
pub feed_in_required :
    (c : Config) (s s' : IStream) (bytes : List ℕ) (calls : List Event)
    → require (Capability.value64 ∷ all_needs calls) c ≡ true
    → feed s bytes ≡ some (ok complete, s', calls)
    → feed_in (wire c) s bytes ≡ some (ok complete, s', calls)
feed_in_required c s s' bytes calls h e =
    feed_in_enough (wire c) s s' bytes calls e
      (required-has_every c calls (required_rest Capability.value64 (all_needs calls) c h))
