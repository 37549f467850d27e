-- ===== src/RoundTrip/Told.antt =====
-- What the visitor of src/istream.rs is told of the calls to the encoder of src/ostream.rs.
use corelib_rs_no_std.Common.{ℕ, ◌+◌, ◌*◌, ◌≡◌, ltb, if◌then◌else◌, List, [], ◌∷◌, ◌++◌, length}
use mathlib.Core.List.{map}
use corelib_rs_no_std.Error.{Result, ok, err}
use corelib_rs_no_std.Types.{FixlenType, ArrayKind}
use corelib_rs_no_std.IStream.State.{Event}
use corelib_rs_no_std.OStream.Stream.{lazy_seq_depth}
use corelib_rs_no_std.OStream.Fields.{widen_signed}
use corelib_rs_no_std.OStream.Spec.{Op, Frames, spec}

-- The number whose little-endian bytes these are.
abbrev pub from_le : List ℕ → ℕ
from_le [] = 0
from_le (b ∷ bs) = b + 256 * from_le bs

-- The sequences that a field, or the end of a sequence that is kept, opens first.
abbrev pub begins : List ℕ → List Event
begins [] = []
begins (id ∷ ids) = Event.sequence_begin id ∷ begins ids

abbrev pub told_fixlen : ℕ → List ℕ → FixlenType → List Event
told_fixlen id bytes FixlenType.fp32 =
    Event.fixlen_begin id FixlenType.fp32 (length bytes) ∷ Event.fp32 id (from_le bytes) ∷ []
told_fixlen id bytes FixlenType.fp64 =
    Event.fixlen_begin id FixlenType.fp64 (length bytes) ∷ Event.fp64 id (from_le bytes) ∷ []
told_fixlen id bytes FixlenType.str =
    Event.fixlen_begin id FixlenType.str (length bytes)
    ∷ Event.string id (length bytes) 0 bytes
    ∷ []
told_fixlen id bytes FixlenType.blob =
    Event.fixlen_begin id FixlenType.blob (length bytes) ∷ Event.blob id (length bytes) 0 bytes ∷ []

abbrev pub told_begin : ℕ → List ℕ → List Event
told_begin id held =
    if ltb (length held) lazy_seq_depth then [] else begins held ++ (Event.sequence_begin id ∷ [])

abbrev pub told_end : List ℕ → List Event
told_end [] = Event.sequence_end ∷ []
told_end (id ∷ held) = []

-- The calls that an accepted operation leads to, each payload as one chunk.
unfoldable pub told : Op → Frames → List Event
told (Op.unsigned id v) (depth, held) = begins held ++ (Event.unsigned id v ∷ [])
told (Op.signed id v) (depth, held) = begins held ++ (Event.signed id v ∷ [])
told (Op.boolean id b) (depth, held) = begins held ++ (Event.unsigned id (if b then 1 else 0) ∷ [])
told (Op.fp32 id bits) (depth, held) =
    begins held ++ (Event.fixlen_begin id FixlenType.fp32 4 ∷ Event.fp32 id bits ∷ [])
told (Op.fp64 id bits) (depth, held) =
    begins held ++ (Event.fixlen_begin id FixlenType.fp64 8 ∷ Event.fp64 id bits ∷ [])
told (Op.str id text) (depth, held) = begins held ++ told_fixlen id text FixlenType.str
told (Op.blob id bytes) (depth, held) = begins held ++ told_fixlen id bytes FixlenType.blob
told (Op.fixlen id bytes subtype) (depth, held) = begins held ++ told_fixlen id bytes subtype
told (Op.array_unsigned id xs) (depth, held) =
    begins held
    ++ (Event.array_begin id ArrayKind.unsigned (length xs) ∷ map (Event.unsigned id) xs)
told (Op.array_signed width id xs) (depth, held) =
    begins held
    ++ (Event.array_begin id ArrayKind.signed (length xs)
        ∷ map (λ x. Event.signed id (widen_signed width x)) xs)
told (Op.array_fp32 id xs) (depth, held) =
    begins held ++ (Event.array_begin id ArrayKind.fp32 (length xs) ∷ map (Event.fp32 id) xs)
told (Op.array_fp64 id xs) (depth, held) =
    begins held ++ (Event.array_begin id ArrayKind.fp64 (length xs) ∷ map (Event.fp64 id) xs)
told (Op.sequence_begin id) (depth, held) = told_begin id held
told Op.sequence_end (depth, held) = told_end held
told Op.sequence_end_keep (depth, held) = begins held ++ (Event.sequence_end ∷ [])

-- A run of calls, as far as it is accepted.
abbrev pub told_next : List Event → Result (List ℕ × Frames) → (Frames → List Event) → List Event
told_next events (ok (bytes, fr)) rest = events ++ rest fr
told_next events (err e) rest = []

unfoldable pub told_all : List Op → Frames → List Event
unfolding spec told
told_all [] fr = []
told_all (op ∷ ops) fr = told_next (told op fr) (spec op fr) (told_all ops)

-- A float handed over as raw bytes has as many as its type takes; the writer leaves this to its
-- caller.
abbrev pub Sized : Op → Type 0
Sized (Op.fixlen id bytes FixlenType.fp32) = length bytes ≡ 4
Sized (Op.fixlen id bytes FixlenType.fp64) = length bytes ≡ 8
Sized op = Unit {0}
