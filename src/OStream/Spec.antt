-- ===== src/OStream/Spec.antt =====
-- What the writers of src/ostream.rs promise, without the buffer: each call appends bytes to the
-- message, and opens or closes sequences of which the innermost may still be unframed.
use corelib_rs_no_std.Common.{
  ℕ, ◌+◌, ◌-◌, ◌*◌, ◌≤◌, ◌<◌, ◌^◌, leb, ltb, ◌==◌, if◌then◌else◌, Bool, List, [], ◌∷◌, ◌++◌, length,
  All,
}
use corelib_rs_no_std.Error.{Result, ok, err, argument}
use corelib_rs_no_std.Types.{
  FixlenType, raw_of, id_max, max_depth, array_max, t_varint_unsigned, t_varint_signed, t_fixlen,
  t_varintarray_unsigned, t_varintarray_signed, t_fixlenarray, t_sequence_start, t_sequence_end,
}
use corelib_rs_no_std.Varint.{zigzag_encode}
use corelib_rs_no_std.Varint.Groups.{varint}
use corelib_rs_no_std.OStream.Stream.{lazy_seq_depth}
use corelib_rs_no_std.OStream.Fields.{le_bytes, widen_signed}

-- The calls of a client. `array_signed` names the width of its elements in bits.
pub data Op : Type 0 where
  unsigned : ℕ → ℕ → Op
  signed : ℕ → ℕ → Op
  boolean : ℕ → Bool → Op
  fp32 : ℕ → ℕ → Op
  fp64 : ℕ → ℕ → Op
  str : ℕ → List ℕ → Op
  blob : ℕ → List ℕ → Op
  fixlen : ℕ → List ℕ → FixlenType → Op
  array_unsigned : ℕ → List ℕ → Op
  array_signed : ℕ → ℕ → List ℕ → Op
  array_fp32 : ℕ → List ℕ → Op
  array_fp64 : ℕ → List ℕ → Op
  sequence_begin : ℕ → Op
  sequence_end : Op
  sequence_end_keep : Op

-- The open sequences: how many, and the ids of those not framed yet, outermost first.
abbrev pub Frames : Type 0
Frames = ℕ × List ℕ

abbrev pub header : ℕ → ℕ → List ℕ
header id wire_type = varint (id * 8 + wire_type)

abbrev pub headers : List ℕ → List ℕ
headers [] = []
headers (id ∷ ids) = header id t_sequence_start ++ headers ids

abbrev pub each : (ℕ → List ℕ) → List ℕ → List ℕ
each f [] = []
each f (x ∷ xs) = f x ++ each f xs

abbrev pub fixlen_body : List ℕ → FixlenType → List ℕ
fixlen_body bytes subtype = varint (length bytes * 8 + raw_of subtype) ++ bytes

-- A field commits every held-back header.
abbrev pub field : ℕ → ℕ → List ℕ → Frames → Result (List ℕ × Frames)
field id wire_type body (depth, held) =
    if ltb id_max id
    then err argument
    else ok ((headers held ++ header id wire_type) ++ body, (depth, []))

abbrev pub fixlen_field : ℕ → List ℕ → FixlenType → Frames → Result (List ℕ × Frames)
fixlen_field id bytes subtype fr = field id t_fixlen (fixlen_body bytes subtype) fr

abbrev pub begin : ℕ → Frames → Result (List ℕ × Frames)
begin id (depth, held) =
    if leb max_depth depth
    then err argument
    else if ltb id_max id
    then err argument
    else if ltb (length held) lazy_seq_depth
    then ok ([], (depth + 1, held ++ (id ∷ [])))
    else ok (headers held ++ header id t_sequence_start, (depth + 1, []))

abbrev pub drop_last : List ℕ → List ℕ
drop_last [] = []
drop_last (x ∷ []) = []
drop_last (x ∷ y ∷ ys) = x ∷ drop_last (y ∷ ys)

abbrev pub end_keep : Frames → Result (List ℕ × Frames)
end_keep (depth, held) =
    if depth == 0
    then err argument
    else ok (headers held ++ header 0 t_sequence_end, (depth - 1, []))

-- A sequence with no content vanishes.
abbrev pub end_lazy : Frames → Result (List ℕ × Frames)
end_lazy (depth, []) = end_keep (depth, [])
end_lazy (depth, id ∷ held) =
    if depth == 0 then err argument else ok ([], (depth - 1, drop_last (id ∷ held)))

unfoldable pub spec : Op → Frames → Result (List ℕ × Frames)
spec (Op.unsigned id v) fr = field id t_varint_unsigned (varint v) fr
spec (Op.signed id v) fr = field id t_varint_signed (varint (zigzag_encode v)) fr
spec (Op.boolean id b) fr = field id t_varint_unsigned (varint (if b then 1 else 0)) fr
spec (Op.fp32 id bits) fr = fixlen_field id (le_bytes 4 bits) FixlenType.fp32 fr
spec (Op.fp64 id bits) fr = fixlen_field id (le_bytes 8 bits) FixlenType.fp64 fr
spec (Op.str id text) fr = fixlen_field id text FixlenType.str fr
spec (Op.blob id bytes) fr = fixlen_field id bytes FixlenType.blob fr
spec (Op.fixlen id bytes FixlenType.str) fr = err argument
spec (Op.fixlen id bytes subtype) fr = fixlen_field id bytes subtype fr
spec (Op.array_unsigned id xs) fr =
    field id t_varintarray_unsigned (varint (length xs) ++ each varint xs) fr
spec (Op.array_signed width id xs) fr =
    field id t_varintarray_signed
      (varint (length xs) ++ each (λ x. varint (zigzag_encode (widen_signed width x))) xs) fr
spec (Op.array_fp32 id xs) fr =
    field id t_fixlenarray (varint (length xs) ++ (varint (4 * 8 + 0) ++ each (le_bytes 4) xs)) fr
spec (Op.array_fp64 id xs) fr =
    field id t_fixlenarray (varint (length xs) ++ (varint (8 * 8 + 1) ++ each (le_bytes 8) xs)) fr
spec (Op.sequence_begin id) fr = begin id fr
spec Op.sequence_end fr = end_lazy fr
spec Op.sequence_end_keep fr = end_keep fr

abbrev pub IsU64 : ℕ → Type 0
IsU64 v = v < 2 ^ 64

abbrev pub IsBytes : List ℕ → Type 0
IsBytes bytes = All (λ b. b < 256) bytes × (length bytes ≤ array_max)

-- The arguments have the types that Rust gives them, and no payload or array is longer than the
-- format allows (which the encoder leaves to its caller).
abbrev pub InRange : Op → Type 0
InRange (Op.unsigned id v) = IsU64 v
InRange (Op.signed id v) = IsU64 v
InRange (Op.boolean id b) = Unit
InRange (Op.fp32 id bits) = bits < 2 ^ 32
InRange (Op.fp64 id bits) = bits < 2 ^ 64
InRange (Op.str id text) = IsBytes text
InRange (Op.blob id bytes) = IsBytes bytes
InRange (Op.fixlen id bytes subtype) = IsBytes bytes
InRange (Op.array_unsigned id xs) = All IsU64 xs × (length xs ≤ array_max)
InRange (Op.array_signed width id xs) =
    All (λ x. IsU64 (widen_signed width x)) xs × (length xs ≤ array_max)
InRange (Op.array_fp32 id xs) = All (λ x. x < 2 ^ 32) xs × (length xs ≤ array_max)
InRange (Op.array_fp64 id xs) = All IsU64 xs × (length xs ≤ array_max)
InRange (Op.sequence_begin id) = Unit
InRange Op.sequence_end = Unit
InRange Op.sequence_end_keep = Unit

-- A run of calls: the message that they put together, or the first error.
abbrev pub behind_bytes : List ℕ → Result (List ℕ × Frames) → Result (List ℕ × Frames)
behind_bytes bytes (ok (more, fr)) = ok (bytes ++ more, fr)
behind_bytes bytes (err e) = err e

abbrev pub and_spec :
    Result (List ℕ × Frames) → (Frames → Result (List ℕ × Frames)) → Result (List ℕ × Frames)
and_spec (ok (bytes, fr)) rest = behind_bytes bytes (rest fr)
and_spec (err e) rest = err e

unfoldable pub spec_all : List Op → Frames → Result (List ℕ × Frames)
unfolding spec
spec_all [] fr = ok ([], fr)
spec_all (op ∷ ops) fr = and_spec (spec op fr) (spec_all ops)
