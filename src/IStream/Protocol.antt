-- ===== src/IStream/Protocol.antt =====
-- src/istream.rs: the order of callbacks that `Visitor` documents, as a machine that follows them.
use corelib_rs_no_std.Common.{
  ℕ, ◌+◌, ◌-◌, ◌^◌, ltb, leb, ◌==◌, if◌then◌else◌, Bool, true, false, not, ◌&&◌, ◌||◌, List, [],
  ◌∷◌, length, Option, none, some,
}
use corelib_rs_no_std.Types.{FixlenType, ArrayKind, id_max, max_depth, array_max}
use corelib_rs_no_std.IStream.State.{State, IStream, Event}
use corelib_rs_no_std.IStream.Step.{width_of}

-- Where a message stands, inside a field: between two fields, before the value of a float field, in
-- a string or a blob of which `offset` bytes of `total` were told, or before the `left` last elements
-- of an array.
pub data Place : Type 0 where
  between : Place
  float : ℕ → FixlenType → Place
  payload : ℕ → FixlenType → ℕ → ℕ → Place
  elements : ℕ → ArrayKind → ℕ → Place

abbrev pub Phase : Type 0
Phase = ℕ × Place

abbrev pub same_subtype : FixlenType → FixlenType → Bool
same_subtype FixlenType.fp32 FixlenType.fp32 = true
same_subtype FixlenType.fp64 FixlenType.fp64 = true
same_subtype FixlenType.str FixlenType.str = true
same_subtype FixlenType.blob FixlenType.blob = true
same_subtype _ _ = false

abbrev pub when : Bool → Phase → Option Phase
when true p = some p
when false p = none

-- One element fewer.
abbrev pub one_less : ℕ → ℕ → ArrayKind → ℕ → Phase
one_less depth id kind left = (depth, if leb left 1 then between else elements id kind (left - 1))

-- A chunk at the offset that is due, not empty unless the payload is, and not past its end.
abbrev pub take_chunk : ℕ → ℕ → FixlenType → ℕ → ℕ → ℕ → Option Phase
take_chunk depth id subtype total offset n =
    when (leb (offset + n) total && (not (n == 0) || (total == 0)))
      (depth, if offset + n == total then between else payload id subtype total (offset + n))

abbrev pub begin_payload : ℕ → ℕ → FixlenType → ℕ → Option Phase
begin_payload depth id subtype total =
    if width_of subtype == 0
    then when (leb id id_max && leb total array_max) (depth, payload id subtype total 0)
    else when (leb id id_max && (total == width_of subtype)) (depth, float id subtype)

-- The phase behind a callback, if it is in order.
unfoldable pub next : Phase → Event → Option Phase
next (d, between) (Event.unsigned id v) = when (leb id id_max && ltb v (2 ^ 64)) (d, between)
next (d, between) (Event.signed id v) = when (leb id id_max && ltb v (2 ^ 64)) (d, between)
next (d, between) (Event.fixlen_begin id subtype total) = begin_payload d id subtype total
next (d, between) (Event.array_begin id kind n) =
    when (leb id id_max && leb n array_max) (d, if n == 0 then between else elements id kind n)
next (d, between) (Event.sequence_begin id) =
    when (leb id id_max && ltb d max_depth) (d + 1, between)
next (d, between) Event.sequence_end = when (not (d == 0)) (d - 1, between)
next (d, float id FixlenType.fp32) (Event.fp32 id' v) =
    when ((id' == id) && ltb v (2 ^ 32)) (d, between)
next (d, float id FixlenType.fp64) (Event.fp64 id' v) =
    when ((id' == id) && ltb v (2 ^ 64)) (d, between)
next (d, payload id FixlenType.str total offset) (Event.string id' total' offset' chunk) =
    if (id' == id) && (total' == total) && (offset' == offset)
    then take_chunk d id FixlenType.str total offset (length chunk)
    else none
next (d, payload id FixlenType.blob total offset) (Event.blob id' total' offset' chunk) =
    if (id' == id) && (total' == total) && (offset' == offset)
    then take_chunk d id FixlenType.blob total offset (length chunk)
    else none
next (d, elements id ArrayKind.unsigned n) (Event.unsigned id' v) =
    when ((id' == id) && ltb v (2 ^ 64)) (one_less d id ArrayKind.unsigned n)
next (d, elements id ArrayKind.signed n) (Event.signed id' v) =
    when ((id' == id) && ltb v (2 ^ 64)) (one_less d id ArrayKind.signed n)
next (d, elements id ArrayKind.fp32 n) (Event.fp32 id' v) =
    when ((id' == id) && ltb v (2 ^ 32)) (one_less d id ArrayKind.fp32 n)
next (d, elements id ArrayKind.fp64 n) (Event.fp64 id' v) =
    when ((id' == id) && ltb v (2 ^ 64)) (one_less d id ArrayKind.fp64 n)
next p e = none

abbrev pub and_follow : Option Phase → (Phase → Option Phase) → Option Phase
and_follow none k = none
and_follow (some p) k = k p

unfoldable pub follow : Phase → List Event → Option Phase
unfolding next
follow p [] = some p
follow p (e ∷ es) = and_follow (next p e) (λ q. follow q es)

-- The phase that a decoder is in.
abbrev pub word_place : ℕ → ArrayKind → ℕ → Place
word_place id kind left = if left == 0 then between else elements id kind left

abbrev pub float_place : ℕ → FixlenType → ℕ → Place
float_place id FixlenType.fp64 left =
    if left == 0 then float id FixlenType.fp64 else elements id ArrayKind.fp64 left
float_place id subtype left =
    if left == 0 then float id subtype else elements id ArrayKind.fp32 left

abbrev pub place_in : State → IStream → Place
place_in State.varint_unsigned s = word_place s.id ArrayKind.unsigned s.array_remaining
place_in State.varint_signed s = word_place s.id ArrayKind.signed s.array_remaining
place_in State.fixlen_val s = float_place s.id s.core.fixlen_type s.array_remaining
place_in State.fixlen_raw s =
    payload s.id s.core.fixlen_type s.fixlen_total (s.fixlen_total - s.fixlen_remaining)
place_in _ s = between

abbrev pub phase_of : IStream → Phase
phase_of s = (s.core.depth, place_in s.core.state s)
