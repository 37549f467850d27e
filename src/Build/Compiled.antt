-- ===== src/Build/Compiled.antt =====
-- src/istream.rs: the states and callbacks that a build has, step by step.
use corelib_rs_no_std.Common.{
  ℕ, ◌≡◌, refl, arith, Bool, true, false, ◌&&◌, length, List, [], ◌∷◌, Bool-cases, inl, inr, All,
  bit_and, ◌/◌, ◌==◌,
}
use corelib_rs_no_std.Error.{ok}
use corelib_rs_no_std.Types.{FixlenType, ArrayKind}
use corelib_rs_no_std.IStream.State.{State, IStream, Event, Turn, is_fixlen_val, new}
use corelib_rs_no_std.IStream.Step.{
  advance_after_element, on_fixlen_type, on_subtype, on_array_count, step_fixlen_val, dispatch,
  payload_chunk,
}
use corelib_rs_no_std.IStream.Feed.{drain_raw}
use corelib_rs_no_std.IStream.Push.{push}
use corelib_rs_no_std.Build.{Wire}
use corelib_rs_no_std.Build.Decoder.{
  on_wire_type_in, from_raw_in, on_header_in, on_fixlen_len_in, dispatch_in, step_in,
}

-- The callbacks of `Visitor` that a build has.
abbrev pub has_type : Wire → FixlenType → Bool
has_type c FixlenType.fp64 = c.fixlen && c.fp64
has_type c _ = c.fixlen

abbrev pub has_kind : Wire → ArrayKind → Bool
has_kind c ArrayKind.fp32 = c.array && c.fixlen
has_kind c ArrayKind.fp64 = c.array && c.fixlen && c.fp64
has_kind c _ = c.array

abbrev pub has : Wire → Event → Bool
has c (Event.unsigned id v) = true
has c (Event.signed id v) = true
has c (Event.fp32 id v) = c.fixlen
has c (Event.fp64 id v) = c.fixlen && c.fp64
has c (Event.string id total offset chunk) = c.fixlen
has c (Event.blob id total offset chunk) = c.fixlen
has c (Event.fixlen_begin id subtype total) = has_type c subtype
has c (Event.array_begin id kind count) = has_kind c kind
has c (Event.sequence_begin id) = c.sequence
has c Event.sequence_end = c.sequence

abbrev pub InState : Wire → State → IStream → Type 0
InState c State.fixlen_len s = c.fixlen ≡ true
InState c State.fixlen_val s = (c.fixlen ≡ true) × (has_type c s.core.fixlen_type ≡ true)
InState c State.fixlen_raw s = c.fixlen ≡ true
InState c State.array_count s = (c.array ≡ true) × (has_kind c s.core.array_kind ≡ true)
InState c State.fixlen_array_len s = (c.array ≡ true) × (c.fixlen ≡ true)
InState c st s = Unit

-- The decoder is in no state that the build does not have, every field that the build does not have
-- is at its initial value, and every other holds no tag that the build does not have.
pub record InBuild (c : Wire) (s : IStream) : Type 0 where
  pub state : InState c s.core.state s
  pub fixlen :
      c.fixlen ≡ false
      → (s.core.fixlen_type ≡ new.core.fixlen_type)
        × (s.fixlen_total ≡ new.fixlen_total)
        × (s.fixlen_remaining ≡ new.fixlen_remaining)
  pub subtype : c.fixlen ≡ true → has_type c s.core.fixlen_type ≡ true
  pub array :
      c.array ≡ false
      → (s.core.array_kind ≡ new.core.array_kind) × (s.array_remaining ≡ new.array_remaining)
  pub kind : c.array ≡ true → has_kind c s.core.array_kind ≡ true
  pub sequence : c.sequence ≡ false → s.core.depth ≡ new.core.depth

pub record Stays (c : Wire) (t : Turn) : Type 0 where
  pub within : InBuild c t.1
  pub told : All (λ e. has c e ≡ true) t.2

wire-Stays :
    (c : Wire) (w : ℕ) (s : IStream)
    → InBuild c s
    → s.core.state ≡ State.idle
    → Stays c (on_wire_type_in c w s)
unfolding on_wire_type_in
wire-Stays c w s h e = ground arith

count-Stays :
    (c : Wire) (s : IStream) (count : ℕ)
    → InBuild c s
    → s.core.state ≡ State.array_count
    → Stays c (on_array_count s count)
unfolding on_array_count
count-Stays c s count h e = ground arith

advance-Stays :
    (c : Wire) (s : IStream) → InBuild c s → Stays c (ok tt, (advance_after_element s).1, [])
unfolding advance_after_element
advance-Stays c s h = ground arith

type-Stays :
    (c : Wire) (t : FixlenType) (length : ℕ) (s : IStream)
    → InBuild c s
    → has_type c t ≡ true
    → Stays c (on_fixlen_type t length s)
unfolding on_fixlen_type
type-Stays c t length s h e = ground arith

subtype-Stays :
    (c : Wire) (raw length : ℕ) (s : IStream)
    → InBuild c s
    → c.fixlen ≡ true
    → Stays c (on_subtype (from_raw_in c raw) length s)
unfolding from_raw_in on_subtype
subtype-Stays c raw length s h e = ground (
  arith,
  type-Stays c FixlenType.fp32 length s h,
  type-Stays c FixlenType.fp64 length s h,
  type-Stays c FixlenType.str length s h,
  type-Stays c FixlenType.blob length s h,
)

value-Stays :
    (c : Wire) (s : IStream) (byte : ℕ)
    → InBuild c s
    → s.core.state ≡ State.fixlen_val
    → Stays c (step_fixlen_val s byte)
unfolding step_fixlen_val
value-Stays c s byte h e = ground arith

dispatch-Stays :
    (c : Wire) (st : State) (s : IStream) (value : ℕ)
    → InBuild c s
    → s.core.state ≡ st
    → Stays c (dispatch_in c st s value)
unfolding dispatch_in dispatch on_header_in on_fixlen_len_in
dispatch-Stays c State.idle s value h e =
    ground (arith, wire-Stays c (bit_and value 7) (record s { id = value / 8 }))
dispatch-Stays c State.fixlen_len s value h e =
    subtype-Stays c (bit_and value 7) (value / 8) s h (ground arith)
dispatch-Stays c State.fixlen_array_len s value h e =
    subtype-Stays c (bit_and value 7) (value / 8) s h (ground arith)
dispatch-Stays c State.invalid s value h e = ground arith
dispatch-Stays c State.varint_unsigned s value h e = ground (arith, advance-Stays c s h)
dispatch-Stays c State.varint_signed s value h e = ground (arith, advance-Stays c s h)
dispatch-Stays c State.array_count s value h e = count-Stays c s value h e
dispatch-Stays c State.fixlen_val s value h e = ground arith
dispatch-Stays c State.fixlen_raw s value h e = ground arith

-- The decoder behind a byte of a varint.
pushed :
    (c : Wire) (s : IStream) (byte : ℕ)
    → InBuild c s
    → InBuild c (record s { core = (push s.core byte).1 })
unfolding push
pushed c s byte h = ground arith

pub step-Stays : (c : Wire) (s : IStream) (byte : ℕ) → InBuild c s → Stays c (step_in c s byte)
unfolding step_in
step-Stays c s byte h = elim (Bool-cases (is_fixlen_val s.core.state)) [
  | inl p ↦ rw p (value-Stays c s byte h (ground arith))
  | inr p ↦
      let core = (push s.core byte).1 in
      elim (Bool-cases (core.shift == 0)) [
        | inl q ↦
            rw (p, q)
              (dispatch-Stays c core.state (record s { core = core }) (push s.core byte).0
                (pushed c s byte h) refl)
        | inr q ↦ rw (p, q) (record { within = pushed c s byte h; told = tt })
      ]
]

pub drained-Stays :
    (c : Wire) (s : IStream) (bytes : List ℕ)
    → InBuild c s
    → s.core.state ≡ State.fixlen_raw
    → Stays c (ok tt, (drain_raw s bytes).2, (drain_raw s bytes).1 ∷ [])
unfolding drain_raw payload_chunk
drained-Stays c s bytes h e = ground arith
