-- ===== src/Build/Foreign.antt =====
-- src/istream.rs: one step of a build against the default build, and how a decoder leaves a field that the
-- build does not have.
use corelib_rs_no_std.Common.{
  ℕ, ◌≡◌, ◌≢◌, refl, arith, Bool, true, false, ◌&&◌, ◌||◌, not, length, List, [], ◌∷◌, Bool-cases,
  inl, inr, ◌⊎◌, bit_and, ◌==◌, ltb,
}
use corelib_rs_no_std.Common.Word.{shr}
use corelib_rs_no_std.Error.{Result, Nothing, ok, err}
use corelib_rs_no_std.Types.{FixlenType, ArrayKind, id_max, from_raw}
use corelib_rs_no_std.IStream.State.{State, IStream, Event, Turn, is_fixlen_val}
use corelib_rs_no_std.IStream.Step.{
  step, on_wire_type, on_header, on_fixlen_len, on_fixlen_type, on_array_word, on_scalar_word,
  on_subtype, on_array_count, dispatch,
}
use corelib_rs_no_std.IStream.Push.{push}
use corelib_rs_no_std.Build.{Wire}
use corelib_rs_no_std.Build.Decoder.{
  compiled, on_wire_type_in, from_raw_in, on_header_in, on_fixlen_len_in, dispatch_in, step_in,
}
use corelib_rs_no_std.Build.Compiled.{has, has_kind}

-- The decoder is inside a field of a wire type that the build does not have.
abbrev pub foreign_in : Wire → State → ArrayKind → Bool
foreign_in c State.fixlen_len kind = not c.fixlen
foreign_in c State.array_count kind = not (has_kind c kind)
foreign_in c State.fixlen_array_len kind = not (c.array && c.fixlen)
foreign_in c _ kind = false

abbrev pub foreign : Wire → IStream → Bool
foreign c s = foreign_in c s.core.state s.core.array_kind

abbrev pub has_every : Wire → List Event → Bool
has_every c [] = true
has_every c (e ∷ es) = has c e && has_every c es

abbrev pub is_err : Result Nothing → Bool
is_err (ok u) = false
is_err (err e) = true

-- What is no message of the build.
abbrev pub lost : Wire → Turn → Bool
lost c t = is_err t.0 || not (has_every c t.2) || foreign c t.1

-- A step as in the default build, or one of a message that the build has not.
abbrev pub Differs : Wire → Turn → Turn → Type 0
Differs c t u = (t ≡ u) ⊎ (lost c u ≡ true)

wire-Differs :
    (c : Wire) (w : ℕ) (s : IStream) → Differs c (on_wire_type_in c w s) (on_wire_type w s)
unfolding on_wire_type_in
wire-Differs c w s = elim (Bool-cases (compiled c w)) [
  | inl p ↦ rw p (inl refl)
  | inr p ↦ inr (unfold on_wire_type compiled in ground arith)
]

type-lost :
    (c : Wire) (length : ℕ) (s : IStream)
    → c.fp64 ≡ false
    → lost c (on_fixlen_type FixlenType.fp64 length s) ≡ true
unfolding on_fixlen_type on_array_word on_scalar_word
type-lost c length s h = ground arith

fixlen_len-Differs :
    (c : Wire) (s : IStream) (header : ℕ)
    → Differs c (on_fixlen_len_in c s header) (on_fixlen_len s header)
unfolding on_fixlen_len_in on_fixlen_len from_raw_in on_subtype
fixlen_len-Differs c s header = elim (Bool-cases (bit_and header 7 == 1 && not c.fp64)) [
  | inl p ↦ inr (unfold from_raw in ground (arith, type-lost c (shr header 3) s))
  | inr p ↦ rw p (inl refl)
]

header-Differs :
    (c : Wire) (s : IStream) (header : ℕ) → Differs c (on_header_in c s header) (on_header s header)
unfolding on_header_in on_header
header-Differs c s header = elim (Bool-cases (ltb id_max (shr header 3))) [
  | inl p ↦ rw p (inl refl)
  | inr p ↦ rw p (wire-Differs c (bit_and header 7) (record s { id = shr header 3 }))
]

dispatch-Differs :
    (c : Wire) (st : State) (s : IStream) (value : ℕ)
    → Differs c (dispatch_in c st s value) (dispatch st s value)
unfolding dispatch_in dispatch
dispatch-Differs c State.idle s value = header-Differs c s value
dispatch-Differs c State.fixlen_len s value = fixlen_len-Differs c s value
dispatch-Differs c State.fixlen_array_len s value = fixlen_len-Differs c s value
dispatch-Differs c State.invalid s value = inl refl
dispatch-Differs c State.varint_unsigned s value = inl refl
dispatch-Differs c State.varint_signed s value = inl refl
dispatch-Differs c State.array_count s value = inl refl
dispatch-Differs c State.fixlen_val s value = inl refl
dispatch-Differs c State.fixlen_raw s value = inl refl

pub step-Differs : (c : Wire) (s : IStream) (b : ℕ) → Differs c (step_in c s b) (step s b)
unfolding step_in step
step-Differs c s b = elim (Bool-cases (is_fixlen_val s.core.state)) [
  | inl p ↦ rw p (inl refl)
  | inr p ↦
      let core = (push s.core b).1 in
      elim (Bool-cases (core.shift == 0)) [
        | inl q ↦
            rw (p, q) (dispatch-Differs c core.state (record s { core = core }) (push s.core b).0)
        | inr q ↦ rw (p, q) (inl refl)
      ]
]

subtype-lost :
    (c : Wire) (raw length : ℕ) (s : IStream)
    → s.core.state ≢ State.array_count
    → foreign c s ≡ true
    → lost c (on_subtype (from_raw raw) length s) ≡ true
unfolding from_raw on_subtype on_fixlen_type on_array_word on_scalar_word
subtype-lost c raw length s e h = ground arith

count-lost :
    (c : Wire) (count : ℕ) (s : IStream)
    → s.core.state ≡ State.array_count
    → foreign c s ≡ true
    → lost c (on_array_count s count) ≡ true
unfolding on_array_count
count-lost c count s e h = ground arith

dispatch-lost :
    (c : Wire) (st : State) (s : IStream) (value : ℕ)
    → s.core.state ≡ st
    → foreign c s ≡ true
    → lost c (dispatch st s value) ≡ true
unfolding dispatch on_fixlen_len
dispatch-lost c State.fixlen_len s value e h =
    subtype-lost c (bit_and value 7) (shr value 3) s (ground arith) h
dispatch-lost c State.fixlen_array_len s value e h =
    subtype-lost c (bit_and value 7) (shr value 3) s (ground arith) h
dispatch-lost c State.array_count s value e h = count-lost c value s e h
dispatch-lost c _ s value e h = absurd (ground arith)

-- A byte of a varint leaves such a decoder inside, or ends it.
pushed-lost :
    (c : Wire) (s : IStream) (b : ℕ)
    → foreign c s ≡ true
    → (foreign c (record s { core = (push s.core b).1 }) ≡ true)
      ⊎ ((push s.core b).1.state ≡ State.invalid) × ((push s.core b).1.shift ≡ 0)
unfolding push
pushed-lost c s b h = ground arith

-- Such a decoder gets out of the field with a call that the build has not, or not at all.
pub step-lost : (c : Wire) (s : IStream) (b : ℕ) → foreign c s ≡ true → lost c (step s b) ≡ true
unfolding step
step-lost c s b h = elim (Bool-cases (is_fixlen_val s.core.state)) [
  | inl p ↦ absurd (ground arith)
  | inr p ↦ elim (pushed-lost c s b h) [
    | inr (e, z) ↦ rw (p, z, e) (unfold dispatch in refl)
    | inl f ↦
        let core = (push s.core b).1 in
        elim (Bool-cases (core.shift == 0)) [
          | inl q ↦
              rw (p, q)
                (dispatch-lost c core.state (record s { core = core }) (push s.core b).0 refl f)
          | inr q ↦ rw (p, q, f) refl
        ]
  ]
]
