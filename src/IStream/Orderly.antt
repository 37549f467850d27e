-- ===== src/IStream/Orderly.antt =====
-- src/istream.rs: no handler of the decoder leaves the order of callbacks.
use corelib_rs_no_std.Common.{
  ℕ, ◌+◌, ◌*◌, ◌%◌, ◌^◌, ◌≤◌, ◌<◌, ◌≡◌, ◌≢◌, refl, arith, [], ◌∷◌, some, inl, inr, bit_and, bit_or,
  ◌/◌, ◌⊎◌, Bool-cases,
}
use corelib_rs_no_std.Error.{Result, ok, err}
use corelib_rs_no_std.Types.{FixlenType, from_raw}
use corelib_rs_no_std.Varint.{zigzag_decode}
use corelib_rs_no_std.IStream.State.{State, IStream, Event, Turn, is_fixlen_val}
use corelib_rs_no_std.IStream.Step.{
  on_header, advance_after_element, on_fixlen_type, on_subtype, on_array_count, step_fixlen_val,
  dispatch, step,
}
use corelib_rs_no_std.IStream.Valid.{IsValid}
use corelib_rs_no_std.IStream.Preserve.{AtWord, float_push-wide, in_varint, at_word-AtWord}
use corelib_rs_no_std.IStream.Word.{at_word, step_lem}
use corelib_rs_no_std.IStream.Digit.{InVarint, group_fits}
use corelib_rs_no_std.Varint.ZigZag.{decode_parts}
use corelib_rs_no_std.IStream.Protocol.{Phase, follow, phase_of}

-- A turn that succeeds tells calls in order, from the phase of the decoder before it to that behind
-- it; one that fails tells none.
abbrev pub Orderly : Phase → Turn → Type 0
Orderly p (ok u, s, events) = follow p events ≡ some (phase_of s)
Orderly p (err e, s, events) = events ≡ []

on_header-Orderly :
    (s : IStream) (header : ℕ)
    → AtWord s
    → s.core.state ≡ State.idle
    → Orderly (phase_of s) (on_header s header)
unfolding on_header follow
on_header-Orderly s header w h = ground arith

unsigned-Orderly :
    (s : IStream) (value : ℕ)
    → AtWord s
    → s.core.state ≡ State.varint_unsigned
    → value < 2 ^ 64
    → Orderly (phase_of s) (ok tt, (advance_after_element s).1, Event.unsigned s.id value ∷ [])
unfolding advance_after_element follow
unsigned-Orderly s value w e h = ground arith

signed-Orderly :
    (s : IStream) (value : ℕ)
    → AtWord s
    → s.core.state ≡ State.varint_signed
    → value < 2 ^ 64
    → Orderly (phase_of s) (ok tt, (advance_after_element s).1, Event.signed s.id value ∷ [])
unfolding advance_after_element follow
signed-Orderly s value w e h = ground arith

on_array_count-Orderly :
    (s : IStream) (count : ℕ)
    → AtWord s
    → s.core.state ≡ State.array_count
    → Orderly (phase_of s) (on_array_count s count)
unfolding on_array_count follow
on_array_count-Orderly s count w e = ground arith

scalar-Orderly :
    (subtype : FixlenType) (length : ℕ) (s : IStream)
    → AtWord s
    → s.core.state ≡ State.fixlen_len
    → s.array_remaining ≡ 0
    → Orderly (phase_of s) (on_fixlen_type subtype length s)
unfolding on_fixlen_type follow
scalar-Orderly FixlenType.fp32 length s w e h = ground arith
scalar-Orderly FixlenType.fp64 length s w e h = ground arith
scalar-Orderly FixlenType.str length s w e h = ground arith
scalar-Orderly FixlenType.blob length s w e h = ground arith

array-Orderly :
    (subtype : FixlenType) (length : ℕ) (s : IStream)
    → AtWord s
    → s.core.state ≡ State.fixlen_array_len
    → Orderly (phase_of s) (on_fixlen_type subtype length s)
unfolding on_fixlen_type follow
array-Orderly FixlenType.fp32 length s w e = ground arith
array-Orderly FixlenType.fp64 length s w e = ground arith
array-Orderly FixlenType.str length s w e = ground arith
array-Orderly FixlenType.blob length s w e = ground arith

fp32_bits :
    (acc byte : ℕ) → bit_or (acc / 2 ^ 8) (byte * 2 ^ 56 % 2 ^ 64) / 2 ^ 32 % 2 ^ 32 < 2 ^ 32
fp32_bits acc byte = omega arith

-- The float of a type that is not `fp64`, then the one of `fp64`.
float-Orderly :
    (s : IStream) (byte : ℕ)
    → IsValid s
    → s.core.state ≡ State.fixlen_val
    → s.core.fixlen_type ≡ FixlenType.fp32
    → byte < 256
    → Orderly (phase_of s) (step_fixlen_val s byte)
unfolding step_fixlen_val follow
float-Orderly s byte v e f h = ground arith

double-Orderly :
    (s : IStream) (byte : ℕ)
    → IsValid s
    → s.core.state ≡ State.fixlen_val
    → s.core.fixlen_type ≡ FixlenType.fp64
    → byte < 256
    → Orderly (phase_of s) (step_fixlen_val s byte)
unfolding step_fixlen_val follow
double-Orderly s byte v e f h = ground (arith, float_push-wide s.core.acc byte)

step_fixlen_val-Orderly :
    (t : FixlenType) (s : IStream) (byte : ℕ)
    → s.core.fixlen_type ≡ t
    → IsValid s
    → s.core.state ≡ State.fixlen_val
    → byte < 256
    → Orderly (phase_of s) (step_fixlen_val s byte)
step_fixlen_val-Orderly FixlenType.fp32 s byte f v e h = float-Orderly s byte v e f h
step_fixlen_val-Orderly FixlenType.fp64 s byte f v e h = double-Orderly s byte v e f h
step_fixlen_val-Orderly FixlenType.str s byte f v e h = absurd (ground arith)
step_fixlen_val-Orderly FixlenType.blob s byte f v e h = absurd (ground arith)

on_subtype-Orderly :
    (r : Result FixlenType) (length : ℕ) (s : IStream)
    → AtWord s
    → ((s.core.state ≡ State.fixlen_len) × (s.array_remaining ≡ 0))
      ⊎ (s.core.state ≡ State.fixlen_array_len)
    → Orderly (phase_of s) (on_subtype r length s)
unfolding on_subtype
on_subtype-Orderly (ok subtype) length s w (inl h) = scalar-Orderly subtype length s w h.0 h.1
on_subtype-Orderly (ok subtype) length s w (inr h) = array-Orderly subtype length s w h
on_subtype-Orderly (err e) length s w h = refl

dispatch-Orderly :
    (st : State) (s : IStream) (value : ℕ)
    → AtWord s
    → s.core.state ≡ st
    → value < 2 ^ 64
    → Orderly (phase_of s) (dispatch st s value)
unfolding dispatch
dispatch-Orderly State.idle s value w e h = on_header-Orderly s value w e
dispatch-Orderly State.invalid s value w e h = refl
dispatch-Orderly State.varint_unsigned s value w e h = unsigned-Orderly s value w e h
dispatch-Orderly State.varint_signed s value w e h =
    signed-Orderly s (zigzag_decode value) w e (ground (arith, decode_parts value h))
dispatch-Orderly State.fixlen_len s value w e h =
    on_subtype-Orderly (from_raw (bit_and value 7)) (value / 8) s w (inl (e, ground arith))
dispatch-Orderly State.fixlen_array_len s value w e h =
    on_subtype-Orderly (from_raw (bit_and value 7)) (value / 8) s w (inr e)
dispatch-Orderly State.array_count s value w e h = on_array_count-Orderly s value w e
dispatch-Orderly State.fixlen_val s value w e h = unfold follow in refl
dispatch-Orderly State.fixlen_raw s value w e h = unfold follow in refl

-- The last byte of a varint keeps its value below 2 ^ 64.
value_fits :
    (acc shift b : ℕ)
    → acc < 2 ^ shift
    → shift % 7 ≡ 0
    → shift ≤ 63
    → ((shift ≡ 63) → b < 2)
    → b < 128
    → acc + b % 128 * 2 ^ shift < 2 ^ 64
value_fits acc shift b h p q r k = ground (arith, group_fits shift (b % 128) p q)

varint_step-Orderly :
    (s : IStream) (byte : ℕ)
    → IsValid s
    → InVarint s.core
    → s.core.state ≢ State.fixlen_val
    → byte < 256
    → Orderly (phase_of s) (step s byte)
unfolding follow
varint_step-Orderly s byte v w a h = ground (
  arith,
  step_lem s byte w a h,
  at_word-AtWord s v w,
  dispatch-Orderly s.core.state (at_word s) (s.core.acc + byte % 128 * 2 ^ s.core.shift),
  value_fits s.core.acc s.core.shift byte,
)

-- A byte fed to a valid decoder that is neither in a bulk payload nor latched tells calls in order.
pub step-Orderly :
    (s : IStream) (byte : ℕ)
    → IsValid s
    → s.core.state ≢ State.fixlen_raw
    → s.core.state ≢ State.invalid
    → byte < 256
    → Orderly (phase_of s) (step s byte)
unfolding step
step-Orderly s byte v e₁ e₂ h = elim (Bool-cases (is_fixlen_val s.core.state)) [
  | inl p ↦
      let float : s.core.state ≡ State.fixlen_val = ground arith in
      rw p (step_fixlen_val-Orderly s.core.fixlen_type s byte refl v float h)
  | inr p ↦
      let a : s.core.state ≢ State.fixlen_val = ground arith in
      varint_step-Orderly s byte v (in_varint s v a e₁ e₂) a h
]
