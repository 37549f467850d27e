-- ===== src/IStream/Preserve.antt =====
-- src/istream.rs: every handler keeps the invariant.
use corelib_rs_no_std.Common.{
  [], ℕ, ◌+◌, ◌-◌, ◌*◌, ◌/◌, ◌%◌, ◌^◌, ◌≤◌, ◌<◌, ◌≡◌, ◌≢◌, arith, bit_and, bit_or, inl, inr, ◌⊎◌,
}
use corelib_rs_no_std.Common.Bits.{or_low_high}
use corelib_rs_no_std.Error.{Result, ok, err}
use corelib_rs_no_std.Types.{FixlenType, from_raw}
use corelib_rs_no_std.IStream.State.{State, IStream, Turn}
use corelib_rs_no_std.IStream.Step.{
  on_header, advance_after_element, on_fixlen_type, on_subtype, on_array_count, step_fixlen_val,
  dispatch, step,
}
use corelib_rs_no_std.IStream.Digit.{InVarint, shift_seven, group_fits, scale}
use corelib_rs_no_std.IStream.Word.{at_word, step_lem}
use corelib_rs_no_std.IStream.Valid.{IsValid}

-- What a handler guarantees: the invariant, and that only a rejection makes the decoder invalid.
pub record Keeps (t : Turn) : Type 0 where
  pub valid : IsValid t.1
  pub alive : t.0 ≡ ok tt → t.1.core.state ≢ State.invalid

-- Between two varints: the accumulator is empty.
pub record AtWord (s : IStream) : Type 0 where
  pub valid : IsValid s
  pub empty : s.core.acc ≡ 0
  pub fresh : s.core.shift ≡ 0

on_header-Keeps :
    (s : IStream) (header : ℕ) → AtWord s → s.core.state ≡ State.idle → Keeps (on_header s header)
unfolding on_header
on_header-Keeps s header w h = ground arith

advance-Keeps :
    (s : IStream)
    → AtWord s
    → (s.core.state ≡ State.varint_unsigned) ⊎ (s.core.state ≡ State.varint_signed)
    → Keeps (ok tt, (advance_after_element s).1, [])
unfolding advance_after_element
advance-Keeps s w h = ground arith

on_array_count-Keeps :
    (s : IStream) (count : ℕ) → AtWord s → s.array_remaining ≡ 0 → Keeps (on_array_count s count)
unfolding on_array_count
on_array_count-Keeps s count w h = ground arith

on_fixlen_type-Keeps :
    (subtype : FixlenType) (length : ℕ) (s : IStream)
    → AtWord s
    → (s.core.state ≡ State.fixlen_len) ⊎ (s.core.state ≡ State.fixlen_array_len)
    → Keeps (on_fixlen_type subtype length s)
unfolding on_fixlen_type
on_fixlen_type-Keeps FixlenType.fp32 length s w h = ground arith
on_fixlen_type-Keeps FixlenType.fp64 length s w h = ground arith
on_fixlen_type-Keeps FixlenType.str length s w h = ground arith
on_fixlen_type-Keeps FixlenType.blob length s w h = ground arith

on_subtype-Keeps :
    (r : Result FixlenType) (length : ℕ) (s : IStream)
    → AtWord s
    → (s.core.state ≡ State.fixlen_len) ⊎ (s.core.state ≡ State.fixlen_array_len)
    → Keeps (on_subtype r length s)
unfolding on_subtype
on_subtype-Keeps (ok subtype) length s w h = on_fixlen_type-Keeps subtype length s w h
on_subtype-Keeps (err e) length s w h = ground arith

pub float_push-wide :
    (acc byte : ℕ)
    → acc < 2 ^ 64
    → byte < 256
    → bit_or (acc / 2 ^ 8) (byte * 2 ^ 56 % 2 ^ 64) ≡ acc / 256 + byte * 2 ^ 56
float_push-wide acc byte h k = ground (arith, or_low_high 56 byte (acc / 2 ^ 8))

step_fixlen_val-Keeps :
    (s : IStream) (byte : ℕ)
    → IsValid s
    → s.core.state ≡ State.fixlen_val
    → byte < 256
    → Keeps (step_fixlen_val s byte)
unfolding step_fixlen_val
step_fixlen_val-Keeps s byte v e h = ground (arith, float_push-wide s.core.acc byte)

dispatch-Keeps :
    (st : State) (s : IStream) (value : ℕ)
    → AtWord s
    → s.core.state ≡ st
    → Keeps (dispatch st s value)
unfolding dispatch
dispatch-Keeps State.idle s value w e = on_header-Keeps s value w e
dispatch-Keeps State.invalid s value w e = ground arith
dispatch-Keeps State.varint_unsigned s value w e = ground (arith, advance-Keeps s w (inl e))
dispatch-Keeps State.varint_signed s value w e = ground (arith, advance-Keeps s w (inr e))
dispatch-Keeps State.fixlen_len s value w e =
    on_subtype-Keeps (from_raw (bit_and value 7)) (value / 8) s w (inl e)
dispatch-Keeps State.fixlen_array_len s value w e =
    on_subtype-Keeps (from_raw (bit_and value 7)) (value / 8) s w (inr e)
dispatch-Keeps State.array_count s value w e = on_array_count-Keeps s value w (ground arith)
dispatch-Keeps State.fixlen_val s value w e = ground arith
dispatch-Keeps State.fixlen_raw s value w e = ground arith

pub in_varint :
    (s : IStream)
    → IsValid s
    → s.core.state ≢ State.fixlen_val
    → s.core.state ≢ State.fixlen_raw
    → s.core.state ≢ State.invalid
    → InVarint s.core
in_varint s v a b c = ground arith

pub at_word-AtWord : (s : IStream) → IsValid s → InVarint s.core → AtWord (at_word s)
at_word-AtWord s v w = ground arith

-- The accumulator of a varint that goes on.
pub digit_fits :
    (acc shift b : ℕ)
    → acc < 2 ^ shift
    → shift % 7 ≡ 0
    → shift ≤ 63
    → ((shift ≡ 63) → b < 2)
    → 128 ≤ b
    → b < 256
    → (acc + b % 128 * 2 ^ shift < 2 ^ (shift + 7))
      × (shift + 7 ≤ 63)
      × ((shift + 7) % 7 ≡ 0)
      × (acc + b % 128 * 2 ^ shift < 2 ^ 64)
digit_fits acc shift b h p q r lo hi = ground (
  arith,
  shift_seven shift,
  group_fits shift (b % 128) p q,
  scale (b % 128 + 1) (127 - b % 128) 128 (2 ^ shift),
)

varint_step-Keeps :
    (s : IStream) (byte : ℕ)
    → IsValid s
    → s.core.state ≢ State.fixlen_val
    → s.core.state ≢ State.fixlen_raw
    → s.core.state ≢ State.invalid
    → byte < 256
    → Keeps (step s byte)
varint_step-Keeps s byte v a b c h = ground (
  arith,
  step_lem s byte (in_varint s v a b c) a h,
  at_word-AtWord s v (in_varint s v a b c),
  dispatch-Keeps s.core.state (at_word s) (s.core.acc + byte % 128 * 2 ^ s.core.shift),
  digit_fits s.core.acc s.core.shift byte,
)

-- A byte fed to a valid decoder that is neither in a bulk payload nor latched keeps it valid, and a
-- step that succeeds does not latch it.
pub step-Keeps :
    (s : IStream) (byte : ℕ)
    → IsValid s
    → s.core.state ≢ State.fixlen_raw
    → s.core.state ≢ State.invalid
    → byte < 256
    → Keeps (step s byte)
unfolding step
step-Keeps s byte v e₁ e₂ h =
    ground (arith, step_fixlen_val-Keeps s byte v, varint_step-Keeps s byte v)
