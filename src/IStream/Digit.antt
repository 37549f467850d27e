-- ===== src/IStream/Digit.antt =====
-- src/istream.rs: `Core::push` in plain arithmetic, for a varint in progress.
use corelib_rs_no_std.Common.{
  ℕ, ◌+◌, ◌-◌, ◌*◌, ◌%◌, ◌^◌, ◌≤◌, ◌<◌, ◌≡◌, arith, ltb, leb, ◌==◌, if◌then◌else◌, ◌&&◌, ap, inl,
  inr, ◌⊎◌,
}
use corelib_rs_no_std.Common.Bits.{or_low_high, and_low_bits, and_top_bit}
use corelib_rs_no_std.IStream.State.{State, Core}
use corelib_rs_no_std.IStream.Push.{push, reset_varint, payload_at}
use native.Mathlib.Nat.{pow-le-pow_right}
use native.Mathlib.Numerals.{towards_suc}

-- A varint whose first bytes are in `acc`: seven bits a byte, at most nine bytes so far.
pub record InVarint (c : Core) : Type 0 where
  pub sevens : c.shift % 7 ≡ 0
  pub short : c.shift ≤ 63
  pub fits : c.acc < 2 ^ c.shift

pub shift_seven : (s : ℕ) → 2 ^ (s + 7) ≡ 128 * 2 ^ s
shift_seven s = simp towards_suc (omega arith)

pub scale : (p q m x : ℕ) → p + q ≡ m → p * x + q * x ≡ m * x
scale p q m x e = omega (arith, ap (λ (t : ℕ). t * x) e)

-- A payload that is not cut off by the width of the value.
pub group_fits :
    (s p : ℕ) → s % 7 ≡ 0 → s ≤ 63 → p < 128 → (s ≡ 63 → p < 2) → p * 2 ^ s + 2 ^ s ≤ 2 ^ 64
group_fits s p h k hp last = elim split [
  | inl e ↦ rw e (omega (arith, last e))
  | inr low ↦ omega (
    arith,
    pow-le-pow_right {n = 2} (omega arith) {i = s} {j = 56} low,
    scale (p + 1) (127 - p) 128 (2 ^ s) (omega arith),
  )
]
  where
    split : (s ≡ 63) ⊎ (s ≤ 56)
    split = grind arith

-- `push` on a byte: in the midst of a varint of at most nine bytes it adds seven bits exactly, ends
-- the varint at a byte below 128, and rejects exactly a tenth byte other than 0 and 1.
pub push_lem :
    (c : Core) (b : ℕ)
    → InVarint c
    → b < 256
    → push c b ≡ (
        if c.shift == 63 && leb 2 b
        then (0, record c { shift = 0; state = State.invalid })
        else let v = c.acc + b % 128 * 2 ^ c.shift in
          (v, if ltb b 128 then reset_varint c else record c { acc = v; shift = c.shift + 7 }))
unfolding push payload_at
push_lem c b v hb = ground (
  arith,
  and_low_bits b,
  and_top_bit b hb,
  group_fits c.shift (b % 128) v.sevens v.short (omega arith),
  or_low_high c.shift (b % 128) c.acc v.fits,
)
