-- ===== src/IStream/Halves.antt =====
-- src/istream.rs: the two versions of `payload_at` agree, for every payload and every shift of a
-- varint of at most 64 bits.
use corelib_rs_no_std.Common.{
  ℕ, zero, suc, ◌+◌, ◌*◌, ◌/◌, ◌%◌, ◌<◌, ◌≡◌, refl, arith, Bool, true, false, if◌then◌else◌, ◌==◌,
  ==_iff,
}
use corelib_rs_no_std.IStream.Push.{payload_at, payload_at_halves}

-- A test run on every number under a bound.
passes_under : (ℕ → Bool) → ℕ → Bool
passes_under test zero = true
passes_under test (suc last) = if test last then passes_under test last else false

passes_at :
    (test : ℕ → Bool) (bound k : ℕ) → k < bound → passes_under test bound ≡ true → test k ≡ true
unfolding passes_under
passes_at test zero k below all = absurd (omega arith)
passes_at test (suc last) k below all = ground (arith, passes_at test last k)

agrees : ℕ → Bool
agrees n = payload_at_halves (n / 64) (n % 64) == payload_at (n / 64) (n % 64)

table : passes_under agrees (128 * 64) ≡ true
unfolding passes_under agrees payload_at payload_at_halves
table = refl

-- On the 7 payload bits of a byte and every shift below 64, the two halves that a 32-bit target
-- computes make up the shifted 64-bit value.
pub halves_agree :
    (payload shift : ℕ)
    → payload < 128
    → shift < 64
    → payload_at_halves payload shift ≡ payload_at payload shift
halves_agree payload shift hp hs = rw (e₁, e₂) at ((==_iff _ _).0 entry)
  where
    n : ℕ
    n = payload * 64 + shift

    e₁ : (payload * 64 + shift) / 64 ≡ payload
    e₁ = omega arith

    e₂ : (payload * 64 + shift) % 64 ≡ shift
    e₂ = omega arith

    entry :
        (payload_at_halves ((payload * 64 + shift) / 64) ((payload * 64 + shift) % 64)
          == payload_at ((payload * 64 + shift) / 64) ((payload * 64 + shift) % 64))
        ≡ true
    entry = unfold agrees in passes_at agrees (128 * 64) (payload * 64 + shift) (omega arith) table
