-- ===== src/RoundTrip/RawFloats.antt =====
-- src/istream.rs on src/ostream.rs: a float that `write_fixlen` is handed as raw bytes.
use corelib_rs_no_std.Common.{
  ℕ, ◌/◌, ◌%◌, ◌^◌, ◌≤◌, ◌≡◌, refl, arith, List, [], ◌∷◌, ◌++◌, length, All,
}
use corelib_rs_no_std.Types.{FixlenType, id_max, t_fixlen}
use corelib_rs_no_std.IStream.FeedRun.{IsByte}
use corelib_rs_no_std.OStream.Spec.{header, fixlen_body}
use corelib_rs_no_std.RoundTrip.Payloads.{pushed}
use corelib_rs_no_std.RoundTrip.Boundary.{Reads}
use corelib_rs_no_std.RoundTrip.Scalars.{float-Reads}
use corelib_rs_no_std.RoundTrip.Told.{from_le, told_fixlen}

-- The four or eight bytes of a float.
from_le-four :
    (b₀ b₁ b₂ b₃ : ℕ)
    → All IsByte (b₀ ∷ b₁ ∷ b₂ ∷ b₃ ∷ [])
    → pushed 0 (b₀ ∷ b₁ ∷ b₂ ∷ b₃ ∷ []) / 2 ^ 32 % 2 ^ 32 ≡ from_le (b₀ ∷ b₁ ∷ b₂ ∷ b₃ ∷ [])
from_le-four b₀ b₁ b₂ b₃ a = omega arith

from_le-eight :
    (b₀ b₁ b₂ b₃ b₄ b₅ b₆ b₇ : ℕ)
    → All IsByte (b₀ ∷ b₁ ∷ b₂ ∷ b₃ ∷ b₄ ∷ b₅ ∷ b₆ ∷ b₇ ∷ [])
    → pushed 0 (b₀ ∷ b₁ ∷ b₂ ∷ b₃ ∷ b₄ ∷ b₅ ∷ b₆ ∷ b₇ ∷ [])
      ≡ from_le (b₀ ∷ b₁ ∷ b₂ ∷ b₃ ∷ b₄ ∷ b₅ ∷ b₆ ∷ b₇ ∷ [])
from_le-eight b₀ b₁ b₂ b₃ b₄ b₅ b₆ b₇ a = omega arith

module _ (depth id : ℕ) (known : id ≤ id_max) where
  pub four-Reads :
      (bytes : List ℕ)
      → length bytes ≡ 4
      → All IsByte bytes
      → Reads depth
          (header id t_fixlen ++ fixlen_body bytes FixlenType.fp32)
          depth
          (told_fixlen id bytes FixlenType.fp32)
  four-Reads [] e a = absurd (omega arith)
  four-Reads (b₀ ∷ []) e a = absurd (omega arith)
  four-Reads (b₀ ∷ b₁ ∷ []) e a = absurd (omega arith)
  four-Reads (b₀ ∷ b₁ ∷ b₂ ∷ []) e a = absurd (omega arith)
  four-Reads (b₀ ∷ b₁ ∷ b₂ ∷ b₃ ∷ []) e a =
      rw (from_le-four b₀ b₁ b₂ b₃ a) at
        (float-Reads depth id known FixlenType.fp32 b₀ (b₁ ∷ b₂ ∷ b₃ ∷ []) refl a)
  four-Reads (b₀ ∷ b₁ ∷ b₂ ∷ b₃ ∷ x ∷ xs) e a = absurd (omega arith)

  pub eight-Reads :
      (bytes : List ℕ)
      → length bytes ≡ 8
      → All IsByte bytes
      → Reads depth
          (header id t_fixlen ++ fixlen_body bytes FixlenType.fp64)
          depth
          (told_fixlen id bytes FixlenType.fp64)
  eight-Reads [] e a = absurd (omega arith)
  eight-Reads (b₀ ∷ []) e a = absurd (omega arith)
  eight-Reads (b₀ ∷ b₁ ∷ []) e a = absurd (omega arith)
  eight-Reads (b₀ ∷ b₁ ∷ b₂ ∷ []) e a = absurd (omega arith)
  eight-Reads (b₀ ∷ b₁ ∷ b₂ ∷ b₃ ∷ []) e a = absurd (omega arith)
  eight-Reads (b₀ ∷ b₁ ∷ b₂ ∷ b₃ ∷ b₄ ∷ []) e a = absurd (omega arith)
  eight-Reads (b₀ ∷ b₁ ∷ b₂ ∷ b₃ ∷ b₄ ∷ b₅ ∷ []) e a = absurd (omega arith)
  eight-Reads (b₀ ∷ b₁ ∷ b₂ ∷ b₃ ∷ b₄ ∷ b₅ ∷ b₆ ∷ []) e a = absurd (omega arith)
  eight-Reads (b₀ ∷ b₁ ∷ b₂ ∷ b₃ ∷ b₄ ∷ b₅ ∷ b₆ ∷ b₇ ∷ []) e a =
      rw (from_le-eight b₀ b₁ b₂ b₃ b₄ b₅ b₆ b₇ a) at (
        float-Reads depth id known FixlenType.fp64 b₀ (b₁ ∷ b₂ ∷ b₃ ∷ b₄ ∷ b₅ ∷ b₆ ∷ b₇ ∷ []) refl
          a)
  eight-Reads (b₀ ∷ b₁ ∷ b₂ ∷ b₃ ∷ b₄ ∷ b₅ ∷ b₆ ∷ b₇ ∷ x ∷ xs) e a = absurd (omega arith)
