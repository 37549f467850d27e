-- ===== src/Floats/Tests.antt =====
-- `-0.0` is not `0.0`.
use corelib_rs_no_std.Common.{◌≡◌, ◌↔◌, refl, true, false, ℕ, List, [], ◌∷◌}
use corelib_rs_no_std.Floats.{bits_equal_f32, bits_equal_f64, bits_equal_lem}

zeros_differ : bits_equal_f32 (0x8000_0000 ∷ []) (0 ∷ []) ≡ false
unfolding bits_equal_f32
zeros_differ = refl

abbrev minus_zero : List ℕ
minus_zero = 0x8000_0000 ∷ []

abbrev plus_zero : List ℕ
plus_zero = 0 ∷ []

bits_equal_lem_example :
    ((bits_equal_f32 minus_zero plus_zero ≡ true) ↔ (minus_zero ≡ plus_zero))
    × ((bits_equal_f64 minus_zero plus_zero ≡ true) ↔ (minus_zero ≡ plus_zero))
bits_equal_lem_example = bits_equal_lem minus_zero plus_zero
