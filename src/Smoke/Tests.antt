-- ===== src/Smoke/Tests.antt =====
-- The two programs at the values of their source: 42, -7 and "hi".
use corelib_rs_no_std.Common.{ℕ, ◌-◌, ◌^◌, ◌≡◌, arith, List, [], ◌∷◌, some}
use corelib_rs_no_std.Smoke.Baremetal.{sofab_smoke_roundtrip}
use corelib_rs_no_std.Smoke.Host.{main}
use corelib_rs_no_std.Smoke.Passes.{smoke_passes}

abbrev minus_seven : ℕ
minus_seven = 2 ^ 64 - 7

abbrev greeting : List ℕ
greeting = 104 ∷ 105 ∷ []

smoke_passes_example :
    (sofab_smoke_roundtrip 42 minus_seven ≡ 0) × (main 42 minus_seven greeting ≡ some tt)
smoke_passes_example =
    smoke_passes 42 minus_seven greeting (omega arith) (omega arith)
      ((omega arith, (omega arith, tt)), omega arith) (omega arith)
