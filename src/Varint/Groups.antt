-- ===== src/Varint/Groups.antt =====
-- The wire form of a varint, in plain arithmetic: base-128 digits, lowest first, the top bit set on
-- every byte but the last.
use corelib_rs_no_std.Common.{
  ℕ, zero, suc, ◌+◌, ◌/◌, ◌%◌, ◌^◌, ◌≤◌, ◌<◌, arith, ltb, if◌then◌else◌, List, [], ◌∷◌, length, All,
}

-- The digits of `v`, at most `k + 1` of them.
unfoldable pub groups : ℕ → ℕ → List ℕ
groups zero v = v ∷ []
groups (suc k) v =
    let rest = groups k (v / 128) in if ltb v 128 then v ∷ [] else (v % 128 + 128) ∷ rest

-- The varint of a `u64`.
unfoldable pub varint : ℕ → List ℕ
varint v = groups 9 v

groups_shape :
    (k v : ℕ)
    → v < 128 ^ suc k
    → All (λ b. b < 256) (groups k v) × (1 ≤ length (groups k v)) × (length (groups k v) ≤ k + 1)
unfolding groups
groups_shape zero v h = omega arith
groups_shape (suc k) v h = ground (arith, groups_shape k (v / 128) (omega arith))

pub varint_shape :
    (v : ℕ)
    → v < 2 ^ 64
    → All (λ b. b < 256) (varint v) × (1 ≤ length (varint v)) × (length (varint v) ≤ 10)
unfolding varint
varint_shape v h = groups_shape 9 v (omega arith)
