-- ===== src/Floats.antt =====
-- src/floats.rs: equality of float arrays by their bits. A float is its bit pattern, so `to_bits` is
-- the identity.
use corelib_rs_no_std.Common.{
  ℕ, zero, suc, ◌≡◌, ◌↔◌, refl, ap, arith, Bool, true, false, ◌&&◌, ◌==◌, ==_iff, List, [], ◌∷◌,
  length, Bool-cases, inl, inr,
}
mod Tests

-- `a.iter().zip(b).all(|(x, y)| x.to_bits() == y.to_bits())`
abbrev pub all_same : List ℕ → List ℕ → Bool
all_same [] b = true
all_same (x ∷ a) [] = true
all_same (x ∷ a) (y ∷ b) = (x == y) && all_same a b

unfoldable pub bits_equal_f32 : List ℕ → List ℕ → Bool
bits_equal_f32 a b = (length a == length b) && all_same a b

unfoldable pub bits_equal_f64 : List ℕ → List ℕ → Bool
bits_equal_f64 a b = (length a == length b) && all_same a b

same_bits : (a b : List ℕ) → length a ≡ length b → all_same a b ≡ true → a ≡ b
same_bits [] [] e h = refl
same_bits [] (y ∷ b) e h = absurd (omega arith)
same_bits (x ∷ a) [] e h = absurd (omega arith)
same_bits (x ∷ a) (y ∷ b) e h = elim (Bool-cases (x == y)) [
  | inl p ↦
      let head : x ≡ y = (==_iff x y).0 p in
      let tail : a ≡ b = same_bits a b (omega arith) (rw p at h) in rw (head, tail) refl
  | inr p ↦ absurd (let bad : false ≡ true = rw p at h in ground arith)
]

all_same_refl : (a : List ℕ) → all_same a a ≡ true
all_same_refl [] = refl
all_same_refl (x ∷ a) = let same : (x == x) ≡ true = ground arith in rw (same, all_same_refl a) refl

-- Both comparisons hold of two arrays exactly if they consist of the same bit patterns.
pub bits_equal_lem :
    (a b : List ℕ)
    → ((bits_equal_f32 a b ≡ true) ↔ (a ≡ b)) × ((bits_equal_f64 a b ≡ true) ↔ (a ≡ b))
unfolding bits_equal_f32 bits_equal_f64
bits_equal_lem a b = ((equal, same), (equal, same))
  where
    equal : (length a == length b) && all_same a b ≡ true → a ≡ b
    equal h = elim (Bool-cases (length a == length b)) [
      | inl p ↦ same_bits a b ((==_iff _ _).0 p) (rw p at h)
      | inr p ↦ absurd (let bad : false ≡ true = rw p at h in ground arith)
    ]

    same : a ≡ b → (length a == length b) && all_same a b ≡ true
    same e =
        let count : (length b == length b) ≡ true = ground arith in
        rw (e, count, all_same_refl b) refl
