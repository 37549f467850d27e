-- ===== src/Seq/Heapless.antt =====
-- src/seq.rs: `impl SeqVec for heapless::Vec`, of heapless 0.8 and of 0.9. The vector itself is
-- third-party code: what the back ends call of it is a parameter.
use corelib_rs_no_std.Common.{
  ℕ, zero, suc, ◌<◌, ◌≡◌, ltb, if◌then◌else◌, Bool, true, false, List, [], ◌∷◌, ◌++◌, length, set,
  get_elem?, Option, none, some,
}
use corelib_rs_no_std.Seq.{SeqVec}

-- The operations of a `heapless::Vec<T, N>`: `as_slice`, `push`, whose flag is `is_ok`, the write
-- behind `as_mut_slice().get_mut(i)`, and `clear`.
pub record FixedVec (W T : Type 0) : Type 0 where
  pub as_slice : W → List T
  pub push : T → W → Bool × W
  pub write_at : ℕ → T → W → W
  pub clear : W → W

-- What heapless documents of them, at capacity `n`: `push` appends as long as there is room, a write
-- changes the one element, and `clear` removes all.
pub record IsFixedVec {W T : Type 0} (F : FixedVec W T) (n : ℕ) : Type 0 where
  pub pushes : (x : T) (v : W) → length (F.as_slice v) < n → (F.push x v).0 ≡ true
  pub appends :
      (x : T) (v : W)
      → length (F.as_slice v) < n
      → F.as_slice (F.push x v).1 ≡ F.as_slice v ++ (x ∷ [])
  pub writes : (i : ℕ) (x : T) (v : W) → F.as_slice (F.write_at i x v) ≡ set (F.as_slice v) i x
  pub clears : (v : W) → F.as_slice (F.clear v) ≡ []

module _ {W T : Type 0} (F : FixedVec W T) (n : ℕ) (default : T) where
  -- `while self.as_slice().len() < len`, on fuel for a round a slot.
  unfoldable pub push_loop : ℕ → ℕ → W → Bool × W
  push_loop zero len v = (true, v)
  push_loop (suc fuel) len v =
      let (is_ok, v') = F.push default v in
      let rest = push_loop fuel len v' in
      if ltb (length (F.as_slice v)) len then (if is_ok then rest else (false, v')) else (true, v)

  unfoldable pub fixed_grow_to : ℕ → W → Bool × W
  unfolding push_loop
  fixed_grow_to len v = if ltb n len then (false, v) else push_loop len len v

  abbrev pub fixed_slot : Option T → ℕ → W → Option (T × (T → W))
  fixed_slot none i v = none
  fixed_slot (some x) i v = some (x, λ value. F.write_at i value v)

  -- heapless 0.8
  unfoldable pub heapless_vec : SeqVec W T
  unfolding fixed_grow_to
  heapless_vec = record {
    len = λ v. length (F.as_slice v);
    grow_to = fixed_grow_to;
    slot_mut = λ i v. fixed_slot (get_elem? (F.as_slice v) i) i v;
    clear = F.clear;
  }

  -- heapless 0.9, over any length type: the same text.
  unfoldable pub heapless09_vec : SeqVec W T
  unfolding heapless_vec
  heapless09_vec = heapless_vec
