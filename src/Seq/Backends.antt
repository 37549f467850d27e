-- ===== src/Seq/Backends.antt =====
-- src/seq.rs: the back ends keep the laws of `SeqVec`.
use corelib_rs_no_std.Common.{
  ℕ, zero, suc, ◌+◌, ◌-◌, ◌<◌, ◌≤◌, ◌≡◌, refl, ap, sym, ◌∙◌, arith, ltb, Bool, true, false, not, [],
  ◌∷◌, ◌++◌, length, replicate, append-nil, append_assoc, length-append, Bool-cases, inl, inr,
}
use corelib_rs_no_std.Seq.{vec}
use corelib_rs_no_std.Seq.Place.{pushed}
use corelib_rs_no_std.Seq.Lawful.{Lawful}
use corelib_rs_no_std.Seq.Heapless.{
  FixedVec, IsFixedVec, push_loop, fixed_grow_to, heapless_vec, heapless09_vec,
}

abbrev pub any_length : ℕ → Bool
any_length n = true

abbrev pub up_to : ℕ → ℕ → Bool
up_to capacity n = not (ltb capacity n)

-- A `Vec` takes every length.
pub vec-Lawful : {T : Type 0} (default : T) → Lawful (vec default) default (λ xs. xs) any_length
vec-Lawful default = record {
  counts = λ out. refl;
  grows = λ n out h r. (refl, pushed default (n - length out) out);
  refuses = λ n out h r. absurd (ground arith);
  lends = λ i out x e. rw e (_, refl, λ y. refl);
  empties = λ out. refl;
}

module _ {W T : Type 0} (F : FixedVec W T) (n : ℕ) (default : T) (K : IsFixedVec F n) where
  -- Pushing until there are `len` slots: the fuel, a round a slot, is enough.
  push_loop-Grows :
      (fuel len : ℕ) (v : W)
      → len ≤ n
      → len ≤ length (F.as_slice v) + fuel
      → ((push_loop F n default fuel len v).0 ≡ true)
        × (F.as_slice (push_loop F n default fuel len v).1
            ≡ F.as_slice v ++ replicate (len - length (F.as_slice v)) default)
  unfolding push_loop
  push_loop-Grows zero len v h f =
      let none_missing : len - length (F.as_slice v) ≡ 0 = omega arith in
      rw none_missing (refl, sym (append-nil (F.as_slice v)))
  push_loop-Grows (suc fuel) len v h f = elim (Bool-cases (ltb (length (F.as_slice v)) len)) [
    | inl p ↦
        let held = F.as_slice v in
        let v' = (F.push default v).1 in
        let low : length held < n = ground arith in
        let appended = K.appends default v low in
        let longer : length (F.as_slice v') ≡ length held + 1 =
          ap length appended ∙ length-append held (default ∷ []) in
        let k = len - length (F.as_slice v') in
        let one_less : len - length held ≡ suc k = ground arith in
        let (on, filled) = push_loop-Grows fuel len v' h (omega arith) in
        rw (p, K.pushes default v low, one_less)
          (on, filled ∙ ap (λ l. l ++ replicate k default) appended ∙ append_assoc held _ _)
    | inr p ↦
        let none_missing : len - length (F.as_slice v) ≡ 0 = ground arith in
        rw (p, none_missing) (refl, sym (append-nil (F.as_slice v)))
  ]

  fixed_grow_to-Grows :
      (len : ℕ) (v : W)
      → up_to n len ≡ true
      → ((fixed_grow_to F n default len v).0 ≡ true)
        × (F.as_slice (fixed_grow_to F n default len v).1
            ≡ F.as_slice v ++ replicate (len - length (F.as_slice v)) default)
  unfolding fixed_grow_to
  fixed_grow_to-Grows len v r =
      let low : ltb n len ≡ false = ground arith in
      rw low (push_loop-Grows len len v (ground arith) (omega arith))

  fixed_grow_to-Refuses :
      (len : ℕ) (v : W) → up_to n len ≡ false → fixed_grow_to F n default len v ≡ (false, v)
  unfolding fixed_grow_to
  fixed_grow_to-Refuses len v r = let high : ltb n len ≡ true = ground arith in rw high refl

  -- On a vector that does what heapless documents, the back end of heapless 0.8 keeps the laws of
  -- `SeqVec`: it grows by defaults to every length up to the capacity, and refuses a longer one with
  -- nothing grown.
  pub heapless_vec-Lawful : Lawful (heapless_vec F n default) default F.as_slice (up_to n)
  unfolding heapless_vec
  heapless_vec-Lawful = record {
    counts = λ out. refl;
    grows = λ len out h r. fixed_grow_to-Grows len out r;
    refuses = λ len out h r. fixed_grow_to-Refuses len out r;
    lends = λ i out x e. rw e (_, refl, λ y. K.writes i y out);
    empties = K.clears;
  }

  -- The back end of heapless 0.9 likewise.
  pub heapless09_vec-Lawful : Lawful (heapless09_vec F n default) default F.as_slice (up_to n)
  unfolding heapless09_vec
  heapless09_vec-Lawful = heapless_vec-Lawful
