-- ===== src/Seq/Lawful.antt =====
-- src/seq.rs: what `SeqVec` asks of a destination, and the placing operations on any that keeps it.
use corelib_rs_no_std.Common.{
  ℕ, ◌+◌, ◌-◌, ◌<◌, ◌≤◌, ◌≡◌, refl, ap, ◌∙◌, arith, leb, Bool, true, false, not, ◌||◌, List, [],
  ◌++◌, length, set, get_elem?, replicate, some, Bool-cases, inl, inr,
}
use native.Mathlib.Decide.{dec_lt}
use corelib_rs_no_std.Error.{Error, Result, ok, err, Nothing, argument}
use corelib_rs_no_std.Seq.{
  SeqVec, Bound, check_index, grown, slot_or, store_in, reserve_elem, place_elem,
}
use corelib_rs_no_std.Seq.Place.{padded, in_range, length-padded, no_padding}

-- `slots` is what a destination holds, and `room` which lengths it can take.
pub record Lawful {C E : Type 0} (V : SeqVec C E) (default : E) (slots : C → List E)
    (room : ℕ → Bool) : Type 0 where
  pub counts : (out : C) → V.len out ≡ length (slots out)
  pub grows :
      (n : ℕ) (out : C)
      → length (slots out) < n
      → room n ≡ true
      → ((V.grow_to n out).0 ≡ true)
        × (slots (V.grow_to n out).1 ≡ slots out ++ replicate (n - length (slots out)) default)
  pub refuses :
      (n : ℕ) (out : C) → length (slots out) < n → room n ≡ false → V.grow_to n out ≡ (false, out)
  pub lends :
      (i : ℕ) (out : C) (x : E)
      → get_elem? (slots out) i ≡ some x
      → (write : E → C) × (V.slot_mut i out ≡ some (x, write))
        × ((y : E) → slots (write y) ≡ set (slots out) i y)
  pub empties : (out : C) → slots (V.clear out) ≡ []

module _ {C E : Type 0} (V : SeqVec C E) (default : E) (slots : C → List E) (room : ℕ → Bool)
    (L : Lawful V default slots room) where
  -- The slot at `id` of a container that was filled up to it.
  abbrev pub Slot : C → ℕ → Result (E × (E → C)) × C → Type 0
  Slot out id r =
      (x : E) × (write : E → C) × (r.0 ≡ ok (x, write))
      × (slots r.1 ≡ padded default id (slots out))
      × (get_elem? (padded default id (slots out)) id ≡ some x)
      × ((y : E) → slots (write y) ≡ set (padded default id (slots out)) id y)

  -- The slot, or the container as it was with the first error that applies.
  abbrev pub Reserves : Result Nothing → Bool → C → ℕ → Result (E × (E → C)) × C → Type 0
  Reserves (err e) fits out id r = r ≡ (err e, out)
  Reserves (ok u) true out id r = Slot out id r
  Reserves (ok u) false out id r = r ≡ (err argument, out)

  -- An index is there already, or the destination can take so many slots.
  abbrev pub fits : C → ℕ → Bool
  fits out id = not (leb (length (slots out)) id) || room (id + 1)

  reserve_there :
      (out : C) (id : ℕ) (bound : Bound)
      → check_index id bound ≡ ok tt
      → id < length (slots out)
      → Slot out id (reserve_elem V out id bound)
  unfolding reserve_elem
  reserve_there out id bound e h =
      let (x, found) = in_range default id (slots out) h in
      let (write, lent, wrote) = L.lends id out x found in
      let long : leb (length (slots out)) id ≡ false = ground arith in
      rw (e, L.counts out, long, lent, no_padding default id (slots out) h)
        (x, write, refl, refl, found, wrote)

  grown_lem : (i : ℕ) (r : Bool × C) → r.0 ≡ true → grown V i r ≡ slot_or V (V.slot_mut i r.1) r.1
  grown_lem i (true, out) e = refl
  grown_lem i (false, out) e = absurd (ground arith)

  reserve_new :
      (out : C) (id : ℕ) (bound : Bound)
      → check_index id bound ≡ ok tt
      → length (slots out) ≤ id
      → room (id + 1) ≡ true
      → Slot out id (reserve_elem V out id bound)
  unfolding reserve_elem
  reserve_new out id bound e h r =
      let (on, held) = L.grows (id + 1) out (omega arith) r in
      let (x, found) =
        in_range default id (padded default id (slots out))
          (length-padded default id (slots out)) in
      let (write, lent, wrote) =
        L.lends id (V.grow_to (id + 1) out).1 x (ap (λ l. get_elem? l id) held ∙ found) in
      let short : leb (length (slots out)) id ≡ true = ground arith in
      let sized = grown_lem id (V.grow_to (id + 1) out) on in
      rw (e, L.counts out, short, sized, lent)
        (x, write, refl, held, found, λ y. wrote y ∙ ap (λ l. set l id y) held)

  reserve_full :
      (out : C) (id : ℕ) (bound : Bound)
      → check_index id bound ≡ ok tt
      → length (slots out) ≤ id
      → room (id + 1) ≡ false
      → reserve_elem V out id bound ≡ (err argument, out)
  unfolding reserve_elem
  reserve_full out id bound e h r =
      let refused = L.refuses (id + 1) out (omega arith) r in
      let short : leb (length (slots out)) id ≡ true = ground arith in
      rw (e, L.counts out, short, refused) refl

  reserve_rejected :
      (out : C) (id : ℕ) (bound : Bound) (e : Error)
      → check_index id bound ≡ err e
      → reserve_elem V out id bound ≡ (err e, out)
  unfolding reserve_elem
  reserve_rejected out id bound e p = rw p refl

  -- On every destination that keeps the laws of `SeqVec`, `reserve_elem` gives an id that the bound
  -- rejects its error, one that the destination has no room for `argument`, both with the destination
  -- unchanged, and else hands over the slot of that index, all slots there before unchanged and
  -- defaults in the new ones.
  pub reserve_elem-Reserves :
      (out : C) (id : ℕ) (bound : Bound)
      → Reserves (check_index id bound) (fits out id) out id (reserve_elem V out id bound)
  reserve_elem-Reserves out id bound = by_verdict (check_index id bound) refl
    where
      by_verdict :
          (r : Result Nothing)
          → check_index id bound ≡ r
          → Reserves r (fits out id) out id (reserve_elem V out id bound)
      by_verdict (err e) p = reserve_rejected out id bound e p
      by_verdict (ok u) p = elim (dec_lt id (length (slots out))) [
        | yes there ↦
            let fit : fits out id ≡ true = ground arith in
            rw fit (reserve_there out id bound p there)
        | no beyond ↦ elim (Bool-cases (room (id + 1))) [
          | inl r ↦
              let fit : fits out id ≡ true = ground arith in
              rw fit (reserve_new out id bound p (omega arith) r)
          | inr r ↦
              let full : fits out id ≡ false = ground arith in
              rw full (reserve_full out id bound p (omega arith) r)
        ]
      ]

  abbrev pub Places : Result Nothing → Bool → C → ℕ → E → Result Nothing × C → Type 0
  Places (err e) fit out id value r = r ≡ (err e, out)
  Places (ok u) false out id value r = r ≡ (err argument, out)
  Places (ok u) true out id value r =
      (r.0 ≡ ok tt) × (slots r.1 ≡ set (padded default id (slots out)) id value)

  store_lem :
      (r : Result (E × (E → C))) (out : C) (x : E) (write : E → C) (value : E)
      → r ≡ ok (x, write)
      → store_in V (r, out) value ≡ (ok tt, write value)
  store_lem r out x write value e = rw e refl

  stored :
      (r : Result (E × (E → C)) × C) (verdict : Result Nothing) (fit : Bool) (out : C) (id : ℕ)
      (value : E)
      → Reserves verdict fit out id r
      → Places verdict fit out id value (store_in V r value)
  stored r (err e) fit out id value p = rw p refl
  stored r (ok u) false out id value p = rw p refl
  stored r (ok u) true out id value (x, write, e, held, found, wrote) =
      rw (store_lem r.0 r.1 x write value e) (refl, wrote value)

  -- On every destination that keeps the laws of `SeqVec`, `place_elem` gives an id that the bound
  -- rejects its error, one that the destination has no room for `argument`, both with the destination
  -- unchanged, and else stores the value at that index, with defaults in every new slot before it and
  -- all else unchanged.
  pub place_elem-Places :
      (out : C) (id : ℕ) (bound : Bound) (value : E)
      → Places (check_index id bound) (fits out id) out id value (place_elem V out id bound value)
  unfolding place_elem
  place_elem-Places out id bound value =
      stored (reserve_elem V out id bound) (check_index id bound) (fits out id) out id value
        (reserve_elem-Reserves out id bound)
