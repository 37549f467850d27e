-- ===== src/Seq.antt =====
-- src/seq.rs: bounds, and the destination of a wrapper array. A `&mut` slot is the element and the
-- container that a write to it leaves.
use corelib_rs_no_std.Common.{
  ℕ, zero, suc, ◌+◌, ◌-◌, leb, ltb, if◌then◌else◌, Bool, true, false, List, [], ◌∷◌, length, ◌++◌,
  set, get_elem?, replicate, Option, none, some,
}
use corelib_rs_no_std.Error.{Result, ok, err, Nothing, argument, invalid_msg, limit_exceeded}
pub mod Place
pub mod Heapless
pub mod Lawful
pub mod Backends
pub mod Rows
pub mod Bounds
mod Tests

pub data Bound : Type 0 where
  schema cap : ℕ → Bound

-- `trait SeqVec`, over containers `C` of elements `E`.
pub record SeqVec (C E : Type 0) : Type 0 where
  pub len : C → ℕ
  pub grow_to : ℕ → C → Bool × C
  pub slot_mut : ℕ → C → Option (E × (E → C))
  pub clear : C → C

unfoldable pub check_index : ℕ → Bound → Result Nothing
check_index id (Bound.schema n) = if leb n id then err invalid_msg else ok tt
check_index id (Bound.cap zero) = err argument
check_index id (Bound.cap (suc n)) = if leb (suc n) id then err limit_exceeded else ok tt

unfoldable pub check_len : ℕ → Bound → Result Nothing
check_len len (Bound.schema n) = if ltb n len then err invalid_msg else ok tt
check_len len (Bound.cap zero) = err argument
check_len len (Bound.cap (suc n)) = if ltb (suc n) len then err limit_exceeded else ok tt

module _ {C E : Type 0} (V : SeqVec C E) where
  -- `out.slot_mut(i).ok_or(Error::Argument)`
  abbrev pub slot_or : Option (E × (E → C)) → C → Result (E × (E → C)) × C
  slot_or none out = (err argument, out)
  slot_or (some slot) out = (ok slot, out)

  abbrev pub grown : ℕ → Bool × C → Result (E × (E → C)) × C
  grown i (true, out) = slot_or (V.slot_mut i out) out
  grown i (false, out) = (err argument, out)

  abbrev pub behind_check : Result Nothing → ℕ → C → Result (E × (E → C)) × C
  behind_check (err e) i out = (err e, out)
  behind_check (ok u) i out =
      if leb (V.len out) i then grown i (V.grow_to (i + 1) out) else slot_or (V.slot_mut i out) out

  -- The slot or the error, and the container as it is before a write to the slot.
  unfoldable pub reserve_elem : C → ℕ → Bound → Result (E × (E → C)) × C
  unfolding check_index
  reserve_elem out id bound = behind_check (check_index id bound) id out

  abbrev pub store_in : Result (E × (E → C)) × C → E → Result Nothing × C
  store_in (ok (old, write), out) value = (ok tt, write value)
  store_in (err e, out) value = (err e, out)

  unfoldable pub place_elem : C → ℕ → Bound → E → Result Nothing × C
  unfolding reserve_elem
  place_elem out id bound value = store_in (reserve_elem out id bound) value

module _ {C R E : Type 0} (V : SeqVec C R) (W : SeqVec R E) where
  abbrev pub emptied : Result (R × (R → C)) × C → Result (R × (R → C)) × C
  emptied (ok (row, write), out) = (ok (W.clear row, write), write (W.clear row))
  emptied (err e, out) = (err e, out)

  unfoldable pub reserve_row : C → ℕ → Bound → Result (R × (R → C)) × C
  unfolding reserve_elem
  reserve_row out id bound = emptied (reserve_elem V out id bound)

-- `impl SeqVec for Vec<T>`: `missing` rounds of `push(T::default())`.
module _ {T : Type 0} (default : T) where
  abbrev pub push_defaults : ℕ → List T → List T
  push_defaults zero xs = xs
  push_defaults (suc missing) xs = push_defaults missing (xs ++ (default ∷ []))

  abbrev vec_slot : Option T → ℕ → List T → Option (T × (T → List T))
  vec_slot none i xs = none
  vec_slot (some x) i xs = some (x, λ value. set xs i value)

  abbrev pub vec : SeqVec (List T) T
  vec = record {
    len = length;
    grow_to = λ n xs. (true, push_defaults (n - length xs) xs);
    slot_mut = λ i xs. vec_slot (get_elem? xs i) i xs;
    clear = λ xs. [];
  }
