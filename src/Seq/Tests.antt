-- ===== src/Seq/Tests.antt =====
-- Placing an element beyond the end of a vector, in a vector that is full, and a row anew.
use corelib_rs_no_std.Common.{
  ℕ, ◌≡◌, refl, arith, ltb, if◌then◌else◌, true, false, List, [], ◌∷◌, ◌++◌, length, set,
}
use corelib_rs_no_std.Error.{ok, err, argument, limit_exceeded}
use corelib_rs_no_std.Seq.{Bound, check_index, reserve_elem, place_elem, reserve_row, vec}
use corelib_rs_no_std.Seq.Heapless.{FixedVec, IsFixedVec, heapless_vec}
use corelib_rs_no_std.Seq.Lawful.{Lawful, place_elem-Places}
use corelib_rs_no_std.Seq.Backends.{any_length, up_to, vec-Lawful, heapless_vec-Lawful}
use corelib_rs_no_std.Seq.Rows.{Rows, reserve_row-Rows}
use corelib_rs_no_std.Seq.Place.{Placed, place_elem-Placed}

abbrev blank : ℕ
blank = 0

abbrev one : List ℕ
one = 7 ∷ []

a_gap : place_elem (vec blank) one 3 (Bound.cap 4) 9 ≡ (ok tt, 7 ∷ 0 ∷ 0 ∷ 9 ∷ [])
unfolding place_elem reserve_elem check_index
a_gap = refl

out_of_bounds : place_elem (vec blank) one 4 (Bound.cap 4) 9 ≡ (err limit_exceeded, one)
unfolding place_elem reserve_elem check_index
out_of_bounds = refl

place_elem-Placed_example :
    Placed blank
      (check_index 3 (Bound.cap 4))
      one
      3
      9
      (place_elem (vec blank) one 3 (Bound.cap 4) 9)
place_elem-Placed_example = place_elem-Placed blank one 3 (Bound.cap 4) 9

-- A vector of four slots, that does what heapless documents.
abbrev shelf : FixedVec (List ℕ) ℕ
shelf = record {
  as_slice = λ v. v;
  push = λ x v. if ltb (length v) 4 then (true, v ++ (x ∷ [])) else (false, v);
  write_at = λ i x v. set v i x;
  clear = λ v. [];
}

shelf-IsFixedVec : IsFixedVec shelf 4
shelf-IsFixedVec = record {
  pushes = λ x v h. (ground arith);
  appends = λ x v h. (ground arith);
  writes = λ i x v. refl;
  clears = λ v. refl;
}

abbrev held_slots : List ℕ → List ℕ
held_slots v = v

heapless_vec-Lawful_example : Lawful (heapless_vec shelf 4 blank) blank held_slots (up_to 4)
heapless_vec-Lawful_example = heapless_vec-Lawful shelf 4 blank shelf-IsFixedVec

-- The capacity is exceeded before the bound is.
place_elem-Places_example :
    place_elem (heapless_vec shelf 4 blank) one 4 (Bound.cap 9) 9 ≡ (err argument, one)
unfolding check_index
place_elem-Places_example =
    place_elem-Places (heapless_vec shelf 4 blank) blank held_slots (up_to 4)
      (heapless_vec-Lawful shelf 4 blank shelf-IsFixedVec) one 4 (Bound.cap 9) 9

abbrev one_row : List (List ℕ)
one_row = (1 ∷ []) ∷ []

-- A row that is there already starts over.
reserve_row-Rows_example :
    Rows
      (vec [])
      []
      (λ rows. rows)
      any_length
      (vec-Lawful [])
      (vec blank)
      blank
      held_slots
      any_length
      (vec-Lawful blank)
      (ok tt)
      true
      one_row
      0
      (reserve_row (vec []) (vec blank) one_row 0 (Bound.schema 3))
unfolding check_index
reserve_row-Rows_example =
    reserve_row-Rows (vec []) [] (λ rows. rows) any_length (vec-Lawful []) (vec blank) blank
      held_slots any_length (vec-Lawful blank) one_row 0 (Bound.schema 3)
