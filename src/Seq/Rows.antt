-- ===== src/Seq/Rows.antt =====
-- src/seq.rs: matrix rows, over destinations of destinations.
use corelib_rs_no_std.Common.{ℕ, ◌≡◌, refl, Bool, true, false, List, [], set}
use corelib_rs_no_std.Error.{Result, ok, err, Nothing, argument}
use corelib_rs_no_std.Seq.{SeqVec, Bound, check_index, reserve_elem, reserve_row, emptied}
use corelib_rs_no_std.Seq.Place.{padded}
use corelib_rs_no_std.Seq.Lawful.{Lawful, Reserves, fits, reserve_elem-Reserves}

module _ {C R E : Type 0} (V : SeqVec C R) (blank : R) (slots : C → List R) (room : ℕ → Bool)
    (L : Lawful V blank slots room) (W : SeqVec R E) (default : E) (elements : R → List E)
    (row_room : ℕ → Bool) (M : Lawful W default elements row_room) where
  -- An empty row, which is in the container already, and what a write to it does.
  abbrev pub Row : C → ℕ → Result (R × (R → C)) × C → Type 0
  Row out id r =
      (row : R) × (write : R → C) × (r.0 ≡ ok (row, write))
      × (elements row ≡ [])
      × (slots r.1 ≡ set (padded blank id (slots out)) id row)
      × ((y : R) → slots (write y) ≡ set (padded blank id (slots out)) id y)

  abbrev pub Rows : Result Nothing → Bool → C → ℕ → Result (R × (R → C)) × C → Type 0
  Rows (err e) fit out id r = r ≡ (err e, out)
  Rows (ok u) false out id r = r ≡ (err argument, out)
  Rows (ok u) true out id r = Row out id r

  emptied_lem :
      (r : Result (R × (R → C))) (out : C) (x : R) (write : R → C)
      → r ≡ ok (x, write)
      → emptied V W (r, out) ≡ (ok (W.clear x, write), write (W.clear x))
  emptied_lem r out x write e = rw e refl

  cleared :
      (r : Result (R × (R → C)) × C) (verdict : Result Nothing) (fit : Bool) (out : C) (id : ℕ)
      → Reserves V blank slots room L verdict fit out id r
      → Rows verdict fit out id (emptied V W r)
  cleared r (err e) fit out id p = rw p refl
  cleared r (ok u) false out id p = rw p refl
  cleared r (ok u) true out id (x, write, e, held, found, wrote) =
      rw (emptied_lem r.0 r.1 x write e)
        (W.clear x, write, refl, M.empties x, wrote (W.clear x), wrote)

  -- On destinations that keep the laws of `SeqVec`, for rows and for the rows' elements, `reserve_row`
  -- gives an id that the bound rejects its error, one that the destination has no room for
  -- `argument`, both with the destination unchanged, and else leaves an empty row at that index,
  -- with defaults in every new slot before it and all else unchanged, and hands it over.
  pub reserve_row-Rows :
      (out : C) (id : ℕ) (bound : Bound)
      → Rows
          (check_index id bound)
          (fits V blank slots room L out id)
          out
          id
          (reserve_row V W out id bound)
  unfolding reserve_row
  reserve_row-Rows out id bound =
      cleared (reserve_elem V out id bound) (check_index id bound)
        (fits V blank slots room L out id) out id
        (reserve_elem-Reserves V blank slots room L out id bound)
