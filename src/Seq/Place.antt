-- ===== src/Seq/Place.antt =====
-- src/seq.rs: where `place_elem` puts an element.
use corelib_rs_no_std.Common.{
  ℕ, zero, suc, ◌+◌, ◌-◌, ◌<◌, ◌≡◌, refl, sym, ◌∙◌, arith, true, false, leb, List, [], ◌∷◌, length,
  ◌++◌, set, get_elem?, replicate, append-nil, append_assoc, length-append, length-replicate, some,
}
use native.Mathlib.Decide.{dec_lt}
use corelib_rs_no_std.Error.{Error, Result, ok, err, Nothing}
use corelib_rs_no_std.Seq.{Bound, check_index, reserve_elem, place_elem, push_defaults, vec}

module _ {T : Type 0} (default : T) where
  pub pushed : (k : ℕ) (xs : List T) → push_defaults default k xs ≡ xs ++ replicate k default
  pushed zero xs = sym (append-nil xs)
  pushed (suc k) xs =
      pushed k (xs ++ (default ∷ [])) ∙ append_assoc xs (default ∷ []) (replicate k default)

  -- The elements with defaults behind them, up to index `id`.
  abbrev pub padded : ℕ → List T → List T
  padded id xs = xs ++ replicate (id + 1 - length xs) default

  pub in_range : (i : ℕ) (xs : List T) → i < length xs → (x : T) × (get_elem? xs i ≡ some x)
  in_range i [] h = absurd (omega arith)
  in_range zero (x ∷ xs) h = (x, refl)
  in_range (suc i) (x ∷ xs) h = in_range i xs (omega arith)

  pub length-padded : (id : ℕ) (xs : List T) → id < length (padded id xs)
  length-padded id xs =
      rw
        (
          length-append xs (replicate (id + 1 - length xs) default),
          length-replicate (id + 1 - length xs) default,
        )
        (omega arith)

  pub no_padding : (id : ℕ) (xs : List T) → id < length xs → padded id xs ≡ xs
  no_padding id xs h =
      let enough : id + 1 - length xs ≡ 0 = omega arith in rw enough (append-nil xs)

  place_accepted :
      (xs : List T) (id : ℕ) (bound : Bound) (value : T)
      → check_index id bound ≡ ok tt
      → place_elem (vec default) xs id bound value ≡ (ok tt, set (padded id xs) id value)
  unfolding place_elem reserve_elem
  place_accepted xs id bound value e = elim (dec_lt id (length xs)) [
    | yes there ↦
        let (x, found) = in_range id xs there in
        let long : leb (length xs) id ≡ false = ground arith in
        rw (e, long, found, no_padding id xs there) refl
    | no beyond ↦
        let (x, found) = in_range id (padded id xs) (length-padded id xs) in
        let short : leb (length xs) id ≡ true = ground arith in
        rw (e, short, pushed (id + 1 - length xs) xs, found) refl
  ]

  place_rejected :
      (xs : List T) (id : ℕ) (bound : Bound) (value : T) (e : Error)
      → check_index id bound ≡ err e
      → place_elem (vec default) xs id bound value ≡ (err e, xs)
  unfolding place_elem reserve_elem
  place_rejected xs id bound value e p = rw p refl

  abbrev pub Placed : Result Nothing → List T → ℕ → T → Result Nothing × List T → Type 0
  Placed (ok u) xs id value t = t ≡ (ok tt, set (padded id xs) id value)
  Placed (err e) xs id value t = t ≡ (err e, xs)

  -- On a `Vec`, `place_elem` with an id that `check_index` accepts stores the value at that index, with
  -- defaults in every new slot before it and all else unchanged; an id that it rejects gives its
  -- error and changes nothing.
  pub place_elem-Placed :
      (xs : List T) (id : ℕ) (bound : Bound) (value : T)
      → Placed (check_index id bound) xs id value (place_elem (vec default) xs id bound value)
  place_elem-Placed xs id bound value = by_verdict (check_index id bound) refl
    where
      by_verdict :
          (r : Result Nothing)
          → check_index id bound ≡ r
          → Placed r xs id value (place_elem (vec default) xs id bound value)
      by_verdict (ok u) p = place_accepted xs id bound value p
      by_verdict (err e) p = place_rejected xs id bound value e p
