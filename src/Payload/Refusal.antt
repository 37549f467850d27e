-- ===== src/Payload/Refusal.antt =====
-- src/payload.rs: a payload longer than the storage is refused, in any chunks.
use corelib_rs_no_std.Common.{
  ℕ, ◌+◌, ◌<◌, ◌≡◌, refl, ap, false, List, [], ◌∷◌, length, lt→ltb, ◌==◌, Bool-cases, inl, inr,
  Option,
}
use corelib_rs_no_std.Error.{Result, err, argument}
use corelib_rs_no_std.Payload.{PayloadAcc, feed, deliver}

abbrev pub refusals : List (List ℕ) → List (Result (Option (List ℕ)))
refusals [] = []
refusals (c ∷ cs) = err argument ∷ refusals cs

-- An accumulator that is not complete.
abbrev unfinished : List ℕ → ℕ → PayloadAcc
unfinished buf n = record { buf = buf; len = n; complete = false }

refused :
    (total offset n : ℕ) (buf c : List ℕ)
    → length buf < total
    → (k : ℕ) × (feed (unfinished buf n) total offset c ≡ (err argument, unfinished buf k))
unfolding feed
refused total offset n buf c h = elim (Bool-cases (offset == 0)) [
  | inl start ↦ (0, rw (start, lt→ltb _ _ h) refl)
  | inr mid ↦ (n, rw (mid, lt→ltb _ _ h) refl)
]

refused_from :
    (total offset n : ℕ) (buf : List ℕ) (cs : List (List ℕ))
    → length buf < total
    → (deliver total offset cs (unfinished buf n)).0 ≡ refusals cs
unfolding deliver
refused_from total offset n buf [] h = refl
refused_from total offset n buf (c ∷ cs) h =
    let (k, p) = refused total offset n buf c h in
    rw p (ap (λ rs. err argument ∷ rs) (refused_from total (offset + length c) k buf cs h))

restarts_refused :
    (total : ℕ) (c : List ℕ) (cs : List (List ℕ)) (a : PayloadAcc)
    → deliver total 0 (c ∷ cs) a ≡ deliver total 0 (c ∷ cs) (unfinished a.buf 0)
unfolding deliver feed
restarts_refused total c cs a = refl

-- Every chunk of a payload that is longer than the storage, delivered in order from offset 0 in any
-- chunks, is refused with `argument`, whatever the accumulator held before.
pub deliver-refusals :
    (total : ℕ) (cs : List (List ℕ)) (a : PayloadAcc)
    → length a.buf < total
    → (deliver total 0 cs a).0 ≡ refusals cs
deliver-refusals total [] a h = unfold deliver in refl
deliver-refusals total (c ∷ cs) a h = rw restarts_refused (refused_from total 0 0 a.buf (c ∷ cs) h)
