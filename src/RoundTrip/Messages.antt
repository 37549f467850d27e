-- ===== src/RoundTrip/Messages.antt =====
-- src/istream.rs on src/ostream.rs: the decoder over what one call to the encoder puts out.
use corelib_rs_no_std.Common.{
  ℕ, suc, ◌+◌, ◌-◌, ◌≤◌, ◌<◌, ◌≡◌, refl, ap, arith, false, Bool-cases, inl, inr, ltb, leb, ◌==◌,
  List, [], ◌∷◌, ◌++◌, length, length-append, append_assoc, All, subst,
}
use corelib_rs_no_std.Error.{Result, ok, err}
use corelib_rs_no_std.Types.{id_max, max_depth, t_sequence_start, t_sequence_end}
use corelib_rs_no_std.IStream.State.{State, Event}
use corelib_rs_no_std.IStream.Step.{on_wire_type}
use corelib_rs_no_std.OStream.Stream.{lazy_seq_depth}
use corelib_rs_no_std.OStream.Spec.{
  Frames, field, begin, end_keep, end_lazy, drop_last, header, headers,
}
use corelib_rs_no_std.RoundTrip.Leads.{dec, Leads-nil, header-Leads}
use corelib_rs_no_std.RoundTrip.Boundary.{Reads, Reads-append, Reads-from, rests}
use corelib_rs_no_std.RoundTrip.Told.{begins, told_begin, told_end}

-- What the open sequences of a message satisfy.
pub record IsSound (fr : Frames) : Type 0 where
  pub held : length fr.1 ≤ fr.0
  pub bounded : fr.0 ≤ max_depth
  pub ids : All (λ id. id ≤ id_max) fr.1

-- The sequences that the decoder has seen open.
abbrev pub framed : Frames → ℕ
framed (depth, held) = depth - length held

-- What an accepted call puts out is read as `events`.
abbrev pub Tells : Frames → Result (List ℕ × Frames) → List Event → Type 0
Tells fr (ok (bytes, fr')) events = Reads (framed fr) bytes (framed fr') events × IsSound fr'
Tells fr (err e) events = Unit

pub Reads-nil : (d : ℕ) → Reads d [] d []
Reads-nil d s r = (s, r, Leads-nil s)

Reads-depth :
    {d d' d'' : ℕ} {xs : List ℕ} {es : List Event} → d' ≡ d'' → Reads d xs d' es → Reads d xs d'' es
Reads-depth {d} {xs = xs} {es = es} e p = subst (λ (n : ℕ). Reads d xs n es) e p

start-Reads :
    (d id : ℕ)
    → id ≤ id_max
    → d < max_depth
    → Reads d (header id t_sequence_start) (d + 1) (Event.sequence_begin id ∷ [])
unfolding on_wire_type
start-Reads d id known h = Reads-from (λ kind subtype old total left. (
  dec State.idle kind subtype (d + 1) 0 id 0 total left,
  rests kind subtype (d + 1) id total left,
  header-Leads kind subtype d old 0 total left id t_sequence_start _ _ known (omega arith)
      (ground arith),
))

end-Reads :
    (d : ℕ)
    → 0 < d
    → d ≤ max_depth
    → Reads d (header 0 t_sequence_end) (d - 1) (Event.sequence_end ∷ [])
unfolding on_wire_type
end-Reads d p h = Reads-from (λ kind subtype old total left. (
  dec State.idle kind subtype (d - 1) 0 0 0 total left,
  rests kind subtype (d - 1) 0 total left,
  header-Leads kind subtype d old 0 total left 0 t_sequence_end _ _ (omega arith) (omega arith)
      (ground arith),
))

-- The headers held back, outermost first.
headers-Reads :
    (held : List ℕ) (d d' : ℕ)
    → All (λ id. id ≤ id_max) held
    → d + length held ≡ d'
    → d' ≤ max_depth
    → Reads d (headers held) d' (begins held)
headers-Reads [] d d' a e h = Reads-depth (omega arith) (Reads-nil d)
headers-Reads (id ∷ held) d d' a e h =
    Reads-append (start-Reads d id a.0 (omega arith))
      (headers-Reads held (d + 1) d' a.1 (omega arith) h)

-- All that is held back, in front of `xs`.
held-Reads :
    (depth depth' : ℕ) (held xs : List ℕ) (events : List Event)
    → IsSound (depth, held)
    → Reads depth xs depth' events
    → Reads (depth - length held) (headers held ++ xs) (depth' - 0) (begins held ++ events)
held-Reads depth depth' held xs events v p = Reads-depth (omega arith) (
    Reads-append
      (headers-Reads held (depth - length held) depth v.ids (omega (arith, v.held)) v.bounded) p)

pub field-Tells :
    (id wire_type : ℕ) (body : List ℕ) (depth : ℕ) (held : List ℕ) (events : List Event)
    → IsSound (depth, held)
    → (id ≤ id_max → Reads depth (header id wire_type ++ body) depth events)
    → Tells (depth, held) (field id wire_type body (depth, held)) (begins held ++ events)
field-Tells id wt body depth held events v h = elim (Bool-cases (ltb id_max id)) [
  | inl high ↦ rw high tt
  | inr low ↦
      let known : id ≤ id_max = ground arith in
      let joined = rw (← append_assoc) at (held-Reads depth depth held _ events v (h known)) in
      rw low (joined, record { held = omega arith; bounded = v.bounded; ids = tt })
]

All-append-id :
    (xs : List ℕ) (id : ℕ)
    → All (λ x. x ≤ id_max) xs
    → id ≤ id_max
    → All (λ x. x ≤ id_max) (xs ++ (id ∷ []))
All-append-id [] id a h = (h, tt)
All-append-id (x ∷ xs) id a h = (a.0, All-append-id xs id a.1 h)

pub begin-Tells :
    (id depth : ℕ) (held : List ℕ)
    → IsSound (depth, held)
    → Tells (depth, held) (begin id (depth, held)) (told_begin id held)
begin-Tells id depth held v = elim (Bool-cases (leb max_depth depth)) [
  | inl deep ↦ rw deep tt
  | inr shallow ↦ elim (Bool-cases (ltb id_max id)) [
    | inl high ↦ rw (shallow, high) tt
    | inr low ↦ elim (Bool-cases (ltb (length held) lazy_seq_depth)) [
      | inl free ↦
          rw (shallow, low, free)
            (
              let one = length-append held (id ∷ []) in
                  Reads-depth (omega (arith, one)) (Reads-nil (depth - length held)),
              record {
                held = omega (arith, length-append held (id ∷ []), v.held);
                bounded = ground arith;
                ids = All-append-id held id v.ids (ground arith);
              },
            )
      | inr full ↦
          rw (shallow, low, full)
            (
              held-Reads depth (depth + 1) held _ _ v
                  (start-Reads depth id (ground arith) (ground arith)),
              record { held = omega arith; bounded = ground arith; ids = tt },
            )
    ]
  ]
]

pub close-Tells :
    (depth : ℕ) (held : List ℕ)
    → IsSound (depth, held)
    → Tells (depth, held) (end_keep (depth, held)) (begins held ++ (Event.sequence_end ∷ []))
close-Tells depth held v = elim (Bool-cases (depth == 0)) [
  | inl top ↦ rw top tt
  | inr nested ↦ rw nested (
    held-Reads depth (depth - 1) held _ _ v (end-Reads depth (ground arith) v.bounded),
    record { held = omega arith; bounded = omega (arith, v.bounded); ids = tt },
  )
]

length-drop_last : (x : ℕ) (xs : List ℕ) → length (drop_last (x ∷ xs)) ≡ length xs
length-drop_last x [] = refl
length-drop_last x (y ∷ ys) = ap suc (length-drop_last y ys)

All-drop_last : (xs : List ℕ) → All (λ id. id ≤ id_max) xs → All (λ id. id ≤ id_max) (drop_last xs)
All-drop_last [] a = a
All-drop_last (x ∷ []) a = tt
All-drop_last (x ∷ y ∷ ys) a = (a.0, All-drop_last (y ∷ ys) a.1)

pub end-Tells :
    (depth : ℕ) (held : List ℕ)
    → IsSound (depth, held)
    → Tells (depth, held) (end_lazy (depth, held)) (told_end held)
end-Tells depth [] v = close-Tells depth [] v
end-Tells depth (id ∷ held) v =
    let inner : (depth == 0) ≡ false = ground (arith, v.held) in
    let fewer = length-drop_last id held in
    rw inner (
      Reads-depth (omega (arith, fewer, v.held)) (Reads-nil (depth - suc (length held))),
      record {
        held = omega (arith, fewer, v.held);
        bounded = omega (arith, v.bounded);
        ids = All-drop_last (id ∷ held) v.ids;
      },
    )
