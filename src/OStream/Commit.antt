-- ===== src/OStream/Commit.antt =====
-- src/ostream.rs: `commit_pending` and `write_id_type`, the choke point of every field write.
use corelib_rs_no_std.Common.{
  ℕ, zero, suc, ◌+◌, ◌*◌, ◌%◌, ◌^◌, ◌≤◌, ◌<◌, ◌≡◌, ◌≢◌, refl, ap, sym, ◌∙◌, arith, false, List, [],
  ◌∷◌, ◌++◌, length, take, append-nil, length-take, All, Bool-cases, lt→ltb, inl, inr, ltb, ◌==◌,
  not, bit_or, if◌then◌else◌,
}
use corelib_rs_no_std.Common.Bits.{or_high_low}
use corelib_rs_no_std.Common.Word.{shl64}
use corelib_rs_no_std.Error.{Result, err, Nothing, argument}
use corelib_rs_no_std.Types.{id_max, t_sequence_start}
use corelib_rs_no_std.OStream.Handover.{Flush, Handoff}
use corelib_rs_no_std.OStream.Stream.{OStream, and_write, done, write_varint}
use corelib_rs_no_std.OStream.Fields.{
  shift_down, head_slot, drop_oldest, commit_rounds, commit_pending, write_id_type,
}
use corelib_rs_no_std.OStream.Wrote.{
  View, Keeps, IsValid, frames, Wrote, whole, and_write-Wrote, behind-Wrote,
}
use corelib_rs_no_std.OStream.Push.{write_varint-Wrote}
use corelib_rs_no_std.OStream.Spec.{header, headers}

-- A header word: the id above the three bits of the wire type.
pub word_lem : (x t : ℕ) → x < 2 ^ 61 → t < 8 → bit_or (x * 2 ^ 3 % 2 ^ 64) t ≡ x * 8 + t
word_lem x t h k = ground (arith, or_high_low 3 x t k)

take-shift_down :
    (n : ℕ) (p : List ℕ) → suc n ≤ length p → take (suc n) p ≡ head_slot p ∷ take n (shift_down p)
take-shift_down n [] h = absurd (omega arith)
take-shift_down zero (x ∷ []) h = refl
take-shift_down (suc n) (x ∷ []) h = absurd (omega arith)
take-shift_down zero (x ∷ y ∷ r) h = refl
take-shift_down (suc n) (x ∷ y ∷ r) h = ap (λ t. x ∷ t) (take-shift_down n (y ∷ r) (omega arith))

abbrev behind : List ℕ → List ℕ
behind [] = []
behind (x ∷ xs) = xs

tail_of : {x y : ℕ} (xs ys : List ℕ) → (◌≡◌ {A = List ℕ} (x ∷ xs) (y ∷ ys)) → xs ≡ ys
tail_of xs ys e = ap (λ (l : List ℕ). behind l) e

length-shift_down : (p : List ℕ) → length (shift_down p) ≡ length p
length-shift_down [] = refl
length-shift_down (x ∷ []) = refl
length-shift_down (x ∷ y ∷ r) = ap suc (length-shift_down (y ∷ r))

All-shift_down : (P : ℕ → Type 0) (p : List ℕ) → All P p → All P (shift_down p)
All-shift_down P [] h = h
All-shift_down P (x ∷ []) h = h
All-shift_down P (x ∷ y ∷ r) h = (h.1.0, All-shift_down P (y ∷ r) h.1)

module _ {S : Type 0} (F : Flush S) (H : Handoff S) (seen : View S) (K : Keeps F H seen) where
  drop_oldest-IsValid :
      (s : OStream S) → IsValid F seen s → s.npending ≢ 0 → IsValid F seen (drop_oldest F H s)
  drop_oldest-IsValid s v h = record {
    within = v.within;
    small = v.small;
    streaming = v.streaming;
    slots = rw length-shift_down v.slots;
    window = omega (arith, v.window);
    nested = omega (arith, v.window, v.nested);
    bounded = v.bounded;
    ids = All-shift_down _ s.pending v.ids;
    behind = v.behind;
    good = v.good;
  }

  pub recast :
      {s : OStream S} {fr fr' : ℕ × List ℕ} {bs bs' : List ℕ} {t : Result Nothing × OStream S}
      → fr ≡ fr'
      → bs ≡ bs'
      → Wrote F seen s fr bs t
      → Wrote F seen s fr' bs' t
  recast e e' w = rw (sym e, sym e') w

  -- Dropping a slot is no write.
  from_dropped :
      (s : OStream S) {fr : ℕ × List ℕ} {bytes : List ℕ} {t : Result Nothing × OStream S}
      → Wrote F seen (drop_oldest F H s) fr bytes t
      → Wrote F seen s fr bytes t
  from_dropped s w = behind-Wrote F seen s [] (sym (append-nil _)) (λ off. omega arith) w

  head-le : (p : List ℕ) → All (λ id. id ≤ id_max) p → head_slot p ≤ id_max
  head-le [] h = omega arith
  head-le (x ∷ p) h = h.0

  -- Equal frames have equal counts.
  same_count :
      (s s' : OStream S)
      → IsValid F seen s
      → IsValid F seen s'
      → frames F seen s' ≡ frames F seen s
      → s'.npending ≡ s.npending
  same_count s s' v v' e = omega (
    arith,
    ap (λ (f : ℕ × List ℕ). length f.1) e,
    length-take s.npending s.pending,
    length-take s'.npending s'.pending,
    v.slots,
    v'.slots,
    v.window,
    v'.window,
  )

  rounds_end : (s : OStream S) → commit_rounds F H 0 s ≡ done s
  unfolding commit_rounds
  rounds_end s = refl

  rounds_more :
      (n : ℕ) (s : OStream S)
      → commit_rounds F H (suc n) s
        ≡ and_write
            (write_varint F H (bit_or (shl64 (head_slot s.pending) 3) t_sequence_start) s)
            (λ s'. commit_rounds F H n (drop_oldest F H s'))
  unfolding commit_rounds
  rounds_more n s = refl

  pub header-Wrote :
      (id wire_type : ℕ) (s : OStream S)
      → IsValid F seen s
      → id ≤ id_max
      → wire_type < 8
      → Wrote F seen s
          (frames F seen s)
          (header id wire_type)
          (write_varint F H (bit_or (shl64 id 3) wire_type) s)
  header-Wrote id t s v h k =
      rw (word_lem id t (omega arith) k)
        (write_varint-Wrote F H seen K (id * 8 + t) s v (omega arith))

  pub no_slots :
      (s : OStream S) → IsValid F seen s → s.npending ≡ 0 → frames F seen s ≡ (s.depth, [])
  no_slots s v e = rw e refl

  -- The slots behind the oldest are the same as well.
  same_rest :
      (n : ℕ) (s s' : OStream S)
      → IsValid F seen s
      → IsValid F seen s'
      → frames F seen s' ≡ frames F seen s
      → s.npending ≡ suc n
      → take n (shift_down s'.pending) ≡ take n (shift_down s.pending)
  same_rest n s s' v v' f e =
      let count' : s'.npending ≡ suc n = same_count s s' v v' f ∙ e in
      let all : take s'.npending s'.pending ≡ take s.npending s.pending =
        ap (λ (p : ℕ × List ℕ). p.1) f in
      let both : take (suc n) s'.pending ≡ take (suc n) s.pending = rw (count', e) at all in
      tail_of _ _ (
        sym (take-shift_down n s'.pending (omega (arith, v'.slots, v'.window)))
        ∙ both
        ∙ take-shift_down n s.pending (omega (arith, v.slots, v.window)))

  commit_rounds-Wrote :
      (n : ℕ) (s : OStream S)
      → IsValid F seen s
      → s.npending ≡ n
      → Wrote F seen s (s.depth, []) (headers (take n s.pending)) (commit_rounds F H n s)
  commit_rounds-Wrote zero s v e =
      rw rounds_end (whole v (sym (append-nil _)) (no_slots s v e) (λ q. omega arith))
  commit_rounds-Wrote (suc n) s v e =
      rw (rounds_more, take-shift_down n s.pending (omega (arith, v.slots, v.window)))
        (and_write-Wrote F seen (headers (take n (shift_down s.pending))) _
          (header-Wrote (head_slot s.pending) t_sequence_start s v (head-le s.pending v.ids)
            (omega arith))
          (λ s' v' f.
            let count = same_count s s' v v' f in
            let rest = same_rest n s s' v v' f e in
            let dropped = drop_oldest-IsValid s' v' (omega (arith, count, e)) in
            let later =
              commit_rounds-Wrote n (drop_oldest F H s') dropped (omega (arith, count, e)) in
            recast (ap (λ (p : ℕ × List ℕ). (p.0, [])) f) (ap headers rest)
              (from_dropped s' later)))

  pub commit_pending-Wrote :
      (s : OStream S)
      → IsValid F seen s
      → Wrote F seen s (s.depth, []) (headers (take s.npending s.pending)) (commit_pending F H s)
  unfolding commit_pending
  commit_pending-Wrote s v = commit_rounds-Wrote s.npending s v refl

  -- An id out of range is rejected, and nothing is written.
  pub write_id_type-rejected :
      (id wire_type : ℕ) (s : OStream S)
      → id_max < id
      → write_id_type F H id wire_type s ≡ (err argument, s)
  unfolding write_id_type
  write_id_type-rejected id t s h = rw (lt→ltb _ _ h) refl

  commit_first :
      (id wire_type : ℕ) (s : OStream S)
      → id ≤ id_max
      → write_id_type F H id wire_type s
        ≡ and_write
            (if not (s.npending == 0) then commit_pending F H s else done s)
            (write_varint F H (bit_or (shl64 id 3) wire_type))
  unfolding write_id_type
  commit_first id t s h = let low : ltb id_max id ≡ false = ground arith in rw low refl

  commit-Wrote :
      (s : OStream S)
      → IsValid F seen s
      → Wrote F seen s
          (s.depth, [])
          (headers (take s.npending s.pending))
          (if not (s.npending == 0) then commit_pending F H s else done s)
  commit-Wrote s v = elim (Bool-cases (s.npending == 0)) [
    | inl none_held ↦
        let zero_held : s.npending ≡ 0 = ground arith in
        let empty : headers (take s.npending s.pending) ≡ [] =
          ap (λ (n : ℕ). headers (take n s.pending)) zero_held in
        rw (none_held, empty)
          (whole v (sym (append-nil _)) (no_slots s v zero_held) (λ q. omega arith))
    | inr held ↦ rw held (commit_pending-Wrote s v)
  ]

  -- From a valid encoder, the header of a field with an id in range is emitted behind the headers of
  -- all sequences held back so far, outermost first, and none is held back after it; or, without a
  -- sink, they do not fit, and it fails with `buffer_full` once a front part of these bytes is emitted.
  pub write_id_type-Wrote :
      (id wire_type : ℕ) (s : OStream S)
      → IsValid F seen s
      → id ≤ id_max
      → wire_type < 8
      → Wrote F seen s
          (s.depth, [])
          (headers (take s.npending s.pending) ++ header id wire_type)
          (write_id_type F H id wire_type s)
  write_id_type-Wrote id t s v h k = rw (commit_first id t s h) (
      and_write-Wrote F seen (header id t) _ (commit-Wrote s v)
        (λ s' v' f. rw f at (header-Wrote id t s' v' h k)))
