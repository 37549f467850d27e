-- ===== src/OStream/Sequences.antt =====
-- src/ostream.rs: opening and closing a sequence does what `spec` says.
use corelib_rs_no_std.Common.{
  ℕ, zero, suc, ◌+◌, ◌-◌, ◌^◌, ◌%◌, ◌≤◌, ◌<◌, ◌≡◌, ◌≢◌, refl, ap, sym, arith, true, false, List, [],
  ◌∷◌, ◌++◌, length, take, set, append-nil, length-set, length-take, take-set, All, Bool-cases,
  lt→ltb, inl, inr, ◌⊎◌, leb, ltb, ◌==◌, if◌then◌else◌, bit_or,
}
use corelib_rs_no_std.Common.Word.{shl64}
use native.Mathlib.Decide.{dec_lt}
use corelib_rs_no_std.Error.{ok, err, argument}
use corelib_rs_no_std.Types.{id_max, max_depth, t_sequence_start, t_sequence_end}
use corelib_rs_no_std.OStream.Handover.{Flush, Handoff}
use corelib_rs_no_std.OStream.Stream.{OStream, ◌>>◌, write_varint, lazy_seq_depth}
use corelib_rs_no_std.OStream.Fields.{
  commit_pending, deeper, shallower, write_sequence_begin_lazy, write_sequence_end_keep,
}
use corelib_rs_no_std.OStream.Wrote.{View, Keeps, IsValid, frames, Wrote, whole, and_write-Wrote}
use corelib_rs_no_std.OStream.Commit.{
  recast, header-Wrote, commit_pending-Wrote, write_id_type-Wrote,
}
use corelib_rs_no_std.OStream.Field.{Does}
use corelib_rs_no_std.OStream.Spec.{Frames, header, headers, begin, end_keep}

module _ {S : Type 0} (F : Flush S) (H : Handoff S) (seen : View S) (K : Keeps F H seen) where
  deeper-Wrote :
      (s : OStream S)
      → IsValid F seen s
      → s.depth < max_depth
      → Wrote F seen s (s.depth + 1, take s.npending s.pending) [] (deeper F H s)
  deeper-Wrote s v h =
      whole
        (record {
          within = v.within;
          small = v.small;
          streaming = v.streaming;
          slots = v.slots;
          window = v.window;
          nested = omega (arith, v.nested);
          bounded = omega arith;
          ids = v.ids;
          behind = v.behind;
          good = v.good;
        })
        (sym (append-nil _)) (ap (λ (d : ℕ). (d, take s.npending s.pending)) (omega arith))
        (λ q. omega arith)

  shallower-Wrote :
      (s : OStream S)
      → IsValid F seen s
      → s.npending < s.depth
      → Wrote F seen s (s.depth - 1, take s.npending s.pending) [] (shallower F H s)
  shallower-Wrote s v h =
      whole
        (record {
          within = v.within;
          small = v.small;
          streaming = v.streaming;
          slots = v.slots;
          window = v.window;
          nested = omega (arith, v.bounded);
          bounded = omega (arith, v.bounded);
          ids = v.ids;
          behind = v.behind;
          good = v.good;
        })
        (sym (append-nil _))
        (ap (λ (d : ℕ). (d, take s.npending s.pending)) (omega (arith, v.bounded)))
        (λ q. omega arith)

  take-more :
      (n : ℕ) (p : List ℕ) (x : ℕ) → n < length p → take (n + 1) (set p n x) ≡ take n p ++ (x ∷ [])
  take-more n p x h = take-set p n x h

  All-set : (P : ℕ → Type 0) (p : List ℕ) (n x : ℕ) → All P p → P x → All P (set p n x)
  All-set P [] n x a h = a
  All-set P (y ∷ ys) zero x a h = (h, a.1)
  All-set P (y ∷ ys) (suc n) x a h = (a.0, All-set P ys n x a.1 h)

  -- A slot for one more unframed sequence.
  held-IsValid :
      (s : OStream S) (id : ℕ)
      → IsValid F seen s
      → s.depth < max_depth
      → id ≤ id_max
      → s.npending < lazy_seq_depth
      → IsValid F seen (record s {
        pending = set s.pending s.npending id;
        npending = (s.npending + 1) % 2 ^ 16;
        depth = (s.depth + 1) % 2 ^ 16;
      })
  held-IsValid s id v h k l = record {
    within = v.within;
    small = v.small;
    streaming = v.streaming;
    slots = rw length-set v.slots;
    window = omega arith;
    nested = omega (arith, v.nested);
    bounded = omega arith;
    ids = All-set (λ id. id ≤ id_max) s.pending s.npending id v.ids k;
    behind = v.behind;
    good = v.good;
  }

  held-Wrote :
      (s : OStream S) (id : ℕ)
      → IsValid F seen s
      → s.depth < max_depth
      → id ≤ id_max
      → s.npending < lazy_seq_depth
      → Wrote F seen s
          (s.depth + 1, take s.npending s.pending ++ (id ∷ []))
          []
          (deeper F H (record s {
            pending = set s.pending s.npending id;
            npending = (s.npending + 1) % 2 ^ 16;
          }))
  held-Wrote s id v h k l =
      let one : (s.npending + 1) % 2 ^ 16 ≡ s.npending + 1 = omega arith in
      let below : (s.depth + 1) % 2 ^ 16 ≡ s.depth + 1 = omega arith in
      whole (held-IsValid s id v h k l) (sym (append-nil _))
        (rw (one, below, take-set s.pending s.npending id (omega (arith, v.slots))) refl)
        (λ q. omega arith)

  eager-Wrote :
      (s : OStream S) (id : ℕ)
      → IsValid F seen s
      → s.depth < max_depth
      → id ≤ id_max
      → Wrote F seen s
          (s.depth + 1, [])
          (headers (take s.npending s.pending) ++ header id t_sequence_start)
          ((commit_pending F H
              >> write_varint F H (bit_or (shl64 id 3) t_sequence_start)
              >> deeper F H)
            s)
  eager-Wrote s id v h k =
      let framed : Wrote F seen s (s.depth, [])
          (headers (take s.npending s.pending) ++ header id t_sequence_start)
          ((commit_pending F H >> write_varint F H (bit_or (shl64 id 3) t_sequence_start)) s) =
        and_write-Wrote F seen (header id t_sequence_start) _ (commit_pending-Wrote F H seen K s v)
          (λ s' v' f.
            rw f at (header-Wrote F H seen K id t_sequence_start s' v' k (omega arith))) in
      recast F H seen K refl (append-nil _) (
        and_write-Wrote F seen [] (deeper F H) framed (λ s' v' f.
          recast F H seen K (ap (λ (p : Frames). (p.0 + 1, p.1)) f) refl
            (deeper-Wrote s' v' (omega (arith, ap (λ (p : Frames). p.0) f)))))

  begin_cases :
      (s : OStream S) (id : ℕ)
      → s.depth < max_depth
      → id ≤ id_max
      → (s.npending < length s.pending
          → write_sequence_begin_lazy F H id s
            ≡ deeper F H (record s {
              pending = set s.pending s.npending id;
              npending = (s.npending + 1) % 2 ^ 16;
            }))
        × (length s.pending ≤ s.npending
            → write_sequence_begin_lazy F H id s
              ≡ (commit_pending F H
                    >> write_varint F H (bit_or (shl64 id 3) t_sequence_start)
                    >> deeper F H)
                  s)
  unfolding write_sequence_begin_lazy
  begin_cases s id h k =
      let shallow : leb max_depth s.depth ≡ false = ground arith in
      let low : ltb id_max id ≡ false = ground arith in
      (
        λ room. rw (shallow, low, lt→ltb _ _ room) refl,
        λ full.
            let none_free : ltb s.npending (length s.pending) ≡ false = ground arith in
            rw (shallow, low, none_free) refl,
      )

  begin_rejected :
      (id : ℕ) (s : OStream S)
      → (leb max_depth s.depth ≡ true) ⊎ (ltb id_max id ≡ true)
      → write_sequence_begin_lazy F H id s ≡ (err argument, s)
  unfolding write_sequence_begin_lazy
  begin_rejected id s (inl deep) = rw deep refl
  begin_rejected id s (inr high) = elim (Bool-cases (leb max_depth s.depth)) [
    | inl deep ↦ rw deep refl
    | inr shallow ↦ rw (shallow, high) refl
  ]

  begin_held :
      (id : ℕ) (s : OStream S)
      → IsValid F seen s
      → s.depth < max_depth
      → id ≤ id_max
      → Does F H seen K
          (if ltb (length (take s.npending s.pending)) lazy_seq_depth
            then ok ([], (s.depth + 1, take s.npending s.pending ++ (id ∷ [])))
            else ok (
              headers (take s.npending s.pending) ++ header id t_sequence_start,
              (s.depth + 1, []),
            ))
          s
          (write_sequence_begin_lazy F H id s)
  begin_held id s v h k =
      let (room, none_free) = begin_cases s id h k in
      let count : length (take s.npending s.pending) ≡ s.npending =
        omega (arith, length-take s.npending s.pending, v.slots, v.window) in
      elim (dec_lt s.npending lazy_seq_depth) [
        | yes free ↦
            rw (count, lt→ltb _ _ free, room (omega (arith, v.slots))) (held-Wrote s id v h k free)
        | no full ↦
            let kept : ltb s.npending lazy_seq_depth ≡ false = ground arith in
            rw (count, kept, none_free (omega (arith, v.slots))) (eager-Wrote s id v h k)
      ]

  -- Opening a sequence: it is held back while a slot is free.
  pub begin-Does :
      (id : ℕ) (s : OStream S)
      → IsValid F seen s
      → Does F H seen K (begin id (frames F seen s)) s (write_sequence_begin_lazy F H id s)
  begin-Does id s v = elim (Bool-cases (leb max_depth s.depth)) [
    | inl deep ↦ rw (deep, begin_rejected id s (inl deep)) refl
    | inr shallow ↦ elim (Bool-cases (ltb id_max id)) [
      | inl high ↦ rw (shallow, high, begin_rejected id s (inr high)) refl
      | inr low ↦ rw (shallow, low) (begin_held id s v (ground arith) (ground arith))
    ]
  ]

  none_held : (s : OStream S) → IsValid F seen s → take s.npending s.pending ≡ [] → s.npending ≡ 0
  none_held s v e =
      omega (
        arith,
        ap (λ (l : List ℕ). length l) e,
        length-take s.npending s.pending,
        v.slots,
        v.window,
      )

  closes :
      (s s' : OStream S)
      → IsValid F seen s'
      → frames F seen s' ≡ (s.depth, [])
      → s.depth ≢ 0
      → s'.npending < s'.depth
  closes s s' v f h =
      omega (arith, none_held s' v (ap (λ (p : Frames). p.1) f), ap (λ (p : Frames). p.0) f, h)

  pub close-Does :
      (s : OStream S)
      → IsValid F seen s
      → Does F H seen K (end_keep (frames F seen s)) s (write_sequence_end_keep F H s)
  unfolding write_sequence_end_keep
  close-Does s v = elim (Bool-cases (s.depth == 0)) [
    | inl top ↦ rw top refl
    | inr nested ↦ rw nested (
        recast F H seen K refl (append-nil _) (
          and_write-Wrote F seen [] (shallower F H)
            (write_id_type-Wrote F H seen K 0 t_sequence_end s v (omega arith) (omega arith))
            (λ s' v' f.
              recast F H seen K (ap (λ (p : Frames). (p.0 - 1, p.1)) f) refl
                (shallower-Wrote s' v' (closes s s' v' f (ground arith))))))
  ]
