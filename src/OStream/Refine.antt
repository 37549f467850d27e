-- ===== src/OStream/Refine.antt =====
-- src/ostream.rs: every call does what `spec` promises, and so does every run of calls.
use corelib_rs_no_std.Common.{
  ℕ, zero, suc, ◌+◌, ◌-◌, ◌%◌, ◌^◌, ◌≤◌, ◌<◌, ◌≡◌, ◌≢◌, refl, ap, sym, ◌∙◌, arith, true, false,
  List, [], ◌∷◌, ◌++◌, length, take, append-nil, length-take, All, ◌==◌, ◌↔◌, if◌then◌else◌,
}
use corelib_rs_no_std.Error.{Result, ok, err, Nothing, argument}
use corelib_rs_no_std.Types.{FixlenType}
use corelib_rs_no_std.OStream.Handover.{Flush, Handoff}
use corelib_rs_no_std.OStream.Stream.{OStream, Write, and_write}
use corelib_rs_no_std.OStream.Fields.{write_fixlen, write_sequence_end, write_sequence_end_keep}
use corelib_rs_no_std.OStream.Wrote.{
  View, Keeps, IsValid, emitted, frames, Wrote, whole, cut, done-Wrote, and_write-Wrote,
}
use corelib_rs_no_std.OStream.Commit.{no_slots, recast}
use corelib_rs_no_std.OStream.Field.{
  Does, unsigned-Does, signed-Does, boolean-Does, fixlen_raw-Does, fp32-Does, fp64-Does, str-Does,
  blob-Does,
}
use corelib_rs_no_std.OStream.Arrays.{
  array_unsigned-Does, array_signed-Does, array_fp32-Does, array_fp64-Does,
}
use corelib_rs_no_std.OStream.Sequences.{begin-Does, close-Does}
use corelib_rs_no_std.OStream.Spec.{
  Op, Frames, InRange, spec, behind_bytes, and_spec, spec_all, drop_last, end_keep, end_lazy,
}
use corelib_rs_no_std.OStream.Perform.{perform, perform_all}

drop_last-take : (n : ℕ) (p : List ℕ) → suc n ≤ length p → drop_last (take (suc n) p) ≡ take n p
drop_last-take n [] h = absurd (omega arith)
drop_last-take zero (x ∷ p) h = refl
drop_last-take (suc n) (x ∷ []) h = absurd (omega arith)
drop_last-take (suc n) (x ∷ y ∷ p) h = ap (λ l. x ∷ l) (drop_last-take n (y ∷ p) (omega arith))

end_lazy-some :
    (depth : ℕ) (held : List ℕ)
    → 0 < length held
    → end_lazy (depth, held)
      ≡ (if depth == 0 then err argument else ok ([], (depth - 1, drop_last held)))
end_lazy-some d [] h = absurd (omega arith)
end_lazy-some d (id ∷ held) h = refl

abbrev ok_part : List ℕ × Frames → Result (List ℕ × Frames) → List ℕ × Frames
ok_part d (ok x) = x
ok_part d (err e) = d

ok_part_of : (x y : List ℕ × Frames) → (◌≡◌ {A = Result (List ℕ × Frames)} (ok x) (ok y)) → x ≡ y
ok_part_of x y e = ap (ok_part x) e

module _ {S : Type 0} (F : Flush S) (H : Handoff S) (seen : View S) (K : Keeps F H seen) where
  dropped-Wrote :
      (n : ℕ) (s : OStream S)
      → IsValid F seen s
      → s.npending ≡ suc n
      → Wrote F seen s
          (s.depth - 1, take n s.pending)
          []
          (
            ok tt,
            record s {
              npending = (s.npending + 2 ^ 16 - 1) % 2 ^ 16;
              depth = (s.depth + 2 ^ 16 - 1) % 2 ^ 16;
            },
          )
  dropped-Wrote n s v e =
      let less : (s.npending + 2 ^ 16 - 1) % 2 ^ 16 ≡ n = omega (arith, v.window) in
      let up : (s.depth + 2 ^ 16 - 1) % 2 ^ 16 ≡ s.depth - 1 =
        omega (arith, v.window, v.nested, v.bounded) in
      whole
        (record {
          within = v.within;
          small = v.small;
          streaming = v.streaming;
          slots = v.slots;
          window = omega (arith, v.window);
          nested = omega (arith, v.window, v.nested, v.bounded);
          bounded = omega (arith, v.bounded);
          ids = v.ids;
          behind = v.behind;
          good = v.good;
        })
        (sym (append-nil _)) (rw (less, up) refl) (λ q. omega arith)

  end_open :
      (s : OStream S) → s.npending ≡ 0 → write_sequence_end F H s ≡ write_sequence_end_keep F H s
  unfolding write_sequence_end write_sequence_end_keep
  end_open s e = rw e refl

  end_held :
      (s : OStream S)
      → s.npending ≢ 0
      → write_sequence_end F H s ≡ (
          if s.depth == 0 then (err argument, s) else (
            ok tt,
            record s {
              npending = (s.npending + 2 ^ 16 - 1) % 2 ^ 16;
              depth = (s.depth + 2 ^ 16 - 1) % 2 ^ 16;
            },
          ))
  unfolding write_sequence_end
  end_held s h = let some_held : (s.npending == 0) ≡ false = ground arith in rw some_held refl

  -- Closing a sequence that is not framed yet drops it.
  end_held-Does :
      (n : ℕ) (s : OStream S)
      → IsValid F seen s
      → s.npending ≡ suc n
      → Does F H seen K (end_lazy (frames F seen s)) s (write_sequence_end F H s)
  end_held-Does n s v e =
      let some_held : 0 < length (take s.npending s.pending) =
        omega (arith, length-take s.npending s.pending, v.slots, v.window) in
      let inner : s.depth ≢ 0 = omega (arith, v.nested) in
      let open_seq : (s.depth == 0) ≡ false = ground arith in
      let rest : drop_last (take s.npending s.pending) ≡ take n s.pending =
        rw e (drop_last-take n s.pending (omega (arith, v.slots, v.window))) in
      rw
        (
          end_lazy-some s.depth (take s.npending s.pending) some_held,
          end_held s (omega arith),
          open_seq,
          rest,
        )
        (dropped-Wrote n s v e)

  end-Does :
      (s : OStream S)
      → IsValid F seen s
      → Does F H seen K (end_lazy (frames F seen s)) s (write_sequence_end F H s)
  end-Does s v = end_from s.npending refl
    where
      end_from :
          (n : ℕ)
          → s.npending ≡ n
          → Does F H seen K (end_lazy (frames F seen s)) s (write_sequence_end F H s)
      end_from zero e =
          let same : end_keep (frames F seen s) ≡ end_lazy (frames F seen s) =
            ap end_keep (no_slots F H seen K s v e)
            ∙ sym (ap end_lazy (no_slots F H seen K s v e)) in
          rw (end_open s e, sym same) (close-Does F H seen K s v)
      end_from (suc n) e = end_held-Does n s v e

  fixlen-Does :
      (id : ℕ) (bytes : List ℕ) (subtype : FixlenType) (s : OStream S)
      → IsValid F seen s
      → InRange (Op.fixlen id bytes subtype)
      → Does F H seen K
          (spec (Op.fixlen id bytes subtype) (frames F seen s))
          s
          (write_fixlen F H id bytes subtype s)
  unfolding spec write_fixlen
  fixlen-Does id bytes FixlenType.fp32 s v h =
      fixlen_raw-Does F H seen K id bytes FixlenType.fp32 s v h.1
  fixlen-Does id bytes FixlenType.fp64 s v h =
      fixlen_raw-Does F H seen K id bytes FixlenType.fp64 s v h.1
  fixlen-Does id bytes FixlenType.str s v h = refl
  fixlen-Does id bytes FixlenType.blob s v h =
      fixlen_raw-Does F H seen K id bytes FixlenType.blob s v h.1

  -- Every call on a valid encoder, with arguments in range and a sink and channel that keep the bytes,
  -- does what `spec` says of the open sequences: a rejected call changes nothing, and an accepted one
  -- emits its bytes and leaves the sequences as specified, or, without a sink, fails with
  -- `buffer_full` once a front part of the bytes is emitted, since all of them do not fit.
  pub perform_refines :
      (op : Op) (s : OStream S)
      → IsValid F seen s
      → InRange op
      → Does F H seen K (spec op (frames F seen s)) s (perform F H op s)
  unfolding perform spec
  perform_refines (Op.unsigned id x) s v h = unsigned-Does F H seen K id x s v h
  perform_refines (Op.signed id x) s v h = signed-Does F H seen K id x s v h
  perform_refines (Op.boolean id b) s v h = boolean-Does F H seen K id b s v
  perform_refines (Op.fp32 id bits) s v h = fp32-Does F H seen K id bits s v
  perform_refines (Op.fp64 id bits) s v h = fp64-Does F H seen K id bits s v
  perform_refines (Op.str id text) s v h = str-Does F H seen K id text s v h.1
  perform_refines (Op.blob id bytes) s v h = blob-Does F H seen K id bytes s v h.1
  perform_refines (Op.fixlen id bytes subtype) s v h = fixlen-Does id bytes subtype s v h
  perform_refines (Op.array_unsigned id xs) s v h = array_unsigned-Does F H seen K id xs s v h.0 h.1
  perform_refines (Op.array_signed width id xs) s v h =
      array_signed-Does F H seen K width id xs s v h.0 h.1
  perform_refines (Op.array_fp32 id xs) s v h = array_fp32-Does F H seen K id xs s v h.1
  perform_refines (Op.array_fp64 id xs) s v h = array_fp64-Does F H seen K id xs s v h.1
  perform_refines (Op.sequence_begin id) s v h = begin-Does F H seen K id s v
  perform_refines Op.sequence_end s v h = end-Does s v
  perform_refines Op.sequence_end_keep s v h = close-Does F H seen K s v

  perform_more :
      (op : Op) (ops : List Op) (s : OStream S)
      → perform_all F H (op ∷ ops) s ≡ and_write (perform F H op s) (perform_all F H ops)
  unfolding perform_all
  perform_more op ops s = refl

  fits :
      {s : OStream S} {fr : Frames} {bytes : List ℕ} {t : Result Nothing × OStream S}
      → F.sinks ≡ false
      → Wrote F seen s fr bytes t
      → (t.0 ≡ ok tt) ↔ (s.offset + length bytes ≤ length s.buffer)
  fits off (whole v e f room) = (λ q. omega (arith, v.within, room off), λ q. refl)
  fits off (cut front back p e v q over) = (λ x. absurd (ground arith), λ x. absurd (omega arith))

  streams :
      {s : OStream S} {fr : Frames} {bytes : List ℕ} {t : Result Nothing × OStream S}
      → F.sinks ≡ true
      → Wrote F seen s fr bytes t
      → (t.0 ≡ ok tt) × (emitted F seen t.1 ≡ emitted F seen s ++ bytes) × IsValid F seen t.1
  streams on (whole v e f room) = (refl, e, v)
  streams on (cut front back p e v q over) = absurd (ground arith)

  -- What follows an accepted call is accepted too.
  accepted_rest :
      (bytes : List ℕ) (r : Result (List ℕ × Frames)) (all : List ℕ) (fr : Frames)
      → behind_bytes bytes r ≡ ok (all, fr)
      → (more : List ℕ) × (r ≡ ok (more, fr)) × (bytes ++ more ≡ all)
  accepted_rest bytes (ok (more, fr')) all fr e =
      let same : (bytes ++ more, fr') ≡ (all, fr) = ok_part_of _ _ e in
      (
        more,
        ap (λ (p : List ℕ × Frames). ok (more, p.1)) same,
        ap (λ (p : List ℕ × Frames). p.0) same,
      )
  accepted_rest bytes (err x) all fr e = absurd (ground arith)

  -- One accepted call, before a run `k` that does what it promises.
  one_more :
      (op : Op) (k : Write S) (rest : Frames → Result (List ℕ × Frames)) (s : OStream S)
      (bytes : List ℕ) (fr : Frames) (r : Result (List ℕ × Frames))
      → IsValid F seen s
      → InRange op
      → and_spec (spec op (frames F seen s)) rest ≡ ok (bytes, fr)
      → ((s' : OStream S) (more : List ℕ)
          → IsValid F seen s'
          → rest (frames F seen s') ≡ ok (more, fr)
          → Wrote F seen s' fr more (k s'))
      → spec op (frames F seen s) ≡ r
      → Wrote F seen s fr bytes (and_write (perform F H op s) k)
  one_more op k rest s bytes fr (err x) v a e later p =
      let refused : err x ≡ ok (bytes, fr) = rw p at e in absurd (ground arith)
  one_more op k rest s bytes fr (ok (xs, fr')) v a e later p =
      let step : behind_bytes xs (rest fr') ≡ ok (bytes, fr) = rw p at e in
      let (more, then_ok, joined) = accepted_rest xs (rest fr') bytes fr step in
      let now : Wrote F seen s fr' xs (perform F H op s) = rw p at (perform_refines op s v a) in
      recast F H seen K refl joined
        (and_write-Wrote F seen more k now (λ s' v' f. later s' more v' (ap rest f ∙ then_ok)))

  -- A run of calls from a valid encoder, with arguments in range, that `spec_all` accepts emits the
  -- bytes it gives and leaves the open sequences as it says, or, without a sink, fails with
  -- `buffer_full` once a front part of the bytes is emitted, since all of them do not fit.
  pub perform_all_refines :
      (ops : List Op) (s : OStream S) (bytes : List ℕ) (fr : Frames)
      → IsValid F seen s
      → All InRange ops
      → spec_all ops (frames F seen s) ≡ ok (bytes, fr)
      → Wrote F seen s fr bytes (perform_all F H ops s)
  unfolding spec_all perform_all
  perform_all_refines [] s bytes fr v a e =
      let same = ok_part_of ([], frames F seen s) (bytes, fr) e in
      recast F H seen K (ap (λ (p : List ℕ × Frames). p.1) same)
        (ap (λ (p : List ℕ × Frames). p.0) same) (done-Wrote F seen v)
  perform_all_refines (op ∷ ops) s bytes fr v a e =
      one_more op (perform_all F H ops) (spec_all ops) s bytes fr _ v a.0 e
        (λ s' more v' e'. perform_all_refines ops s' more fr v' a.1 e') refl

  -- Without a sink, a run of calls from a valid encoder, with arguments in range, that `spec_all`
  -- accepts succeeds exactly if its bytes fit behind the write position.
  pub perform_all_fits :
      (ops : List Op) (s : OStream S) (bytes : List ℕ) (fr : Frames)
      → IsValid F seen s
      → All InRange ops
      → F.sinks ≡ false
      → spec_all ops (frames F seen s) ≡ ok (bytes, fr)
      → ((perform_all F H ops s).0 ≡ ok tt) ↔ (s.offset + length bytes ≤ length s.buffer)
  perform_all_fits ops s bytes fr v a off e = fits off (perform_all_refines ops s bytes fr v a e)

  -- With a sink that keeps the bytes, a run of calls from a valid encoder, with arguments in range,
  -- that `spec_all` accepts succeeds, appends its bytes to what is emitted, and leaves the encoder
  -- valid.
  pub perform_all_streams :
      (ops : List Op) (s : OStream S) (bytes : List ℕ) (fr : Frames)
      → IsValid F seen s
      → All InRange ops
      → F.sinks ≡ true
      → spec_all ops (frames F seen s) ≡ ok (bytes, fr)
      → ((perform_all F H ops s).0 ≡ ok tt)
        × (emitted F seen (perform_all F H ops s).1 ≡ emitted F seen s ++ bytes)
        × IsValid F seen (perform_all F H ops s).1
  perform_all_streams ops s bytes fr v a on e =
      streams on (perform_all_refines ops s bytes fr v a e)
