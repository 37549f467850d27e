-- ===== src/IStream/FeedRun.antt =====
-- src/istream.rs: `feed` does what the bytewise decoder does, and always ends.
use corelib_rs_no_std.Common.{
  ℕ, zero, suc, ◌-◌, ◌≤◌, ◌<◌, ◌≡◌, ◌≢◌, refl, ap, sym, ◌∙◌, arith, min, if◌then◌else◌, length,
  List, [], ◌∷◌, ◌++◌, Option, some, false, Bool-cases, inl, inr, take, drop, All, length-take,
  length-drop, take-append-drop,
}
use corelib_rs_no_std.Common.Word.{sub_usize}
use corelib_rs_no_std.Error.{ok, err, invalid_msg}
use corelib_rs_no_std.IStream.State.{State, IStream, Event, Turn, is_invalid, is_fixlen_raw}
use corelib_rs_no_std.IStream.Step.{payload_chunk, step}
use corelib_rs_no_std.IStream.Feed.{feed_loop, drain_raw, after, latch, carry_on}
use corelib_rs_no_std.IStream.Valid.{IsValid}
use corelib_rs_no_std.IStream.Preserve.{Keeps, step-Keeps}
use corelib_rs_no_std.IStream.Bytewise.{raw_advance, byte_step, latched, and_then, run}
use corelib_rs_no_std.IStream.Bulk.{Alike, InRaw, raw_run, expand_all-append}

abbrev pub IsByte : ℕ → Type 0
IsByte b = b < 256

pub InRaw-of : (s : IStream) → IsValid s → s.core.state ≡ State.fixlen_raw → InRaw s
InRaw-of s v e = ground arith

pub raw_advance-Keeps :
    (s : IStream) (n : ℕ)
    → IsValid s
    → s.core.state ≡ State.fixlen_raw
    → 0 < n
    → n ≤ s.fixlen_remaining
    → IsValid (raw_advance s n) × (raw_advance s n).core.state ≢ State.invalid
raw_advance-Keeps s n v e h k = ground arith

-- How many bytes behind the first one a bulk round takes.
abbrev taken : IStream → List ℕ → ℕ
taken s bs = min (length bs) (s.fixlen_remaining - 1)

drain_raw_lem :
    (s : IStream) (b : ℕ) (bs : List ℕ)
    → 0 < s.fixlen_remaining
    → drain_raw s (b ∷ bs) ≡ (
      suc (taken s bs),
      payload_chunk s (sub_usize s.fixlen_total s.fixlen_remaining) (b ∷ take (taken s bs) bs),
      raw_advance s (suc (taken s bs)),
    )
unfolding drain_raw
drain_raw_lem s b bs h =
    let e : min (suc (length bs)) s.fixlen_remaining ≡ suc (taken s bs) = omega arith in rw e

All-drop : (n : ℕ) (bs : List ℕ) → All IsByte bs → All IsByte (drop n bs)
All-drop zero bs h = h
All-drop (suc n) [] h = tt
All-drop (suc n) (b ∷ bs) h = All-drop n bs h.1

-- The result of the loop, with the same calls byte by byte as `u`.
abbrev pub Gives : Option Turn → Turn → Type 0
Gives o u = (t : Turn) × (o ≡ some t) × Alike t u

after-Gives :
    (e : List Event) (o : Option Turn) (u : Turn)
    → Gives o u
    → Gives (after e o) (u.0, u.1, e ++ u.2)
after-Gives e o u ((r, s, more), p, (a, b, c)) =
    rw p
      ((r, s, e ++ more), refl, (a, b, rw (expand_all-append e more, expand_all-append e u.2, c)))

Gives-Alike : (o : Option Turn) (u u' : Turn) → Gives o u → Alike u' u → Gives o u'
Gives-Alike o u u' (t, p, (a, b, c)) (a', b', c') = (t, p, (a ∙ sym a', b ∙ sym b', c ∙ sym c'))

raw_test : (st : State) → st ≢ State.fixlen_raw → is_fixlen_raw st ≡ false
raw_test st h = ground arith

pub invalid_test : (st : State) → st ≢ State.invalid → is_invalid st ≡ false
invalid_test st h = ground arith

-- The loop and the bytewise decoder by one round, with the callees shut.
pub loop_round :
    (fuel : ℕ) (s : IStream) (b : ℕ) (bs : List ℕ)
    → feed_loop (suc fuel) s (b ∷ bs) ≡ (
        if is_fixlen_raw s.core.state
        then (let d = drain_raw s (b ∷ bs) in
            after (d.1 ∷ []) (feed_loop fuel d.2 (drop d.0 (b ∷ bs))))
        else carry_on (step s b) (λ s'. feed_loop fuel s' bs))
unfolding feed_loop
loop_round fuel s b bs = refl

pub run_round :
    (s : IStream) (b : ℕ) (bs : List ℕ)
    → run s (b ∷ bs) ≡ and_then (byte_step s b) (λ s'. run s' bs)
unfolding run
run_round s b bs = refl

pub byte_step-step :
    (s : IStream) (b : ℕ)
    → s.core.state ≢ State.fixlen_raw
    → s.core.state ≢ State.invalid
    → byte_step s b ≡ latched (step s b)
unfolding byte_step
byte_step-step s b e₁ e₂ = rw (invalid_test _ e₂, raw_test _ e₁)

module _ (fuel : ℕ) (bs : List ℕ) where
  -- Going on after a step, in the loop and in the bytewise decoder.
  carry_on-Gives :
      (t : Turn)
      → Keeps t
      → ((s' : IStream)
          → IsValid s'
          → s'.core.state ≢ State.invalid
          → Gives (feed_loop fuel s' bs) (run s' bs))
      → Gives (carry_on t (λ s'. feed_loop fuel s' bs)) (and_then (latched t) (λ s'. run s' bs))
  carry_on-Gives (ok u, s', events) k ih = after-Gives events _ _ (ih s' k.valid (k.alive refl))
  carry_on-Gives (err e, s', events) k ih =
      ((err invalid_msg, latch s', events), refl, (refl, refl, refl))

  -- One round on a byte outside a bulk payload.
  one-Gives :
      (s : IStream) (b : ℕ)
      → s.core.state ≢ State.fixlen_raw
      → s.core.state ≢ State.invalid
      → Keeps (step s b)
      → ((s' : IStream)
          → IsValid s'
          → s'.core.state ≢ State.invalid
          → Gives (feed_loop fuel s' bs) (run s' bs))
      → Gives (feed_loop (suc fuel) s (b ∷ bs)) (run s (b ∷ bs))
  one-Gives s b e₁ e₂ keeps ih =
      rw (loop_round, raw_test _ e₁, run_round, byte_step-step s b e₁ e₂)
        (carry_on-Gives (step s b) keeps ih)

  -- One round of the bulk path.
  bulk-Gives :
      (s : IStream) (b : ℕ)
      → IsValid s
      → s.core.state ≡ State.fixlen_raw
      → (let s' = raw_advance s (suc (taken s bs)) in
          let rest = drop (taken s bs) bs in Gives (feed_loop fuel s' rest) (run s' rest))
      → Gives (feed_loop (suc fuel) s (b ∷ bs)) (run s (b ∷ bs))
  bulk-Gives s b v e ih =
      let n = taken s bs in
      let event = payload_chunk s (sub_usize s.fixlen_total s.fixlen_remaining) (b ∷ take n bs) in
      let owed : 0 < s.fixlen_remaining = ground arith in
      let whole =
        raw_run (take n bs) (drop n bs) b s (InRaw-of s v e) (omega (arith, length-take n bs)) in
      let all_taken : length (take n bs) ≡ n = omega (arith, length-take n bs) in
      let joined = rw (take-append-drop n bs, all_taken) at whole in
      rw (loop_round, ap is_fixlen_raw e, drain_raw_lem s b bs owed)
        (Gives-Alike _
          (and_then (ok tt, raw_advance s (suc n), event ∷ []) (λ s'. run s' (drop n bs)))
          (run s (b ∷ bs)) (after-Gives (event ∷ []) _ (run (raw_advance s (suc n)) (drop n bs)) ih)
          joined)

-- The loop ends, on fuel for one round a byte, and does what the bytewise decoder does.
pub feed_loop-Gives :
    (fuel : ℕ) (bytes : List ℕ) (s : IStream)
    → length bytes ≤ fuel
    → All IsByte bytes
    → IsValid s
    → s.core.state ≢ State.invalid
    → Gives (feed_loop fuel s bytes) (run s bytes)
feed_loop-Gives zero [] s f h v e =
    unfold feed_loop run in ((ok tt, s, []), refl, (refl, refl, refl))
feed_loop-Gives (suc fuel) [] s f h v e =
    unfold feed_loop run in ((ok tt, s, []), refl, (refl, refl, refl))
feed_loop-Gives zero (b ∷ bs) s f h v e = absurd (omega arith)
feed_loop-Gives (suc fuel) (b ∷ bs) s f h v e = elim (Bool-cases (is_fixlen_raw s.core.state)) [
  | inl p ↦
      let raw : s.core.state ≡ State.fixlen_raw = ground arith in
      let (v', e') = raw_advance-Keeps s (suc (taken s bs)) v raw (omega arith) (ground arith) in
      bulk-Gives fuel bs s b v raw (
        feed_loop-Gives fuel (drop (taken s bs) bs) _ (omega (arith, length-drop (taken s bs) bs))
          (All-drop (taken s bs) bs h.1) v' e')
  | inr p ↦
      let raw : s.core.state ≢ State.fixlen_raw = ground arith in
      one-Gives fuel bs s b raw e (step-Keeps s b v raw e h.0)
        (λ s' v' e'. feed_loop-Gives fuel bs s' (omega arith) h.1 v' e')
]
