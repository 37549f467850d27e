-- ===== src/Build/Narrower.antt =====
-- src/istream.rs: a build that leaves constructs out, against the default build.
use corelib_rs_no_std.Common.{
  ℕ, zero, suc, ◌+◌, ◌*◌, ◌≡◌, ◌≤◌, ◌⊎◌, refl, ap, arith, if◌then◌else◌, length, drop, List, [],
  ◌∷◌, ◌++◌, Option, some, ltb, not, ◌&&◌, ◌==◌, bit_and, Bool-cases, inl, inr, append_assoc,
}
use corelib_rs_no_std.Error.{ok, err, invalid_msg}
use corelib_rs_no_std.Types.{id_max}
use corelib_rs_no_std.Common.Word.{shr}
use corelib_rs_no_std.IStream.State.{
  State, IStream, Event, Turn, is_fixlen_raw, is_fixlen_val, is_invalid,
}
use corelib_rs_no_std.IStream.Push.{push}
use corelib_rs_no_std.IStream.Step.{
  step, dispatch, on_header, on_fixlen_len, on_subtype, on_wire_type,
}
use corelib_rs_no_std.IStream.Feed.{
  feed_loop, feed, drain_raw, after, carry_on, latch, finish, verdict,
}
use corelib_rs_no_std.IStream.FeedRun.{loop_round}
use corelib_rs_no_std.IStream.Chunks.{feed_lem}
use corelib_rs_no_std.IStream.Ends.{rounds, loop_agrees, drained}
use corelib_rs_no_std.IStream.Deliver.{Outcome}
use corelib_rs_no_std.Build.{Wire}
use corelib_rs_no_std.Build.Decoder.{
  compiled, on_wire_type_in, from_raw_in, on_header_in, on_fixlen_len_in, dispatch_in, step_in,
  feed_loop_in, feed_in,
}

-- A step as in the default build, or a rejection with no call.
abbrev Rejects : Turn → Turn → Type 0
Rejects t u = (t ≡ u) ⊎ ((s : IStream) × (t ≡ (err invalid_msg, s, [])))

wire-Rejects : (c : Wire) (w : ℕ) (s : IStream) → Rejects (on_wire_type_in c w s) (on_wire_type w s)
unfolding on_wire_type_in
wire-Rejects c w s = elim (Bool-cases (compiled c w)) [
  | inl p ↦ rw p (inl refl)
  | inr p ↦ rw p (inr (s, refl))
]

on_header-Rejects :
    (c : Wire) (s : IStream) (header : ℕ) → Rejects (on_header_in c s header) (on_header s header)
unfolding on_header_in on_header
on_header-Rejects c s header = elim (Bool-cases (ltb id_max (shr header 3))) [
  | inl p ↦ rw p (inl refl)
  | inr p ↦ rw p (wire-Rejects c (bit_and header 7) (record s { id = shr header 3 }))
]

on_fixlen_len-Rejects :
    (c : Wire) (s : IStream) (header : ℕ)
    → Rejects (on_fixlen_len_in c s header) (on_fixlen_len s header)
unfolding on_fixlen_len_in on_fixlen_len from_raw_in on_subtype
on_fixlen_len-Rejects c s header = elim (Bool-cases (bit_and header 7 == 1 && not c.fp64)) [
  | inl p ↦ rw p (inr (s, refl))
  | inr p ↦ rw p (inl refl)
]

dispatch-Rejects :
    (c : Wire) (st : State) (s : IStream) (value : ℕ)
    → Rejects (dispatch_in c st s value) (dispatch st s value)
unfolding dispatch_in dispatch
dispatch-Rejects c State.idle s value = on_header-Rejects c s value
dispatch-Rejects c State.fixlen_len s value = on_fixlen_len-Rejects c s value
dispatch-Rejects c State.fixlen_array_len s value = on_fixlen_len-Rejects c s value
dispatch-Rejects c State.invalid s value = inl refl
dispatch-Rejects c State.varint_unsigned s value = inl refl
dispatch-Rejects c State.varint_signed s value = inl refl
dispatch-Rejects c State.array_count s value = inl refl
dispatch-Rejects c State.fixlen_val s value = inl refl
dispatch-Rejects c State.fixlen_raw s value = inl refl

step-Rejects : (c : Wire) (s : IStream) (b : ℕ) → Rejects (step_in c s b) (step s b)
unfolding step_in step
step-Rejects c s b = elim (Bool-cases (is_fixlen_val s.core.state)) [
  | inl p ↦ rw p (inl refl)
  | inr p ↦ elim (Bool-cases ((push s.core b).1.shift == 0)) [
    | inl q ↦
        rw (p, q)
          (dispatch-Rejects c (push s.core b).1.state (record s { core = (push s.core b).1 })
            (push s.core b).0)
    | inr q ↦ rw (p, q) (inl refl)
  ]
]

pub loop_in_round :
    (c : Wire) (fuel : ℕ) (s : IStream) (b : ℕ) (bs : List ℕ)
    → feed_loop_in c (suc fuel) s (b ∷ bs) ≡ (
        if is_fixlen_raw s.core.state
        then (let d = drain_raw s (b ∷ bs) in
            after (d.1 ∷ []) (feed_loop_in c fuel d.2 (drop d.0 (b ∷ bs))))
        else carry_on (step_in c s b) (λ s'. feed_loop_in c fuel s' bs))
unfolding feed_loop_in
loop_in_round c fuel s b bs = refl

-- The same end, or an earlier one, in a rejection, behind the first calls of the other.
abbrev Cut : Option Turn → Option Turn → Type 0
Cut o o' =
    (o ≡ o')
    ⊎ ((s : IStream) × (calls : List Event) × (t : Turn) × (more : List Event) × (o
          ≡ some (err invalid_msg, latch s, calls))
        × (o' ≡ some t)
        × (t.2 ≡ calls ++ more))

after-Cut :
    (events : List Event) (o o' : Option Turn) → Cut o o' → Cut (after events o) (after events o')
after-Cut events o o' (inl e) = inl (ap (after events) e)
after-Cut events o o' (inr (s, calls, t, more, p, q, e)) = inr (
  s,
  events ++ calls,
  (t.0, t.1, events ++ t.2),
  more,
  rw p refl,
  rw q refl,
  rw (e, append_assoc) refl,
)

-- A step, and the loop behind it, which ends in the default build.
carry_on-Cut :
    (t u : Turn) (f g : IStream → Option Turn)
    → Rejects t u
    → ((s : IStream) → Cut (f s) (g s))
    → ((s : IStream) → (t : Turn) × (g s ≡ some t))
    → Cut (carry_on t f) (carry_on u g)
carry_on-Cut t u f g (inl e) h ends = rw (← e) (same t)
  where
    same : (t : Turn) → Cut (carry_on t f) (carry_on t g)
    same (ok v, s, events) = after-Cut events (f s) (g s) (h s)
    same (err x, s, events) = inl refl
carry_on-Cut t u f g (inr (s, e)) h ends =
    let (t', q) = runs u in (inr (s, [], t', t'.2, ap (λ t. carry_on t f) e, q, refl))
  where
    runs : (u : Turn) → (t : Turn) × (carry_on u g ≡ some t)
    runs (ok v, s, events) = let (t, p) = ends s in ((t.0, t.1, events ++ t.2), rw p refl)
    runs (err x, s, events) = (_, refl)

loop-Cut :
    (c : Wire) (fuel : ℕ) (bytes : List ℕ) (s : IStream)
    → rounds s bytes ≤ fuel
    → Cut (feed_loop_in c fuel s bytes) (feed_loop fuel s bytes)
loop-Cut c zero [] s h = unfold feed_loop feed_loop_in in inl refl
loop-Cut c (suc fuel) [] s h = unfold feed_loop feed_loop_in in inl refl
loop-Cut c zero (b ∷ bs) s h = absurd (omega arith)
loop-Cut c (suc fuel) (b ∷ bs) s h = elim (Bool-cases (is_fixlen_raw s.core.state)) [
  | inl raw ↦
      let d = drain_raw s (b ∷ bs) in
      rw (loop_in_round, loop_round, raw)
        (after-Cut (d.1 ∷ []) _ _
          (loop-Cut c fuel (drop d.0 (b ∷ bs)) d.2 (drained s b bs fuel raw h)))
  | inr word ↦
      rw (loop_in_round, loop_round, word)
        (carry_on-Cut (step_in c s b) (step s b) _ _ (step-Rejects c s b)
          (λ s'. loop-Cut c fuel bs s' (ground arith))
          (λ s'.
            (let (t, p, q) = loop_agrees fuel fuel bs s' (ground arith) (ground arith) in (t, p))))
]

-- What a build that leaves constructs out makes of an input: the outcome, the decoder and the calls of
-- the default build, or a rejection, behind the first of those calls, with the decoder latched.
abbrev pub Narrows : Option Outcome → Option Outcome → Type 0
Narrows o o' =
    (o ≡ o')
    ⊎ ((s : IStream) × (calls : List Event) × (t : Outcome) × (more : List Event) × (o
          ≡ some (err invalid_msg, s, calls))
        × (s.core.state ≡ State.invalid)
        × (o' ≡ some t)
        × (t.2 ≡ calls ++ more))

finish-Narrows : (o o' : Option Turn) → Cut o o' → Narrows (finish o) (finish o')
finish-Narrows o o' (inl e) = inl (ap finish e)
finish-Narrows o o' (inr (s, calls, (ok u, s', events), more, p, q, e)) =
    inr (latch s, calls, (ok (verdict s'), s', events), more, rw p refl, refl, rw q refl, e)
finish-Narrows o o' (inr (s, calls, (err x, s', events), more, p, q, e)) =
    inr (latch s, calls, (err x, s', events), more, rw p refl, refl, rw q refl, e)

pub feed_in_lem :
    (c : Wire) (s : IStream) (bytes : List ℕ)
    → feed_in c s bytes ≡ (
        if is_invalid s.core.state
        then some (err invalid_msg, s, [])
        else finish (feed_loop_in c (2 * length bytes + 1) s bytes))
unfolding feed_in
feed_in_lem c s bytes = refl

-- On every decoder and every input, a build with 64-bit values that leaves constructs of the wire out
-- does what the default build does, or rejects the input with `invalid_msg` and latches the decoder,
-- behind the first calls of the default build.
pub feed_in-Narrows :
    (c : Wire) (s : IStream) (bytes : List ℕ) → Narrows (feed_in c s bytes) (feed s bytes)
feed_in-Narrows c s bytes = elim (Bool-cases (is_invalid s.core.state)) [
  | inl p ↦ rw (feed_in_lem, feed_lem, p) (inl refl)
  | inr p ↦
      rw (feed_in_lem, feed_lem, p)
        (finish-Narrows _ _ (loop-Cut c (2 * length bytes + 1) bytes s (ground arith)))
]
