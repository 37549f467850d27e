-- ===== src/IStream/Chunks.antt =====
-- src/istream.rs: the bytewise decoder over two inputs in a row, and `feed` as its refinement.
use corelib_rs_no_std.Common.{
  ℕ, ◌≡◌, ◌≢◌, ◌<◌, ◌*◌, ◌+◌, refl, ap, arith, if◌then◌else◌, length, List, [], ◌∷◌, ◌++◌, Option,
  some, append_assoc, append-nil, Bool-cases, inl, inr, All,
}
use mathlib.Core.Path.{fun_ext}
use corelib_rs_no_std.Error.{Result, ok, err, invalid_msg}
use corelib_rs_no_std.IStream.State.{State, IStream, Event, Turn, Status, is_invalid, is_fixlen_raw}
use corelib_rs_no_std.IStream.Step.{step}
use corelib_rs_no_std.IStream.Feed.{feed_loop, feed, latch, finish, verdict}
use corelib_rs_no_std.IStream.Valid.{IsValid}
use corelib_rs_no_std.IStream.Preserve.{Keeps, step-Keeps}
use corelib_rs_no_std.IStream.Bytewise.{byte_step, latched, and_then, run, expand_all}
use corelib_rs_no_std.IStream.Bulk.{byte_step-raw}
use corelib_rs_no_std.IStream.FeedRun.{
  IsByte, Gives, feed_loop-Gives, raw_advance-Keeps, byte_step-step, run_round, invalid_test,
}

-- What a run ends in: a valid decoder that can go on, or one that is latched.
abbrev pub Settled : Turn → Type 0
Settled (ok u, s, events) = IsValid s × (s.core.state ≢ State.invalid)
Settled (err e, s, events) = IsValid s × (s.core.state ≡ State.invalid) × (e ≡ invalid_msg)

latch-IsValid : (s : IStream) → IsValid s → IsValid (latch s)
latch-IsValid s v = ground arith

latched-Settled : (t : Turn) → Keeps t → Settled (latched t)
latched-Settled (ok u, s, events) k = (k.valid, k.alive refl)
latched-Settled (err e, s, events) k = (latch-IsValid s k.valid, refl, refl)

pub byte_step-Settled :
    (s : IStream) (b : ℕ)
    → IsValid s
    → s.core.state ≢ State.invalid
    → b < 256
    → Settled (byte_step s b)
byte_step-Settled s b v e h = elim (Bool-cases (is_fixlen_raw s.core.state)) [
  | inl p ↦
      let raw : s.core.state ≡ State.fixlen_raw = ground arith in
      rw (byte_step-raw s b raw) (raw_advance-Keeps s 1 v raw (omega arith) (ground arith))
  | inr p ↦
      let raw : s.core.state ≢ State.fixlen_raw = ground arith in
      rw (byte_step-step s b raw e) (latched-Settled (step s b) (step-Keeps s b v raw e h))
]

Settled-events : (t : Turn) (before : List Event) → Settled t → Settled (t.0, t.1, before ++ t.2)
Settled-events (ok u, s, events) before p = p
Settled-events (err e, s, events) before p = p

and_then-Settled :
    (t : Turn) (k : IStream → Turn)
    → Settled t
    → ((s : IStream) → IsValid s → s.core.state ≢ State.invalid → Settled (k s))
    → Settled (and_then t k)
and_then-Settled (ok u, s, events) k p h = Settled-events (k s) events (h s p.0 p.1)
and_then-Settled (err e, s, events) k p h = p

pub run-Settled :
    (bytes : List ℕ) (s : IStream)
    → IsValid s
    → s.core.state ≢ State.invalid
    → All IsByte bytes
    → Settled (run s bytes)
run-Settled [] s v e h = unfold run in (v, e)
run-Settled (b ∷ bs) s v e h = rw run_round (
    and_then-Settled (byte_step s b) _ (byte_step-Settled s b v e h.0)
      (λ s' v' e'. run-Settled bs s' v' e' h.1))

and_then_assoc :
    (t : Turn) (f g : IStream → Turn)
    → and_then (and_then t f) g ≡ and_then t (λ s. and_then (f s) g)
and_then_assoc (ok u, s, events) f g = inner (f s) events
  where
    inner :
        (t : Turn) (before : List Event)
        → and_then (t.0, t.1, before ++ t.2) g
          ≡ (let (r, s', more) = and_then t g in (r, s', before ++ more))
    inner (ok v, s', more) before = rw append_assoc
    inner (err e, s', more) before = refl
and_then_assoc (err e, s, events) f g = refl

pub run-append :
    (xs ys : List ℕ) (s : IStream) → run s (xs ++ ys) ≡ and_then (run s xs) (λ s'. run s' ys)
run-append [] ys s = unfold run in refl
run-append (x ∷ xs) ys s =
    rw (run_round, run_round, and_then_assoc, fun_ext (λ s'. run-append xs ys s'))

-- `feed` by the bytewise decoder.
abbrev pub outcome : Turn → Result Status × IStream × List Event
outcome (ok u, s, events) = (ok (verdict s), s, events)
outcome (err e, s, events) = (err e, s, events)

unfoldable pub feed_bytewise : IStream → List ℕ → Result Status × IStream × List Event
feed_bytewise s bytes =
    if is_invalid s.core.state then (err invalid_msg, s, []) else outcome (run s bytes)

-- The same outcome and the same decoder, and the same calls but for the payload chunks, which
-- carry the same bytes at the same offsets.
abbrev pub Refines :
    Option (Result Status × IStream × List Event) → Result Status × IStream × List Event → Type 0
Refines o (r, s, events) =
    (calls : List Event) × (o ≡ some (r, s, calls)) × (expand_all calls ≡ expand_all events)

finish-Refines : (o : Option Turn) (t : Turn) → Gives o t → Refines (finish o) (outcome t)
finish-Refines o (ok u, s, events) ((r, s', calls), p, (a, b, c)) = (calls, rw (p, a, b), c)
finish-Refines o (err e, s, events) ((r, s', calls), p, (a, b, c)) = (calls, rw (p, a, b), c)

pub feed_lem :
    (s : IStream) (bytes : List ℕ)
    → feed s bytes ≡ (
        if is_invalid s.core.state
        then some (err invalid_msg, s, [])
        else finish (feed_loop (2 * length bytes + 1) s bytes))
unfolding feed
feed_lem s bytes = refl

-- On a valid decoder and any bytes `feed` ends, with the outcome and the decoder of the bytewise
-- reference, and with the same callbacks but for the division of payloads into chunks.
pub feed-Refines :
    (s : IStream) (bytes : List ℕ)
    → IsValid s
    → All IsByte bytes
    → Refines (feed s bytes) (feed_bytewise s bytes)
unfolding feed_bytewise
feed-Refines s bytes v h = elim (Bool-cases (is_invalid s.core.state)) [
  | inl p ↦ rw (feed_lem, p) ([], refl, refl)
  | inr p ↦
      let live : s.core.state ≢ State.invalid = ground arith in
      rw (feed_lem, p)
        (finish-Refines _ (run s bytes) (feed_loop-Gives _ bytes s (omega arith) h v live))
]

-- Two runs in a row, and the run over both inputs.
outcome-append :
    (t : Turn) (ys : List ℕ)
    → Settled t
    → outcome (and_then t (λ s'. run s' ys)) ≡ (
        let (r₁, s₁, e₁) = outcome t in
        let (r₂, s₂, e₂) = feed_bytewise s₁ ys in (r₂, s₂, e₁ ++ e₂))
unfolding feed_bytewise
outcome-append (ok u, s, events) ys (v, e) = rw (invalid_test s.core.state e) (inner (run s ys))
  where
    inner :
        (t : Turn)
        → outcome (t.0, t.1, events ++ t.2) ≡ (let (r, s', e') = outcome t in (r, s', events ++ e'))
    inner (ok w, s', more) = refl
    inner (err x, s', more) = refl
outcome-append (err x, s, events) ys (v, e, m) = rw (ap is_invalid e, m, append-nil)

pub feed_live :
    (s : IStream) (bytes : List ℕ)
    → s.core.state ≢ State.invalid
    → feed_bytewise s bytes ≡ outcome (run s bytes)
unfolding feed_bytewise
feed_live s bytes e = rw (invalid_test s.core.state e)

pub feed_dead :
    (s : IStream) (bytes : List ℕ)
    → s.core.state ≡ State.invalid
    → feed_bytewise s bytes ≡ (err invalid_msg, s, [])
unfolding feed_bytewise
feed_dead s bytes e = rw (ap is_invalid e)

pub feed_bytewise-append :
    (s : IStream) (xs ys : List ℕ)
    → IsValid s
    → All IsByte xs
    → feed_bytewise s (xs ++ ys) ≡ (
        let (r₁, s₁, e₁) = feed_bytewise s xs in
        let (r₂, s₂, e₂) = feed_bytewise s₁ ys in (r₂, s₂, e₁ ++ e₂))
feed_bytewise-append s xs ys v h = elim (Bool-cases (is_invalid s.core.state)) [
  | inl p ↦
      let dead : s.core.state ≡ State.invalid = ground arith in
      rw (feed_dead s (xs ++ ys) dead, feed_dead s xs dead, feed_dead s ys dead)
  | inr p ↦
      let live : s.core.state ≢ State.invalid = ground arith in
      rw (feed_live s (xs ++ ys) live, run-append, feed_live s xs live)
        (outcome-append (run s xs) ys (run-Settled xs s v live h))
]
