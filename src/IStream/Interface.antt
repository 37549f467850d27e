-- ===== src/IStream/Interface.antt =====
-- src/istream.rs: `feed` at its interface, with the loop and the handlers shut.
use corelib_rs_no_std.Common.{
  ℕ, ◌≡◌, ◌≢◌, ◌↔◌, refl, ap, sym, ◌∙◌, subst, arith, List, [], ◌∷◌, ◌++◌, Option, some, Bool-cases,
  inl, inr, All,
}
use mathlib.Core.Option.{some-injective}
use corelib_rs_no_std.Error.{Result, ok, err, invalid_msg}
use corelib_rs_no_std.IStream.State.{State, IStream, Event, Turn, Status, complete, is_invalid}
use corelib_rs_no_std.IStream.Feed.{feed, verdict}
use corelib_rs_no_std.IStream.Valid.{IsValid}
use corelib_rs_no_std.IStream.Bytewise.{run, expand_all}
use corelib_rs_no_std.IStream.Bulk.{expand_all-append}
use corelib_rs_no_std.IStream.FeedRun.{IsByte}
use corelib_rs_no_std.IStream.Chunks.{
  Settled, run-Settled, feed-Refines, feed_bytewise, feed_bytewise-append, feed_live, feed_dead,
  outcome, Refines,
}

pub All-append : (xs ys : List ℕ) → All IsByte xs → All IsByte ys → All IsByte (xs ++ ys)
All-append [] ys h k = k
All-append (x ∷ xs) ys h k = (h.0, All-append xs ys h.1 k)

-- Between two fields, outside every sequence, with no byte of a header read: what the next byte is
-- read by is as in a new decoder.
abbrev pub AtBoundary : IStream → Type 0
AtBoundary s =
    (s.core.state ≡ State.idle)
    × (s.core.shift ≡ 0)
    × (s.core.acc ≡ 0)
    × (s.core.depth ≡ 0)
    × (s.array_remaining ≡ 0)

boundary-complete : (s : IStream) → IsValid s → AtBoundary s → verdict s ≡ complete
boundary-complete s v h = ground arith

complete-AtBoundary : (s : IStream) → IsValid s → verdict s ≡ complete → AtBoundary s
complete-AtBoundary s v h = ground arith

-- What `feed` leaves behind: the invariant, an error exactly in the latched state, and `complete`
-- exactly at a boundary.
abbrev pub Verdict : Result Status × IStream × List Event → Type 0
Verdict (ok st, s, events) =
    IsValid s × (s.core.state ≢ State.invalid) × ((st ≡ complete) ↔ AtBoundary s)
Verdict (err e, s, events) = IsValid s × (s.core.state ≡ State.invalid) × (e ≡ invalid_msg)

outcome-Verdict : (t : Turn) → Settled t → Verdict (outcome t)
outcome-Verdict (ok u, s, events) (v, e) = (v, e, (complete-AtBoundary s v, boundary-complete s v))
outcome-Verdict (err x, s, events) p = p

pub feed_bytewise-Verdict :
    (s : IStream) (bytes : List ℕ) → IsValid s → All IsByte bytes → Verdict (feed_bytewise s bytes)
feed_bytewise-Verdict s bytes v h = elim (Bool-cases (is_invalid s.core.state)) [
  | inl p ↦
      let dead : s.core.state ≡ State.invalid = ground arith in
      rw (feed_dead s bytes dead) (v, dead, refl)
  | inr p ↦
      let live : s.core.state ≢ State.invalid = ground arith in
      rw (feed_live s bytes live) (outcome-Verdict (run s bytes) (run-Settled bytes s v live h))
]

-- What `feed` gave is what the reference gives.
Refines-det :
    (o : Option (Result Status × IStream × List Event)) (u t : Result Status × IStream × List Event)
    → Refines o u
    → o ≡ some t
    → (u.0 ≡ t.0) × (u.1 ≡ t.1) × (expand_all t.2 ≡ expand_all u.2)
Refines-det o u t (calls, p, c) q =
    let e : (u.0, u.1, calls) ≡ t = some-injective _ _ (sym p ∙ q) in
    (ap (λ x. x.0) e, ap (λ x. x.1) e, ap (λ x. expand_all x.2) (sym e) ∙ c)

pub Verdict-calls :
    (r : Result Status) (s : IStream) (e f : List Event) → Verdict (r, s, e) → Verdict (r, s, f)
Verdict-calls (ok st) s e f p = p
Verdict-calls (err x) s e f p = p

pub Verdict-IsValid : (o : Result Status × IStream × List Event) → Verdict o → IsValid o.1
Verdict-IsValid (ok st, s, events) p = p.0
Verdict-IsValid (err x, s, events) p = p.0

-- `feed` on a valid decoder and bytes ends and keeps the invariant. It fails, always with
-- `invalid_msg`, exactly if the decoder is latched afterwards, and else reports `complete` exactly if
-- it stands between two fields, outside every sequence, with no byte of the next header read.
pub feed-Verdict :
    (s : IStream) (bytes : List ℕ)
    → IsValid s
    → All IsByte bytes
    → (o : Result Status × IStream × List Event) × (feed s bytes ≡ some o) × Verdict o
feed-Verdict s bytes v h =
    let (calls, p, c) = feed-Refines s bytes v h in
    let (r, s', events) = feed_bytewise s bytes in
    ((r, s', calls), p, Verdict-calls r s' events calls (feed_bytewise-Verdict s bytes v h))

-- Feeding a valid decoder two chunks of bytes, one after the other, leaves it with the outcome, the
-- state and, payloads taken byte by byte, the callbacks of one `feed` of both.
pub feed-append :
    (s : IStream) (xs ys : List ℕ) {r₁ r₂ : Result Status} {s₁ s₂ : IStream} {e₁ e₂ : List Event}
    → IsValid s
    → All IsByte xs
    → All IsByte ys
    → feed s xs ≡ some (r₁, s₁, e₁)
    → feed s₁ ys ≡ some (r₂, s₂, e₂)
    → Refines (feed s (xs ++ ys)) (r₂, s₂, e₁ ++ e₂)
feed-append s xs ys {r₁} {r₂} {s₁} {s₂} {e₁} {e₂} v hx hy p q =
    let u₁ = feed_bytewise s xs in
    let (a₁, b₁, c₁) = Refines-det _ u₁ _ (feed-Refines s xs v hx) p in
    let v₁ : IsValid s₁ = subst IsValid b₁ (Verdict-IsValid _ (feed_bytewise-Verdict s xs v hx)) in
    let u₂ = feed_bytewise s₁ ys in
    let (a₂, b₂, c₂) = Refines-det _ u₂ _ (feed-Refines s₁ ys v₁ hy) q in
    let (calls, e, c) = feed-Refines s (xs ++ ys) v (All-append xs ys hx hy) in
    let whole = rw (feed_bytewise-append s xs ys v hx, b₁, a₂, b₂) at e in
    let same = rw (feed_bytewise-append s xs ys v hx, b₁, expand_all-append) at c in
    (calls, whole, rw (expand_all-append, c₁, c₂) same)
