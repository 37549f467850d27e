-- ===== src/IStream/Verdicts.antt =====
-- src/istream.rs: what the two final verdicts of `feed` mean for a message in chunks.
use corelib_rs_no_std.Common.{
  joined, ℕ, ◌≡◌, refl, ap, sym, ◌∙◌, subst, arith, List, [], ◌∷◌, some, All,
}
use mathlib.Core.Option.{some-injective}
use corelib_rs_no_std.Error.{ok, err, Error, invalid_msg}
use corelib_rs_no_std.IStream.State.{State, IStream, Event, complete, is_invalid, new}
use corelib_rs_no_std.IStream.Feed.{feed}
use corelib_rs_no_std.IStream.Valid.{IsValid, new-IsValid}
use corelib_rs_no_std.IStream.FeedRun.{IsByte}
use corelib_rs_no_std.IStream.Chunks.{feed_bytewise}
use corelib_rs_no_std.IStream.Interface.{
  AtBoundary, Verdict, Verdict-calls, All-append, feed-Verdict, feed_bytewise-Verdict,
}
use corelib_rs_no_std.IStream.Deliver.{Outcome, feed_chunks, feed_chunks-Refines, feed_round}
use corelib_rs_no_std.IStream.Protocol.{between, follow, phase_of}
use corelib_rs_no_std.IStream.InOrder.{InOrder, Refines-InOrder, feed_bytewise-InOrder}

idle_phase : (s : IStream) → AtBoundary s → phase_of s ≡ (0, between)
idle_phase s h = ground arith

feed_dead_lem :
    (s : IStream) (bytes : List ℕ)
    → s.core.state ≡ State.invalid
    → feed s bytes ≡ some (err invalid_msg, s, [])
unfolding feed
feed_dead_lem s bytes e = rw (ap is_invalid e) refl

feed_chunks-dead :
    (chunks : List (List ℕ)) (s : IStream)
    → s.core.state ≡ State.invalid
    → feed_chunks s chunks ≡ some (err invalid_msg, s, [])
feed_chunks-dead [] s e = unfold feed_chunks in feed_dead_lem s [] e
feed_chunks-dead (c ∷ cs) s e = rw (feed_round, feed_dead_lem s c e, feed_chunks-dead cs s e) refl

-- After a `feed` that fails, on a valid decoder and bytes, every later input is refused: `feed`
-- fails with `invalid_msg`, calls nobody and leaves the decoder as it is.
pub feed_chunks-latched :
    (s s' : IStream) (bytes : List ℕ) (e : Error) (calls : List Event) (chunks : List (List ℕ))
    → IsValid s
    → All IsByte bytes
    → feed s bytes ≡ some (err e, s', calls)
    → feed_chunks s' chunks ≡ some (err invalid_msg, s', [])
feed_chunks-latched s s' bytes e calls chunks v h p =
    let (o, q, w) = feed-Verdict s bytes v h in
    let same : o ≡ (err e, s', calls) = some-injective _ _ (sym q ∙ p) in
    let settled : Verdict (err e, s', calls) = subst Verdict same w in
    feed_chunks-dead chunks s' settled.1

joined-IsByte : (chunks : List (List ℕ)) → All (All IsByte) chunks → All IsByte (joined chunks)
joined-IsByte [] h = tt
joined-IsByte (c ∷ cs) h = All-append c (joined cs) h.0 (joined-IsByte cs h.1)

feed_chunks-Verdict :
    (chunks : List (List ℕ)) (s : IStream)
    → IsValid s
    → All (All IsByte) chunks
    → (o : Outcome) × (feed_chunks s chunks ≡ some o) × Verdict o
feed_chunks-Verdict chunks s v h =
    let (calls, p, c) = feed_chunks-Refines chunks s v h in
    let (r, s', events) = feed_bytewise s (joined chunks) in
    let settled = feed_bytewise-Verdict s (joined chunks) v (joined-IsByte chunks h) in
    ((r, s', calls), p, Verdict-calls r s' events calls settled)

-- A message, in any chunks, that a fresh decoder finds complete at its end was told in the order that
-- `Visitor` documents, up to a place between two fields, outside every sequence.
pub feed_chunks-complete :
    (chunks : List (List ℕ)) (s : IStream) (calls : List Event)
    → All (All IsByte) chunks
    → feed_chunks new chunks ≡ some (ok complete, s, calls)
    → follow (0, between) calls ≡ some (0, between)
feed_chunks-complete chunks s calls h p =
    let bytes = joined-IsByte chunks h in
    let (o, q, w) =
      Refines-InOrder (0, between) (feed_chunks new chunks) (feed_bytewise new (joined chunks))
        (feed_chunks-Refines chunks new new-IsValid h)
        (feed_bytewise-InOrder new (joined chunks) new-IsValid bytes) in
    let same : o ≡ (ok complete, s, calls) = some-injective _ _ (sym q ∙ p) in
    let ends : InOrder (0, between) (ok complete, s, calls) = subst (InOrder (0, between)) same w in
    let (o', q', w') = feed_chunks-Verdict chunks new new-IsValid h in
    let settled : Verdict (ok complete, s, calls) =
      subst Verdict (some-injective _ _ (sym q' ∙ p)) w' in
    ends ∙ ap some (idle_phase s (settled.2.0 refl))
