-- ===== src/IStream/InOrder.antt =====
-- src/istream.rs: the calls of `feed`, however its input is cut, in the order that `Visitor` documents.
use corelib_rs_no_std.Common.{
  ℕ, ◌+◌, ◌<◌, ◌≡◌, ◌≢◌, refl, ap, sym, ◌∙◌, arith, List, [], ◌∷◌, ◌++◌, Option, none, some,
  Bool-cases, inl, inr, All,
}
use mathlib.Core.Path.{fun_ext}
use corelib_rs_no_std.Common.Word.{sub_usize}
use corelib_rs_no_std.Error.{ok, err}
use corelib_rs_no_std.IStream.State.{State, IStream, Event, Turn, is_fixlen_raw, is_invalid}
use corelib_rs_no_std.IStream.Step.{step, payload_chunk}
use corelib_rs_no_std.IStream.Feed.{feed}
use corelib_rs_no_std.IStream.Valid.{IsValid}
use corelib_rs_no_std.IStream.Bytewise.{
  byte_step, latched, and_then, run, raw_advance, per_byte, expand, expand_all,
}
use corelib_rs_no_std.IStream.Bulk.{byte_step-raw}
use corelib_rs_no_std.IStream.FeedRun.{IsByte, byte_step-step, run_round}
use corelib_rs_no_std.IStream.Chunks.{
  Settled, byte_step-Settled, feed_bytewise, feed_live, feed_dead, outcome, Refines, feed-Refines,
}
use corelib_rs_no_std.IStream.Deliver.{Outcome}
use corelib_rs_no_std.IStream.Protocol.{Phase, next, follow, and_follow, phase_of}
use corelib_rs_no_std.IStream.Orderly.{Orderly, step-Orderly}

follow_round :
    (p : Phase) (e : Event) (es : List Event)
    → follow p (e ∷ es) ≡ and_follow (next p e) (λ q. follow q es)
unfolding follow
follow_round p e es = refl

follow_nil : (p : Phase) → follow p [] ≡ some p
unfolding follow
follow_nil p = refl

and_follow_assoc :
    (o : Option Phase) (f g : Phase → Option Phase)
    → and_follow (and_follow o f) g ≡ and_follow o (λ q. and_follow (f q) g)
and_follow_assoc none f g = refl
and_follow_assoc (some p) f g = refl

follow-append :
    (xs ys : List Event) (p : Phase)
    → follow p (xs ++ ys) ≡ and_follow (follow p xs) (λ q. follow q ys)
follow-append [] ys p = rw follow_nil refl
follow-append (e ∷ es) ys p =
    rw (follow_round, follow_round, and_follow_assoc)
      (ap (and_follow (next p e)) (fun_ext (λ q. follow-append es ys q)))

-- Two chunks in a row are in order exactly if the one chunk of both is.
merge_string :
    (p : Phase) (id total o b c : ℕ) (cs : List ℕ)
    → and_follow
        (next p (Event.string id total o (b ∷ [])))
        (λ q. next q (Event.string id total (o + 1) (c ∷ cs)))
      ≡ next p (Event.string id total o (b ∷ c ∷ cs))
unfolding next
merge_string p id total o b c cs = ground arith

merge_blob :
    (p : Phase) (id total o b c : ℕ) (cs : List ℕ)
    → and_follow
        (next p (Event.blob id total o (b ∷ [])))
        (λ q. next q (Event.blob id total (o + 1) (c ∷ cs)))
      ≡ next p (Event.blob id total o (b ∷ c ∷ cs))
unfolding next
merge_blob p id total o b c cs = ground arith

follow_one : (p : Phase) (e : Event) → follow p (e ∷ []) ≡ next p e
follow_one p e = rw (follow_round, fun_ext follow_nil) (one (next p e))
  where
    one : (o : Option Phase) → and_follow o some ≡ o
    one none = refl
    one (some q) = refl

-- A chunk that the bytes of a payload were put together to.
pieces :
    (f : ℕ → List ℕ → Event)
    → ((p : Phase) (o b c : ℕ) (cs : List ℕ)
        → and_follow (next p (f o (b ∷ []))) (λ q. next q (f (o + 1) (c ∷ cs)))
          ≡ next p (f o (b ∷ c ∷ cs)))
    → (bs : List ℕ) (b o : ℕ) (p : Phase) → follow p (per_byte f o (b ∷ bs)) ≡ next p (f o (b ∷ bs))
unfolding per_byte
pieces f merge [] b o p = follow_one p (f o (b ∷ []))
pieces f merge (c ∷ cs) b o p =
    rw (follow_round, fun_ext (pieces f merge cs c (o + 1))) (merge p o b c cs)

follow-expand : (e : Event) (p : Phase) → follow p (expand e) ≡ next p e
follow-expand (Event.string id total o (b ∷ bs)) p =
    pieces (Event.string id total) (λ q. merge_string q id total) bs b o p
follow-expand (Event.blob id total o (b ∷ bs)) p =
    pieces (Event.blob id total) (λ q. merge_blob q id total) bs b o p
follow-expand (Event.string id total o []) p = follow_one p _
follow-expand (Event.blob id total o []) p = follow_one p _
follow-expand (Event.unsigned id v) p = follow_one p _
follow-expand (Event.signed id v) p = follow_one p _
follow-expand (Event.fp32 id v) p = follow_one p _
follow-expand (Event.fp64 id v) p = follow_one p _
follow-expand (Event.fixlen_begin id t n) p = follow_one p _
follow-expand (Event.array_begin id k n) p = follow_one p _
follow-expand (Event.sequence_begin id) p = follow_one p _
follow-expand Event.sequence_end p = follow_one p _

-- The division of payloads into chunks is all one to the order of the calls.
follow-expand_all : (es : List Event) (p : Phase) → follow p (expand_all es) ≡ follow p es
follow-expand_all [] p = refl
follow-expand_all (e ∷ es) p =
    rw (follow-append, follow-expand, follow_round)
      (ap (and_follow (next p e)) (fun_ext (follow-expand_all es)))

-- What a turn, or the outcome of `feed`, tells is in order, and if it succeeds, ends in the phase of
-- the decoder that it leaves.
abbrev pub Ends : Phase → List Event → IStream → Type 0
Ends p events s = follow p events ≡ some (phase_of s)

abbrev pub Stops : Phase → List Event → Type 0
Stops p events = (q : Phase) × (follow p events ≡ some q)

abbrev TurnInOrder : Phase → Turn → Type 0
TurnInOrder p (ok u, s, events) = Ends p events s
TurnInOrder p (err e, s, events) = Stops p events

latched-InOrder : (p : Phase) (t : Turn) → Orderly p t → TurnInOrder p (latched t)
latched-InOrder p (ok u, s, events) h = h
latched-InOrder p (err e, s, events) h = (p, rw (h, follow_nil) refl)

raw-InOrder :
    (s : IStream) (b : ℕ)
    → IsValid s
    → s.core.state ≡ State.fixlen_raw
    → follow
        (phase_of s)
        (payload_chunk s (sub_usize s.fixlen_total s.fixlen_remaining) (b ∷ []) ∷ [])
      ≡ some (phase_of (raw_advance s 1))
unfolding follow payload_chunk
raw-InOrder s b v e = ground arith

byte_step-InOrder :
    (s : IStream) (b : ℕ)
    → IsValid s
    → s.core.state ≢ State.invalid
    → b < 256
    → TurnInOrder (phase_of s) (byte_step s b)
byte_step-InOrder s b v e h = elim (Bool-cases (is_fixlen_raw s.core.state)) [
  | inl p ↦
      let raw : s.core.state ≡ State.fixlen_raw = ground arith in
      rw (byte_step-raw s b raw) (raw-InOrder s b v raw)
  | inr p ↦
      let raw : s.core.state ≢ State.fixlen_raw = ground arith in
      rw (byte_step-step s b raw e)
        (latched-InOrder (phase_of s) (step s b) (step-Orderly s b v raw e h))
]

behind-InOrder :
    (p : Phase) (s : IStream) (before : List Event) (t : Turn)
    → Ends p before s
    → TurnInOrder (phase_of s) t
    → TurnInOrder p (t.0, t.1, before ++ t.2)
behind-InOrder p s before (ok u, s', events) h k = rw (follow-append, h) k
behind-InOrder p s before (err e, s', events) h (q, k) = (q, rw (follow-append, h) k)

run-InOrder :
    (bytes : List ℕ) (s : IStream)
    → IsValid s
    → s.core.state ≢ State.invalid
    → All IsByte bytes
    → TurnInOrder (phase_of s) (run s bytes)
run-InOrder [] s v e h = unfold run in follow_nil (phase_of s)
run-InOrder (b ∷ bs) s v e h = rw run_round (
    go_on (byte_step s b) (byte_step-Settled s b v e h.0) (byte_step-InOrder s b v e h.0)
      (λ s' v' e'. run-InOrder bs s' v' e' h.1))
  where
    go_on :
        (t : Turn)
        → Settled t
        → TurnInOrder (phase_of s) t
        → ((s' : IStream)
            → IsValid s'
            → s'.core.state ≢ State.invalid
            → TurnInOrder (phase_of s') (run s' bs))
        → TurnInOrder (phase_of s) (and_then t (λ s'. run s' bs))
    go_on (ok u, s', events) settled p k =
        behind-InOrder (phase_of s) s' events (run s' bs) p (k s' settled.0 settled.1)
    go_on (err x, s', events) settled p k = p

abbrev pub InOrder : Phase → Outcome → Type 0
InOrder p (ok status, s, events) = Ends p events s
InOrder p (err e, s, events) = Stops p events

outcome-InOrder : (p : Phase) (t : Turn) → TurnInOrder p t → InOrder p (outcome t)
outcome-InOrder p (ok u, s, events) h = h
outcome-InOrder p (err e, s, events) h = h

pub feed_bytewise-InOrder :
    (s : IStream) (bytes : List ℕ)
    → IsValid s
    → All IsByte bytes
    → InOrder (phase_of s) (feed_bytewise s bytes)
feed_bytewise-InOrder s bytes v h = elim (Bool-cases (is_invalid s.core.state)) [
  | inl p ↦
      let dead : s.core.state ≡ State.invalid = ground arith in
      rw (feed_dead s bytes dead) (phase_of s, follow_nil (phase_of s))
  | inr p ↦
      let live : s.core.state ≢ State.invalid = ground arith in
      rw (feed_live s bytes live)
        (outcome-InOrder (phase_of s) (run s bytes) (run-InOrder bytes s v live h))
]

same_order :
    (p : Phase) (calls events : List Event)
    → expand_all calls ≡ expand_all events
    → follow p calls ≡ follow p events
same_order p calls events e =
    sym (follow-expand_all calls p) ∙ ap (follow p) e ∙ follow-expand_all events p

pub Refines-InOrder :
    (p : Phase) (o : Option Outcome) (u : Outcome)
    → Refines o u
    → InOrder p u
    → (t : Outcome) × (o ≡ some t) × InOrder p t
Refines-InOrder p o (ok status, s, events) (calls, q, e) h =
    ((ok status, s, calls), q, same_order p calls events e ∙ h)
Refines-InOrder p o (err x, s, events) (calls, q, e) (end, h) =
    ((err x, s, calls), q, (end, same_order p calls events e ∙ h))

-- `feed` on a valid decoder and bytes ends, and its callbacks are in the order that `Visitor`
-- documents, beginning in the phase of the decoder before it. A `feed` that succeeds leaves the
-- decoder in the phase that they end in.
pub feed-InOrder :
    (s : IStream) (bytes : List ℕ)
    → IsValid s
    → All IsByte bytes
    → (o : Outcome) × (feed s bytes ≡ some o) × InOrder (phase_of s) o
feed-InOrder s bytes v h =
    Refines-InOrder (phase_of s) (feed s bytes) _ (feed-Refines s bytes v h)
      (feed_bytewise-InOrder s bytes v h)
