-- ===== src/IStream/Progress.antt =====
-- src/istream.rs: a payload ends when its bytes are in, and a varint ends or is refused.
use corelib_rs_no_std.Common.{
  joined, ℕ, ◌+◌, ◌*◌, ◌-◌, ◌%◌, ◌^◌, ◌≤◌, ◌<◌, ◌≡◌, ◌≢◌, refl, ap, ◌∙◌, arith, ltb, leb, ◌==◌,
  ◌&&◌, List, [], ◌∷◌, ◌++◌, Option, some, All, Bool-cases, inl, inr, length, append-nil, false,
}
use corelib_rs_no_std.Error.{ok, err, invalid_msg}
use corelib_rs_no_std.IStream.State.{State, IStream, Event, Turn, is_invalid}
use corelib_rs_no_std.IStream.Step.{payload_chunk}
use corelib_rs_no_std.IStream.Feed.{feed, verdict}
use corelib_rs_no_std.IStream.Valid.{IsValid}
use corelib_rs_no_std.IStream.Preserve.{in_varint, digit_fits}
use corelib_rs_no_std.IStream.Word.{step_lem}
use corelib_rs_no_std.IStream.Digit.{InVarint}
use corelib_rs_no_std.IStream.Bytewise.{raw_advance, run, expand, expand_all, per_byte}
use corelib_rs_no_std.IStream.Bulk.{Alike, raw_run, offset_of}
use corelib_rs_no_std.IStream.FeedRun.{IsByte, InRaw-of, byte_step-step, run_round}
use corelib_rs_no_std.IStream.Chunks.{Refines, feed_lem, feed_live, feed-Refines, outcome}
use corelib_rs_no_std.IStream.Deliver.{Outcome, feed_chunks, feed_chunks-Refines}

-- Behind the last byte of a payload.
abbrev pub finished : IStream → IStream
finished s = record s { core = record s.core { state = State.idle }; fixlen_remaining = 0 }

raw_advance-finished : (s : IStream) → IsValid s → raw_advance s s.fixlen_remaining ≡ finished s
raw_advance-finished s v = ground arith

run_nil : (s : IStream) → run s [] ≡ (ok tt, s, [])
unfolding run
run_nil s = refl

payload_run :
    (s : IStream) (bytes : List ℕ)
    → IsValid s
    → s.core.state ≡ State.fixlen_raw
    → length bytes ≡ s.fixlen_remaining
    → Alike (run s bytes) (ok tt, finished s, payload_chunk s (offset_of s) bytes ∷ [])
payload_run s [] v e n = absurd (ground arith)
payload_run s (b ∷ bs) v e n =
    let whole = raw_run bs [] b s (InRaw-of s v e) (omega arith) in
    let (result, left, told) = rw (append-nil bs, run_nil) at whole in
    (result, left ∙ ap (raw_advance s) n ∙ raw_advance-finished s v, told)

Alike-Refines :
    (o : Option Outcome) (u : Turn) (s : IStream) (events : List Event)
    → Refines o (outcome u)
    → Alike u (ok tt, s, events)
    → Refines o (ok (verdict s), s, events)
Alike-Refines o (ok r, t, more) s events (calls, p, e) (a, b, c) = (calls, rw p (rw b refl), e ∙ c)
Alike-Refines o (err x, t, more) s events (calls, p, e) (a, b, c) = absurd (ground arith)

-- The bytes that a payload still owes, in any chunks, bring a valid decoder back between two words,
-- without an error, and are handed on in order, at the offsets that are due.
pub feed_chunks-finishes :
    (s : IStream) (chunks : List (List ℕ))
    → IsValid s
    → s.core.state ≡ State.fixlen_raw
    → All (All IsByte) chunks
    → length (joined chunks) ≡ s.fixlen_remaining
    → Refines (feed_chunks s chunks) (
      ok (verdict (finished s)),
      finished s,
      payload_chunk s (s.fixlen_total - s.fixlen_remaining) (joined chunks) ∷ [],
    )
feed_chunks-finishes s chunks v e h n =
    let live : s.core.state ≢ State.invalid = ground arith in
    let due : offset_of s ≡ s.fixlen_total - s.fixlen_remaining = ground arith in
    let whole = rw (feed_live s (joined chunks) live) at (feed_chunks-Refines chunks s v h) in
    rw (← due) (
      Alike-Refines (feed_chunks s chunks) (run s (joined chunks)) (finished s)
        (payload_chunk s (offset_of s) (joined chunks) ∷ []) whole
        (payload_run s (joined chunks) v e n))

abbrev digit : IStream → ℕ → IStream
digit s b = record s {
  core = record s.core { acc = s.core.acc + b % 128 * 2 ^ s.core.shift; shift = s.core.shift + 7 };
}

-- A byte that does not end its varint.
digit-IsValid :
    (s : IStream) (b : ℕ)
    → IsValid s
    → InVarint s.core
    → s.core.state ≢ State.fixlen_val
    → s.core.state ≢ State.fixlen_raw
    → 128 ≤ b
    → b < 256
    → s.core.shift ≢ 63
    → IsValid (digit s b) × InVarint (digit s b).core
digit-IsValid s b v w a c lo hi n = ground (arith, digit_fits s.core.acc s.core.shift b)

abbrev pub IsContinuation : ℕ → Type 0
IsContinuation b = (128 ≤ b) × (b < 256)

-- What the reference gives on bytes that do not end a varint.
overlong_run :
    (bytes : List ℕ) (s : IStream)
    → IsValid s
    → InVarint s.core
    → s.core.state ≢ State.fixlen_val
    → s.core.state ≢ State.fixlen_raw
    → s.core.state ≢ State.invalid
    → All IsContinuation bytes
    → 70 ≤ s.core.shift + 7 * length bytes
    → (s' : IStream) × (run s bytes ≡ (err invalid_msg, s', []))
overlong_run [] s v w a b c h n = absurd (omega arith)
overlong_run (x ∷ xs) s v w a b c h n = elim (Bool-cases (s.core.shift == 63 && leb 2 x)) [
  | inl p ↦ rw (run_round, byte_step-step s x b c, step_lem s x w a h.0.1, p) (_, refl)
  | inr p ↦
      let low : s.core.shift ≢ 63 = ground arith in
      let on : ltb x 128 ≡ false = ground arith in
      let (v', w') = digit-IsValid s x v w a b h.0.0 h.0.1 low in
      let (s', e) = overlong_run xs (digit s x) v' w' a b c h.1 (omega arith) in
      rw (run_round, byte_step-step s x b c, step_lem s x w a h.0.1, p, on, e) (s', refl)
]

pub some_expansion : (e : Event) (es : List Event) → expand e ++ es ≢ []
unfolding per_byte
some_expansion (Event.string id total o (b ∷ bs)) es = ground arith
some_expansion (Event.blob id total o (b ∷ bs)) es = ground arith
some_expansion (Event.string id total o []) es = ground arith
some_expansion (Event.blob id total o []) es = ground arith
some_expansion (Event.unsigned id v) es = ground arith
some_expansion (Event.signed id v) es = ground arith
some_expansion (Event.fp32 id v) es = ground arith
some_expansion (Event.fp64 id v) es = ground arith
some_expansion (Event.fixlen_begin id t n) es = ground arith
some_expansion (Event.array_begin id k n) es = ground arith
some_expansion (Event.sequence_begin id) es = ground arith
some_expansion Event.sequence_end es = ground arith

no_expansion : (events : List Event) → expand_all events ≡ [] → events ≡ []
no_expansion [] e = refl
no_expansion (e ∷ es) p = absurd (some_expansion e (expand_all es) p)

bytes_of : (bytes : List ℕ) → All IsContinuation bytes → All IsByte bytes
bytes_of [] h = tt
bytes_of (b ∷ bs) h = (h.0.1, bytes_of bs h.1)

-- In the midst of a word, ten bytes that do not end it, those that came before included, are refused
-- with `invalid_msg`, and nobody is called.
pub feed-overlong :
    (s : IStream) (bytes : List ℕ)
    → IsValid s
    → s.core.state ≢ State.fixlen_val
    → s.core.state ≢ State.fixlen_raw
    → All IsContinuation bytes
    → 70 ≤ s.core.shift + 7 * length bytes
    → (s' : IStream) × (feed s bytes ≡ some (err invalid_msg, s', []))
feed-overlong s bytes v a b h n = elim (Bool-cases (is_invalid s.core.state)) [
  | inl p ↦ rw (feed_lem, p) (s, refl)
  | inr p ↦
      let c : s.core.state ≢ State.invalid = ground arith in
      let (s', e) = overlong_run bytes s v (in_varint s v a b c) a b c h n in
      let (calls, q, r) =
        rw (feed_live s bytes c, e) at (feed-Refines s bytes v (bytes_of bytes h)) in
      (s', q ∙ ap (λ es. some (err invalid_msg, s', es)) (no_expansion calls r))
]
