-- ===== src/RoundTrip/Payloads.antt =====
-- src/istream.rs on src/ostream.rs: the payload of a string, a blob or a float.
use corelib_rs_no_std.Common.{
  ℕ, suc, ◌+◌, ◌-◌, ◌*◌, ◌/◌, ◌%◌, ◌^◌, ◌≤◌, ◌<◌, ◌≡◌, refl, arith, leb, if◌then◌else◌, List, [],
  ◌∷◌, length, append-nil, All, bit_or,
}
use corelib_rs_no_std.Common.Bits.{or_low_high}
use corelib_rs_no_std.Common.Word.{sub_usize}
use corelib_rs_no_std.Error.{ok}
use corelib_rs_no_std.Types.{FixlenType, ArrayKind, array_max}
use corelib_rs_no_std.IStream.State.{State, IStream, Event, Turn}
use corelib_rs_no_std.IStream.Step.{step, step_fixlen_val, payload_chunk}
use corelib_rs_no_std.IStream.Bytewise.{byte_step, run}
use corelib_rs_no_std.IStream.Bulk.{Alike, InRaw, raw_run, bulk}
use corelib_rs_no_std.IStream.FeedRun.{IsByte, run_round}
use corelib_rs_no_std.OStream.Fields.{le_bytes}
use corelib_rs_no_std.RoundTrip.Leads.{dec, Leads}

whole_turn : (t : Turn) (s' : IStream) → t.0 ≡ ok tt → t.1 ≡ s' → t ≡ (ok tt, s', t.2)
whole_turn t s' p q i = (p i, q i, t.2)

-- A run as one turn, up to the division of payloads.
pub Leads-turn :
    (s : IStream) (bytes : List ℕ) (s' : IStream) (events : List Event)
    → Alike (run s bytes) (ok tt, s', events)
    → All IsByte bytes
    → Leads s bytes s' events
Leads-turn s bytes s' events p a = record {
  calls = (run s bytes).2;
  runs = whole_turn (run s bytes) s' p.0 p.1;
  tells = p.2;
  octets = a;
}

-- What the visitor is told of a payload in one chunk.
abbrev pub chunk_event : FixlenType → ℕ → List ℕ → Event
chunk_event FixlenType.blob id bytes = Event.blob id (length bytes) 0 bytes
chunk_event _ id bytes = Event.string id (length bytes) 0 bytes

payload_chunk-event :
    (kind : ArrayKind) (subtype : FixlenType) (depth id : ℕ) (bytes : List ℕ)
    → payload_chunk
        (dec State.fixlen_raw kind subtype depth 0 id 0 (length bytes) (length bytes))
        0
        bytes
      ≡ chunk_event subtype id bytes
unfolding payload_chunk
payload_chunk-event kind FixlenType.fp32 depth id bytes = refl
payload_chunk-event kind FixlenType.fp64 depth id bytes = refl
payload_chunk-event kind FixlenType.str depth id bytes = refl
payload_chunk-event kind FixlenType.blob depth id bytes = refl

run_nil : (s : IStream) → run s [] ≡ (ok tt, s, [])
run_nil s = unfold run in refl

raw_all :
    (b : ℕ) (bs : List ℕ) (s : IStream)
    → InRaw s
    → suc (length bs) ≤ s.fixlen_remaining
    → Alike (run s (b ∷ bs)) (bulk s (b ∷ bs))
raw_all b bs s v h = rw (append-nil, run_nil) at (raw_run bs [] b s v h)

-- The bytes of a payload that is not empty.
pub raw-Leads :
    (kind : ArrayKind) (subtype : FixlenType) (depth id b : ℕ) (bs : List ℕ)
    → length (b ∷ bs) ≤ array_max
    → All IsByte (b ∷ bs)
    → Leads
        (dec State.fixlen_raw kind subtype depth 0 id 0 (length (b ∷ bs)) (length (b ∷ bs)))
        (b ∷ bs)
        (dec State.idle kind subtype depth 0 id 0 (length (b ∷ bs)) 0)
        (chunk_event subtype id (b ∷ bs) ∷ [])
raw-Leads kind subtype depth id b bs h a =
    let n : ℕ = suc (length bs) in
    let s = dec State.fixlen_raw kind subtype depth 0 id 0 n n in
    let owes : InRaw s = record { raw = refl; owed = omega arith; wide = omega arith } in
    let done : sub_usize n n ≡ 0 = omega arith in
    let chunk = payload_chunk-event kind subtype depth id (b ∷ bs) in
    Leads-turn s (b ∷ bs) _ _ (rw (done, chunk) at (raw_all b bs s owes (omega arith))) a

-- A float of which the bytes `bs` are left.
abbrev pub pushed : ℕ → List ℕ → ℕ
pushed acc [] = acc
pushed acc (b ∷ bs) = pushed (acc / 256 + b * 2 ^ 56) bs

push_low : (acc b : ℕ) → acc < 2 ^ 64 → bit_or (acc / 256) (b * 2 ^ 56) ≡ acc / 256 + b * 2 ^ 56
push_low acc b h = or_low_high 56 b (acc / 256) (omega arith)

-- The event of a float whose bytes are in the accumulator.
abbrev pub float_event : FixlenType → ℕ → ℕ → Event
float_event FixlenType.fp64 id acc = Event.fp64 id acc
float_event _ id acc = Event.fp32 id (acc / 2 ^ 32 % 2 ^ 32)

-- Behind a float: the next element, or the field's end.
abbrev pub behind_float : ArrayKind → FixlenType → ℕ → ℕ → ℕ → ℕ → IStream
behind_float kind subtype depth id rem total =
    if leb rem 1
    then dec State.idle kind subtype depth 0 id 0 total 0
    else dec State.fixlen_val kind subtype depth 0 id (rem - 1) total total

val_more :
    (kind : ArrayKind) (subtype : FixlenType) (depth acc id rem total b left : ℕ)
    → b < 256
    → acc < 2 ^ 64
    → 2 ≤ left
    → left < 2 ^ 64
    → byte_step (dec State.fixlen_val kind subtype depth acc id rem total left) b ≡ (
      ok tt,
      dec State.fixlen_val kind subtype depth (acc / 256 + b * 2 ^ 56) id rem total (left - 1),
      [],
    )
unfolding byte_step step step_fixlen_val
val_more kind FixlenType.fp64 depth acc id rem total b left h k l m = ground (arith, push_low acc b)
val_more kind _ depth acc id rem total b left h k l m = ground (arith, push_low acc b)

val_last :
    (kind : ArrayKind) (subtype : FixlenType) (depth acc id rem total b : ℕ)
    → b < 256
    → acc < 2 ^ 64
    → rem < 2 ^ 64
    → byte_step (dec State.fixlen_val kind subtype depth acc id rem total 1) b ≡ (
      ok tt,
      behind_float kind subtype depth id rem total,
      float_event subtype id (acc / 256 + b * 2 ^ 56) ∷ [],
    )
unfolding byte_step step step_fixlen_val
val_last kind FixlenType.fp64 depth acc id rem total b h k m = ground (arith, push_low acc b)
val_last kind _ depth acc id rem total b h k m = ground (arith, push_low acc b)

pushed-lt : (acc b : ℕ) → b < 256 → acc < 2 ^ 64 → acc / 256 + b * 2 ^ 56 < 2 ^ 64
pushed-lt acc b h k = omega arith

-- The bytes of a float, or those that are left.
float_run :
    (kind : ArrayKind) (subtype : FixlenType) (depth acc id rem total b : ℕ) (bs : List ℕ)
    → All IsByte (b ∷ bs)
    → acc < 2 ^ 64
    → rem < 2 ^ 64
    → length (b ∷ bs) < 2 ^ 64
    → run (dec State.fixlen_val kind subtype depth acc id rem total (length (b ∷ bs))) (b ∷ bs) ≡ (
      ok tt,
      behind_float kind subtype depth id rem total,
      float_event subtype id (pushed acc (b ∷ bs)) ∷ [],
    )
float_run kind subtype depth acc id rem total b [] a h k l =
    rw (run_round, val_last kind subtype depth acc id rem total b a.0 h k, run_nil) refl
float_run kind subtype depth acc id rem total b (c ∷ cs) a h k l =
    let one =
      val_more kind subtype depth acc id rem total b (suc (suc (length cs))) a.0 h (omega arith)
        (omega arith) in
    let left : suc (suc (length cs)) - 1 ≡ suc (length cs) = omega arith in
    let rest =
      float_run kind subtype depth (acc / 256 + b * 2 ^ 56) id rem total c cs a.1
        (pushed-lt acc b a.0 h) k (omega arith) in
    rw (run_round, one, left, rest) refl

pub float-Leads :
    (kind : ArrayKind) (subtype : FixlenType) (depth id rem total b : ℕ) (bs : List ℕ)
    → All IsByte (b ∷ bs)
    → rem < 2 ^ 64
    → length (b ∷ bs) ≡ total
    → total < 2 ^ 64
    → Leads
        (dec State.fixlen_val kind subtype depth 0 id rem total total)
        (b ∷ bs)
        (behind_float kind subtype depth id rem total)
        (float_event subtype id (pushed 0 (b ∷ bs)) ∷ [])
float-Leads kind subtype depth id rem total b bs a h e k = record {
  calls = float_event subtype id (pushed 0 (b ∷ bs)) ∷ [];
  runs = rw e at (float_run kind subtype depth 0 id rem total b bs a (omega arith) h (omega arith));
  tells = refl;
  octets = a;
}

-- The bits of the float whose bytes are written.
pub pushed-le_bytes4 :
    (bits : ℕ) → bits < 2 ^ 32 → pushed 0 (le_bytes 4 bits) / 2 ^ 32 % 2 ^ 32 ≡ bits
pushed-le_bytes4 bits h = omega arith

pub pushed-le_bytes8 : (bits : ℕ) → bits < 2 ^ 64 → pushed 0 (le_bytes 8 bits) ≡ bits
pushed-le_bytes8 bits h = omega arith
