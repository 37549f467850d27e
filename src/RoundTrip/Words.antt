-- ===== src/RoundTrip/Words.antt =====
-- src/istream.rs on src/ostream.rs: the bytewise decoder over one varint.
use corelib_rs_no_std.Common.{
  ℕ, zero, suc, ◌+◌, ◌*◌, ◌/◌, ◌%◌, ◌^◌, ◌≤◌, ◌<◌, ◌≡◌, ◌≢◌, refl, ap, arith, true, false, ltb, leb,
  lt→ltb, ◌==◌, ◌&&◌, if◌then◌else◌, List, ◌∷◌, ◌++◌,
}
use native.Mathlib.Decide.{dec_lt}
use native.Mathlib.Nat.{div-add-mod}
use corelib_rs_no_std.Varint.Groups.{groups, varint}
use corelib_rs_no_std.IStream.State.{State, IStream}
use corelib_rs_no_std.IStream.Step.{dispatch, quiet}
use corelib_rs_no_std.IStream.Digit.{InVarint, shift_seven}
use corelib_rs_no_std.IStream.Preserve.{digit_fits}
use corelib_rs_no_std.IStream.Word.{at_word, step_lem}
use corelib_rs_no_std.IStream.Bytewise.{byte_step, latched, and_then, run}
use corelib_rs_no_std.IStream.FeedRun.{byte_step-step, run_round}

-- The states in which a varint is read.
abbrev pub ReadsWord : State → Type 0
ReadsWord State.fixlen_val = ⊥
ReadsWord State.fixlen_raw = ⊥
ReadsWord State.invalid = ⊥
ReadsWord _ = Unit

ReadsWord-raw : (s : IStream) → ReadsWord s.core.state → s.core.state ≢ State.fixlen_raw
ReadsWord-raw s h = ground arith

ReadsWord-live : (s : IStream) → ReadsWord s.core.state → s.core.state ≢ State.invalid
ReadsWord-live s h = ground arith

ReadsWord-val : (s : IStream) → ReadsWord s.core.state → s.core.state ≢ State.fixlen_val
ReadsWord-val s h = ground arith

-- The decoder behind the first bytes of a varint.
abbrev reading : IStream → ℕ → ℕ → IStream
reading s acc shift = record s { core = record s.core { acc = acc; shift = shift } }

-- A varint in progress, of which `v` is still to come.
record Pending (acc shift v : ℕ) : Type 0 where
  sevens : shift % 7 ≡ 0
  short : shift ≤ 63
  begun : acc < 2 ^ shift
  fits : acc + v * 2 ^ shift < 2 ^ 64

-- A tenth byte is the last one, and at most 1.
not_overlong : (acc shift v : ℕ) → Pending acc shift v → shift ≡ 63 → v < 2
not_overlong acc shift v p e = let wide : acc + v * 2 ^ 63 < 2 ^ 64 = rw e at p.fits in omega arith

shift_low : (acc shift v : ℕ) → Pending acc shift v → 128 ≤ v → shift ≢ 63
shift_low acc shift v p h e = omega (arith, not_overlong acc shift v p e)

byte_step-word :
    (s : IStream) (acc shift b : ℕ)
    → ReadsWord s.core.state
    → InVarint (reading s acc shift).core
    → b < 256
    → (shift ≡ 63 → b < 2)
    → byte_step (reading s acc shift) b
      ≡ latched (
          let v = acc + b % 128 * 2 ^ shift in
          if ltb b 128
          then dispatch s.core.state (at_word s) v
          else quiet (reading s v (shift + 7)))
byte_step-word s acc shift b w i h k =
    let t = reading s acc shift in
    let inside : (shift == 63 && leb 2 b) ≡ false = ground (arith, k) in
    rw
      (
        byte_step-step t b (ReadsWord-raw s w) (ReadsWord-live s w),
        step_lem t b i (ReadsWord-val s w) h,
        inside,
      )
      refl

split_value :
    (acc shift v : ℕ)
    → (acc + (v % 128 + 128) % 128 * 2 ^ shift) + v / 128 * 2 ^ (shift + 7) ≡ acc + v * 2 ^ shift
split_value acc shift v =
    let low : (v % 128 + 128) % 128 ≡ v % 128 = omega arith in
    rw low (
      omega (
        arith,
        ap (λ (t : ℕ). t * 2 ^ shift) (div-add-mod v 128),
        ap (λ (t : ℕ). v / 128 * t) (shift_seven shift),
      ))

Pending-next :
    (acc shift v : ℕ)
    → Pending acc shift v
    → 128 ≤ v
    → Pending (acc + (v % 128 + 128) % 128 * 2 ^ shift) (shift + 7) (v / 128)
Pending-next acc shift v p h =
    let low = shift_low acc shift v p h in
    let d =
      digit_fits acc shift (v % 128 + 128) p.begun p.sevens p.short (λ e. absurd (low e))
        (omega arith) (omega arith) in
    record { sevens = d.2; short = d.1; begun = d.0; fits = rw split_value p.fits }

last_read :
    (v acc shift : ℕ) (s : IStream) (rest : List ℕ)
    → ReadsWord s.core.state
    → Pending acc shift v
    → v < 128
    → run (reading s acc shift) (v ∷ rest)
      ≡ and_then
          (latched (dispatch s.core.state (at_word s) (acc + v * 2 ^ shift)))
          (λ t. run t rest)
last_read v acc shift s rest w p h =
    let low : v % 128 ≡ v = omega arith in
    let stops : ltb v 128 ≡ true = lt→ltb _ _ h in
    let begun : InVarint (reading s acc shift).core = record {
      sevens = p.sevens;
      short = p.short;
      fits = p.begun;
    } in
    let one = byte_step-word s acc shift v w begun (omega arith) (not_overlong acc shift v p) in
    rw (run_round, one, stops, low) refl

inner_read :
    (v acc shift : ℕ) (s : IStream) (rest : List ℕ)
    → ReadsWord s.core.state
    → Pending acc shift v
    → 128 ≤ v
    → run (reading s acc shift) ((v % 128 + 128) ∷ rest)
      ≡ run (reading s (acc + (v % 128 + 128) % 128 * 2 ^ shift) (shift + 7)) rest
inner_read v acc shift s rest w p h =
    let goes : ltb (v % 128 + 128) 128 ≡ false = ground arith in
    let begun : InVarint (reading s acc shift).core = record {
      sevens = p.sevens;
      short = p.short;
      fits = p.begun;
    } in
    let low = shift_low acc shift v p h in
    let one =
      byte_step-word s acc shift (v % 128 + 128) w begun (omega arith) (λ e. absurd (low e)) in
    rw (run_round, one, goes) refl

-- The digits that are still to come complete the value.
digits_read :
    (k v acc shift : ℕ) (s : IStream) (rest : List ℕ)
    → ReadsWord s.core.state
    → Pending acc shift v
    → v < 128 ^ suc k
    → run (reading s acc shift) (groups k v ++ rest)
      ≡ and_then
          (latched (dispatch s.core.state (at_word s) (acc + v * 2 ^ shift)))
          (λ t. run t rest)
unfolding groups
digits_read zero v acc shift s rest w p h = last_read v acc shift s rest w p (omega arith)
digits_read (suc k) v acc shift s rest w p h = elim (dec_lt v 128) [
  | yes low ↦ rw (lt→ltb _ _ low) (last_read v acc shift s rest w p low)
  | no high ↦
      let more : ltb v 128 ≡ false = ground arith in
      let rec =
        digits_read k (v / 128) (acc + (v % 128 + 128) % 128 * 2 ^ shift) (shift + 7) s rest w
          (Pending-next acc shift v p (omega arith)) (omega arith) in
      rw
        (
          more,
          inner_read v acc shift s (groups k (v / 128) ++ rest) w p (omega arith),
          rec,
          split_value,
        )
        refl
]

-- Between two words, a varint is read as its value.
pub varint_read :
    (v : ℕ) (s : IStream) (rest : List ℕ)
    → ReadsWord s.core.state
    → v < 2 ^ 64
    → run (at_word s) (varint v ++ rest)
      ≡ and_then (latched (dispatch s.core.state (at_word s) v)) (λ t. run t rest)
unfolding varint
varint_read v s rest w h =
    let fresh : Pending 0 0 v = record {
      sevens = omega arith;
      short = omega arith;
      begun = omega arith;
      fits = omega arith;
    } in
    let whole : 0 + v * 2 ^ 0 ≡ v = omega arith in
    rw whole at (digits_read 9 v 0 0 s rest w fresh (omega arith))
