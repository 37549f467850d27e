-- ===== src/IStream/Bulk.antt =====
-- src/istream.rs: the bulk path of `feed` against the bytewise decoder.
use corelib_rs_no_std.Common.{
  ℕ, suc, ◌+◌, ◌-◌, ◌^◌, ◌≤◌, ◌<◌, ◌≡◌, refl, arith, length, List, [], ◌∷◌, ◌++◌, append_assoc,
}
use corelib_rs_no_std.Common.Word.{sub_usize}
use corelib_rs_no_std.Error.{ok}
use corelib_rs_no_std.Types.{FixlenType}
use corelib_rs_no_std.IStream.State.{State, IStream, Event, Turn}
use corelib_rs_no_std.IStream.Step.{payload_chunk}
use corelib_rs_no_std.IStream.Bytewise.{
  raw_advance, byte_step, and_then, run, per_byte, expand, expand_all,
}

pub expand_all-append :
    (xs ys : List Event) → expand_all (xs ++ ys) ≡ expand_all xs ++ expand_all ys
expand_all-append [] ys = refl
expand_all-append (e ∷ es) ys = rw (expand_all-append es ys, append_assoc)

-- Two turns with the same calls, byte by byte.
abbrev pub Alike : Turn → Turn → Type 0
Alike t u = (t.0 ≡ u.0) × (t.1 ≡ u.1) × (expand_all t.2 ≡ expand_all u.2)

chunk_of : FixlenType → ℕ → ℕ → ℕ → List ℕ → Event
chunk_of FixlenType.blob id total offset c = Event.blob id total offset c
chunk_of _ id total offset c = Event.string id total offset c

payload_chunk_lem :
    (s : IStream) (o : ℕ) (c : List ℕ)
    → payload_chunk s o c ≡ chunk_of s.core.fixlen_type s.id s.fixlen_total o c
unfolding payload_chunk chunk_of
payload_chunk_lem s o c = ground arith

expand-chunk :
    (t : FixlenType) (id total o b : ℕ) (bs : List ℕ)
    → expand (chunk_of t id total o (b ∷ bs))
      ≡ chunk_of t id total o (b ∷ []) ∷ per_byte (chunk_of t id total) (o + 1) bs
unfolding chunk_of per_byte
expand-chunk FixlenType.blob id total o b bs = refl
expand-chunk FixlenType.fp32 id total o b bs = refl
expand-chunk FixlenType.fp64 id total o b bs = refl
expand-chunk FixlenType.str id total o b bs = refl

pub byte_step-raw :
    (s : IStream) (b : ℕ)
    → s.core.state ≡ State.fixlen_raw
    → byte_step s b ≡ (
      ok tt,
      raw_advance s 1,
      payload_chunk s (sub_usize s.fixlen_total s.fixlen_remaining) (b ∷ []) ∷ [],
    )
unfolding byte_step
byte_step-raw s b e = ground arith

-- What a payload owes, inside `fixlen_raw`.
pub record InRaw (s : IStream) : Type 0 where
  pub raw : s.core.state ≡ State.fixlen_raw
  pub owed : s.fixlen_remaining ≤ s.fixlen_total
  pub wide : s.fixlen_total < 2 ^ 64

abbrev left_with : IStream → ℕ → IStream
left_with s n = record s { fixlen_remaining = n }

raw_advance-one :
    (s : IStream)
    → InRaw s
    → 2 ≤ s.fixlen_remaining
    → raw_advance s 1 ≡ left_with s (s.fixlen_remaining - 1)
raw_advance-one s v h = ground arith

raw_advance-suc :
    (s : IStream) (n : ℕ)
    → InRaw s
    → suc (suc n) ≤ s.fixlen_remaining
    → raw_advance (left_with s (s.fixlen_remaining - 1)) (suc n) ≡ raw_advance s (suc (suc n))
raw_advance-suc s n v h = ground arith

abbrev pub offset_of : IStream → ℕ
offset_of s = sub_usize s.fixlen_total s.fixlen_remaining

abbrev pub bulk : IStream → List ℕ → Turn
bulk s c = (ok tt, raw_advance s (length c), payload_chunk s (offset_of s) c ∷ [])

offset-left :
    (s : IStream)
    → InRaw s
    → 2 ≤ s.fixlen_remaining
    → offset_of (left_with s (s.fixlen_remaining - 1)) ≡ offset_of s + 1
offset-left s v h = omega arith

expand_grow :
    (s : IStream) (b b' : ℕ) (c : List ℕ) (events rest : List Event)
    → InRaw s
    → 2 ≤ s.fixlen_remaining
    → (let s' = left_with s (s.fixlen_remaining - 1) in
        expand_all events ≡ expand (payload_chunk s' (offset_of s') (b' ∷ c)) ++ expand_all rest)
    → expand (payload_chunk s (offset_of s) (b ∷ [])) ++ expand_all events
      ≡ expand (payload_chunk s (offset_of s) (b ∷ b' ∷ c)) ++ expand_all rest
unfolding per_byte
expand_grow s b b' c events rest v h e =
    let tail = rw (payload_chunk_lem, expand-chunk, offset-left s v h) at e in
    rw (payload_chunk_lem, expand-chunk, payload_chunk_lem, expand-chunk, tail)

-- The payload bytes `b ∷ c` one by one do what one bulk round does, and leave the same rest.
pub raw_run :
    (c rest : List ℕ) (b : ℕ) (s : IStream)
    → InRaw s
    → suc (length c) ≤ s.fixlen_remaining
    → Alike (run s (b ∷ (c ++ rest))) (and_then (bulk s (b ∷ c)) (λ s'. run s' rest))
unfolding run
raw_run [] rest b s v h = rw (byte_step-raw s b v.raw) (refl, refl, refl)
raw_run (b' ∷ c) rest b s v h =
    let s' = left_with s (s.fixlen_remaining - 1) in
    let (r, t, events) =
      raw_run c rest b' s' (record { raw = v.raw; owed = omega arith; wide = v.wide })
        (omega arith) in
    let e = raw_advance-suc s (length c) v h in
    rw (byte_step-raw s b v.raw, raw_advance-one s v (omega arith), ← e)
      (r, t, expand_grow s b b' c _ _ v (omega arith) events)
