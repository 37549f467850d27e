-- ===== src/OStream/Wrote.antt =====
-- src/ostream.rs: what a write that reaches the buffer may do, and the rule for one write after
-- another. The sink is any that sends the bytes it is handed, behind the room that is reserved in
-- front of them.
use corelib_rs_no_std.Common.{
  ℕ, ◌+◌, ◌^◌, ◌≤◌, ◌<◌, ◌≡◌, refl, sym, arith, true, false, List, [], ◌++◌, length, take, drop,
  if◌then◌else◌, Option, none, some, append-nil, append_assoc, length-append, All,
}
use corelib_rs_no_std.Error.{Result, ok, err, Nothing, buffer_full}
use corelib_rs_no_std.Types.{max_depth, id_max}
use corelib_rs_no_std.OStream.Handover.{Flush, Handoff}
use corelib_rs_no_std.OStream.Stream.{OStream, Write, and_write, done, lazy_seq_depth}
use corelib_rs_no_std.OStream.Spec.{Frames}

-- How the client accounts for its environment: the bytes of the message that the sink was handed, the
-- room that is reserved for a framing header in front of the active buffer, and what it keeps to.
pub record View (S : Type 0) : Type 1 where
  pub sent : S → List ℕ
  pub reserved : S → ℕ
  pub Good : S → Type 0

-- All that the sink is handed is the message.
abbrev pub all_sent : {S : Type 0} → (S → List ℕ) → View S
all_sent sent = record { sent = sent; reserved = λ s. 0; Good = λ s. Unit {0} }

-- What the encoder takes out of the channel behind a flush, with the outgoing buffer retired.
abbrev pub retired_if :
    {S : Type 0} → Handoff S → List ℕ → Option (List ℕ × ℕ) × S → Option (List ℕ × ℕ) × S
retired_if H old (none, env) = (none, env)
retired_if H old (some window, env) = (some window, H.retire old env)

abbrev pub handed_over : {S : Type 0} → Handoff S → List ℕ → S → Option (List ℕ × ℕ) × S
handed_over H old env = if H.takes then retired_if H old (H.installed env) else (none, env)

-- The reserved room is in front of the installed buffer, which has more; without one it is none.
abbrev pub Roomy : Option (List ℕ × ℕ) → ℕ → Type 0
Roomy none room = room ≡ 0
Roomy (some (buffer, offset)) room =
    (offset ≡ room) × (offset < length buffer) × (length buffer < 2 ^ 63)

-- What the encoder relies on in the caller's sink and channel: of each unit that the sink is handed,
-- the bytes behind the reserved room are sent.
pub record Keeps {S : Type 0} (F : Flush S) (H : Handoff S) (seen : View S) : Type 0 where
  pub hands :
      F.sinks ≡ true
      → (unit old : List ℕ) (s : S) → seen.Good s
      → seen.reserved s ≤ length unit
      → (let r = handed_over H old (F.flush unit s) in
          (seen.sent r.1 ≡ seen.sent s ++ drop (seen.reserved s) unit)
          × seen.Good r.1
          × Roomy r.0 (seen.reserved r.1))

module _ {S : Type 0} (F : Flush S) (seen : View S) where
  pub record IsValid (s : OStream S) : Type 0 where
    pub within : s.offset ≤ length s.buffer
    pub small : length s.buffer < 2 ^ 63
    pub streaming : F.sinks ≡ true → 0 < length s.buffer
    pub slots : length s.pending ≡ lazy_seq_depth
    pub window : s.npending ≤ lazy_seq_depth
    pub nested : s.npending ≤ s.depth
    pub bounded : s.depth ≤ max_depth
    pub ids : All (λ id. id ≤ id_max) s.pending
    pub behind : seen.reserved s.env ≤ s.offset
    pub good : seen.Good s.env

  -- All bytes written so far: those handed to the sink, then those in the buffer behind the reserved
  -- room.
  abbrev pub emitted : OStream S → List ℕ
  emitted s = seen.sent s.env ++ drop (seen.reserved s.env) (take s.offset s.buffer)

  abbrev pub frames : OStream S → Frames
  frames s = (s.depth, take s.npending s.pending)

  -- `t` comes of a write of `bytes` from `s`, which leaves the open sequences as `fr` says: all of it
  -- is emitted, or there is no sink, the bytes do not fit, and a front part of them is emitted.
  pub data Wrote (s : OStream S) (fr : Frames) (bytes : List ℕ)
      : Result Nothing × OStream S → Type 0 where
    whole :
        {s' : OStream S}
        → IsValid s'
        → emitted s' ≡ emitted s ++ bytes
        → frames s' ≡ fr
        → (F.sinks ≡ false
            → (s'.offset ≡ s.offset + length bytes) × (length s'.buffer ≡ length s.buffer))
        → Wrote s fr bytes (ok tt, s')
    cut :
        {s' : OStream S} (front back : List ℕ)
        → bytes ≡ front ++ back
        → emitted s' ≡ emitted s ++ front
        → IsValid s'
        → F.sinks ≡ false
        → length s.buffer < s.offset + length bytes
        → Wrote s fr bytes (err buffer_full, s')

  pub done-Wrote : {s : OStream S} → IsValid s → Wrote s (frames s) [] (done s)
  done-Wrote v = whole v (sym (append-nil _)) refl (λ e. omega arith)

  -- A write behind one that put out `xs`.
  pub behind-Wrote :
      (s : OStream S) {s' : OStream S} (xs : List ℕ) {fr : Frames} {bs : List ℕ}
      {t : Result Nothing × OStream S}
      → emitted s' ≡ emitted s ++ xs
      → (F.sinks ≡ false
          → (s'.offset ≡ s.offset + length xs) × (length s'.buffer ≡ length s.buffer))
      → Wrote s' fr bs t
      → Wrote s fr (xs ++ bs) t
  behind-Wrote s xs {bs = bs} e fits (whole v' e' f' fits') =
      whole v' (rw (e', e, append_assoc)) f'
        (λ q. rw length-append (omega (arith, fits q, fits' q)))
  behind-Wrote s xs e fits (cut front back p e' v' q over) =
      cut (xs ++ front) back (rw (p, append_assoc)) (rw (e', e, append_assoc)) v' q
        (rw length-append (omega (arith, fits q)))

  -- One write after another.
  pub and_write-Wrote :
      {s : OStream S} {fr fr' : Frames} {xs : List ℕ} (bs : List ℕ) {t : Result Nothing × OStream S}
      (k : Write S)
      → Wrote s fr xs t
      → ((s' : OStream S) → IsValid s' → frames s' ≡ fr → Wrote s' fr' bs (k s'))
      → Wrote s fr' (xs ++ bs) (and_write t k)
  and_write-Wrote {s} {xs = xs} bs k (whole v e f fits) h = behind-Wrote s xs e fits (h _ v f)
  and_write-Wrote bs k (cut front back p e v q over) h =
      cut front (back ++ bs) (rw (p, append_assoc)) e v q (rw length-append (omega arith))
