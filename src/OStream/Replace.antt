-- ===== src/OStream/Replace.antt =====
-- src/ostream.rs: `buffer_set`.
use corelib_rs_no_std.Common.{
  ℕ, ◌^◌, ◌≤◌, ◌<◌, ◌≡◌, refl, arith, Bool, true, false, List, length, inl, inr, ◌⊎◌, if◌then◌else◌,
}
use corelib_rs_no_std.Error.{Result, ok, err, Nothing, argument}
use corelib_rs_no_std.OStream.Handover.{Flush, Handoff}
use corelib_rs_no_std.OStream.Stream.{OStream, flush, buffer_set}
use corelib_rs_no_std.OStream.Wrote.{View, Keeps, IsValid, emitted, frames}
use corelib_rs_no_std.OStream.Construct.{check_cases}
use corelib_rs_no_std.OStream.Flushing.{flush-HandedOver}

module _ {S : Type 0} (F : Flush S) (H : Handoff S) (seen : View S) (K : Keeps F H seen) where
  -- The buffer is exchanged for a window that lies in the new one and leaves a sink a byte to drain,
  -- the sequences stay as they are, and a sink has all bytes that were emitted before.
  pub record Exchanged (buffer : List ℕ) (offset : ℕ) (s t : OStream S) : Type 0 where
    pub valid : IsValid F seen t
    pub active : t.buffer ≡ buffer
    pub start : t.offset ≡ offset
    pub inside : offset ≤ length buffer
    pub drains : F.sinks ≡ true → offset < length buffer
    pub framed : frames F seen t ≡ frames F seen s
    pub handed : F.sinks ≡ true → seen.sent t.env ≡ emitted F seen s
    pub kept : F.sinks ≡ false → t.env ≡ s.env

  -- The exchange, or a window that is rejected, with the encoder as it was.
  abbrev pub Swaps : List ℕ → ℕ → OStream S → Result Nothing × OStream S → Type 0
  Swaps buffer offset s r =
      ((r.0 ≡ ok tt) × Exchanged buffer offset s r.1)
      ⊎ ((r ≡ (err argument, s))
          × ((length buffer < offset) ⊎ ((F.sinks ≡ true) × (length buffer ≤ offset))))

  exchanged :
      (buffer : List ℕ) (offset : ℕ) (s t : OStream S)
      → length buffer < 2 ^ 63
      → offset ≤ length buffer
      → (F.sinks ≡ true → offset < length buffer)
      → seen.reserved t.env ≤ offset
      → IsValid F seen t
      → frames F seen t ≡ frames F seen s
      → (F.sinks ≡ true → seen.sent t.env ≡ emitted F seen s)
      → (F.sinks ≡ false → t.env ≡ s.env)
      → Exchanged buffer offset s (record t { buffer = buffer; offset = offset })
  exchanged buffer offset s t small within room b v f h k = record {
    valid = record {
      within = within;
      small = small;
      streaming = λ q. omega (arith, room q);
      slots = v.slots;
      window = v.window;
      nested = v.nested;
      bounded = v.bounded;
      ids = v.ids;
      behind = b;
      good = v.good;
    };
    active = refl;
    start = refl;
    inside = within;
    drains = room;
    framed = f;
    handed = h;
    kept = k;
  }

  idle : (s : OStream S) → F.sinks ≡ false → s.env ≡ (flush F H s).1.env
  unfolding flush
  idle s off = ground arith

  -- What becomes of the bytes in the outgoing buffer.
  outgoing :
      (b : Bool) (s : OStream S)
      → IsValid F seen s
      → F.sinks ≡ b
      → (let t = if b then (flush F H s).1 else s in
          IsValid F seen t
          × (frames F seen t ≡ frames F seen s)
          × (F.sinks ≡ true → seen.sent t.env ≡ emitted F seen s)
          × (F.sinks ≡ false → t.env ≡ s.env)
          × (t.env ≡ (flush F H s).1.env))
  outgoing true s v on =
      let d = flush-HandedOver F H seen K s v on in
      (d.1, d.4, λ q. d.3, λ q. absurd (ground arith), refl)
  outgoing false s v off = (v, refl, λ q. absurd (ground arith), λ q. refl, idle s off)

  -- On a valid encoder and a buffer of less than 2 ^ 63 bytes, of which a flush leaves at most `offset`
  -- reserved, `buffer_set` takes a window that lies in the buffer and leaves a sink at least a byte to
  -- drain: the buffer is the active one at the offset, in the same sequences, with every byte emitted
  -- before handed to the sink if there is one. It rejects with `argument` a window that lies beyond the
  -- buffer or leaves a sink no byte to drain, and changes nothing.
  pub buffer_set-Swaps :
      (buffer : List ℕ) (offset : ℕ) (s : OStream S)
      → length buffer < 2 ^ 63
      → seen.reserved (flush F H s).1.env ≤ offset
      → IsValid F seen s
      → Swaps buffer offset s (buffer_set F H buffer offset s)
  unfolding buffer_set
  buffer_set-Swaps buffer offset s small b v = elim (check_cases (length buffer) offset F.sinks) [
    | inr (p, q) ↦ rw p (inr (refl, q))
    | inl (p, within, room) ↦
        let (v', f, h, k, e) = outgoing F.sinks s v refl in
        rw p (
          inl (
            refl,
            exchanged buffer offset s (if F.sinks then (flush F H s).1 else s) small within room
                (rw e b) v' f h k,
          ))
  ]
