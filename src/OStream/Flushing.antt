-- ===== src/OStream/Flushing.antt =====
-- src/ostream.rs: `flush`.
use corelib_rs_no_std.Common.{
  ℕ, ◌≡◌, refl, sym, ◌∙◌, arith, true, Bool-cases, inl, inr, ltb, ◌&&◌, append-nil,
}
use corelib_rs_no_std.OStream.Handover.{Flush, Handoff}
use corelib_rs_no_std.OStream.Stream.{OStream, drain, flush}
use corelib_rs_no_std.OStream.Wrote.{View, Keeps, IsValid, emitted, frames}
use corelib_rs_no_std.OStream.Drain.{drain-Drained, none_left}

module _ {S : Type 0} (F : Flush S) (H : Handoff S) (seen : View S) (K : Keeps F H seen) where
  -- Everything emitted so far is with the sink.
  abbrev pub HandedOver : OStream S → ℕ × OStream S → Type 0
  HandedOver s r =
      (r.0 ≡ s.offset)
      × IsValid F seen r.1
      × (r.1.offset ≡ seen.reserved r.1.env)
      × (seen.sent r.1.env ≡ emitted F seen s)
      × (frames F seen r.1 ≡ frames F seen s)

  none_pending :
      (s : OStream S) → s.offset ≡ seen.reserved s.env → emitted F seen s ≡ seen.sent s.env
  none_pending s e = rw (e, none_left) (append-nil (seen.sent s.env))

  -- On a valid encoder whose sink keeps the bytes, `flush` hands every byte emitted so far to the sink,
  -- reports how many were pending, and leaves a valid encoder behind the room that is reserved in
  -- its buffer, in the same sequences.
  pub flush-HandedOver :
      (s : OStream S) → IsValid F seen s → F.sinks ≡ true → HandedOver s (flush F H s)
  unfolding flush
  flush-HandedOver s v on = elim (Bool-cases (ltb 0 s.offset && F.sinks)) [
    | inl some_pending ↦
        let d = drain-Drained F H seen K s v on in
        rw some_pending
          (refl, d.valid, d.start, sym (none_pending (drain F H s) d.start) ∙ d.kept, d.framed)
    | inr idle ↦
        let nothing : s.offset ≡ seen.reserved s.env = ground (arith, v.behind) in
        rw idle (refl, v, nothing, sym (none_pending s nothing), refl)
  ]
