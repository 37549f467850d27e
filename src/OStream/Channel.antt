-- ===== src/OStream/Channel.antt =====
-- src/ostream.rs: a sink that takes its buffer and installs another through the channel.
use corelib_rs_no_std.Common.{
  ℕ, ◌<◌, ◌≡◌, refl, ap, true, List, length, ◌⊎◌, inl, inr, none, some, take, min,
}
use corelib_rs_no_std.Error.{ok, err, argument}
use corelib_rs_no_std.OStream.Handover.{
  Flush, Handover, check_install, install, taken, new_handover, by_handover,
}
use corelib_rs_no_std.OStream.Stream.{OStream, drain, take_over}
use corelib_rs_no_std.OStream.Construct.{check_cases}

module _ {T : Type 0} (F : Flush (Handover × T)) where
  -- The encoder goes on in the installed buffer, and the channel is empty but for the outgoing one.
  pub record Adopts (next : List ℕ) (offset : ℕ) (s t : OStream (Handover × T)) : Type 0 where
    pub active : t.buffer ≡ next
    pub start : t.offset ≡ offset
    pub inside : offset < length next
    pub emptied : t.env.0.next ≡ none
    pub returned : taken t.env.0 ≡ (some s.buffer, new_handover)
    pub nested : t.depth ≡ s.depth
    pub held : (t.npending ≡ s.npending) × (t.pending ≡ s.pending)

  -- The encoder goes on at the start of the buffer that it has, and the channel is as it was.
  pub record CarriesOn (s t : OStream (Handover × T)) : Type 0 where
    pub active : t.buffer ≡ s.buffer
    pub start : t.offset ≡ 0
    pub idle : t.env.0 ≡ s.env.0
    pub nested : t.depth ≡ s.depth
    pub held : (t.npending ≡ s.npending) × (t.pending ≡ s.pending)

  abbrev outgoing_env : OStream (Handover × T) → Handover × T
  outgoing_env s = F.flush (take (min s.offset (length s.buffer)) s.buffer) s.env

  drain_lem :
      (s : OStream (Handover × T)) (h : Handover) (x : T)
      → outgoing_env s ≡ (h, x)
      → drain F by_handover s
        ≡ take_over by_handover
            (record s { offset = 0; env = (h, x) })
            (h.next, (record h { next = none }, x))
  unfolding drain
  drain_lem s h x e =
      ap (λ y. take_over by_handover (record s { offset = 0; env = y }) (by_handover.installed y)) e

  install_accepted :
      (next : List ℕ) (offset : ℕ) (h : Handover)
      → check_install (length next) offset true ≡ ok tt
      → install next offset h ≡ (ok tt, record h { next = some (next, offset) })
  unfolding install
  install_accepted next offset h p = rw p refl

  install_rejected :
      (next : List ℕ) (offset : ℕ) (h : Handover)
      → check_install (length next) offset true ≡ err argument
      → install next offset h ≡ (err argument, h)
  unfolding install
  install_rejected next offset h p = rw p refl

  -- A sink that calls `install` in its callback, on an empty channel: an accepted buffer becomes the
  -- active one at its offset, behind which there is room, and the outgoing one can be taken back; if
  -- it is rejected, the encoder carries on at the start of its buffer. The sequences stay.
  pub drain-install :
      (next : List ℕ) (offset : ℕ) (s : OStream (Handover × T)) (x : T)
      → s.env.0.next ≡ none
      → F.flush (take (min s.offset (length s.buffer)) s.buffer) s.env
        ≡ ((install next offset s.env.0).1, x)
      → (((install next offset s.env.0).0 ≡ ok tt) × Adopts next offset s (drain F by_handover s))
        ⊎ (((install next offset s.env.0).0 ≡ err argument) × CarriesOn s (drain F by_handover s))
  drain-install next offset s x idle called = elim (check_cases (length next) offset true) [
    | inl (p, within, room) ↦
        let got = install_accepted next offset s.env.0 p in
        let drained =
          drain_lem s (record (s.env.0) { next = some (next, offset) }) x (rw got at called) in
        rw (got, drained)
          (inl (
            refl,
            record {
              active = refl;
              start = refl;
              inside = room refl;
              emptied = refl;
              returned = unfold taken in refl;
              nested = refl;
              held = (refl, refl);
            },
          ))
    | inr (p, q) ↦
        let got = install_rejected next offset s.env.0 p in
        let drained = drain_lem s s.env.0 x (rw got at called) in
        rw (got, drained, idle)
          (inr (
            refl,
            record { active = refl; start = refl; idle = refl; nested = refl; held = (refl, refl) },
          ))
  ]
