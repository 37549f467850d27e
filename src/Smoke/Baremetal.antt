-- ===== src/Smoke/Baremetal.antt =====
-- .github/smoke/baremetal.rs: two scalars through the codec, for any two values. The program of the
-- source takes 42 and -7, a signed value as its 64-bit pattern.
use corelib_rs_no_std.Common.{
  ℕ, ◌==◌, if◌then◌else◌, not, List, [], ◌∷◌, replicate, take, Option, some,
}
use corelib_rs_no_std.Error.{Result, ok, err, Nothing}
use corelib_rs_no_std.IStream.State
use corelib_rs_no_std.IStream.State.{Event, Status, complete, incomplete}
use corelib_rs_no_std.IStream.Feed.{feed}
use corelib_rs_no_std.IStream.Deliver.{Outcome}
use corelib_rs_no_std.OStream.Handover.{no_flush, no_handoff}
use corelib_rs_no_std.OStream.Stream.{OStream, new, bytes_used}
use corelib_rs_no_std.OStream.Fields.{write_unsigned, write_signed}

pub record Probe : Type 0 where
  pub a : ℕ
  pub b : ℕ

-- `Probe::default()`
abbrev pub default : Probe
default = record { a = 0; b = 0 }

-- `impl Visitor for Probe`; the other callbacks do nothing.
abbrev pub visit : Event → Probe → Probe
visit (Event.unsigned id v) p = if id == 1 then record p { a = v } else p
visit (Event.signed id v) p = if id == 2 then record p { b = v } else p
visit _ p = p

abbrev pub visits : List Event → Probe → Probe
visits [] p = p
visits (e ∷ es) p = visits es (visit e p)

-- From the outcome of `feed` on.
abbrev pub judge : ℕ → ℕ → Option Outcome → ℕ
judge v w (some (ok Status.complete, s, calls)) =
    let probe = visits calls default in
    if not (probe.a == v) then 5 else if not (probe.b == w) then 6 else 0
judge v w _ = 4

abbrev pub after_signed : ℕ → ℕ → Result Nothing × OStream Nothing → ℕ
after_signed v w (ok u, os) =
    let used = bytes_used os in
    if used == 0 then 3 else judge v w (feed State.new (take used os.buffer))
after_signed v w (err e, os) = 2

abbrev pub after_unsigned : ℕ → ℕ → Result Nothing × OStream Nothing → ℕ
after_unsigned v w (ok u, os) = after_signed v w (write_signed no_flush no_handoff 2 w os)
after_unsigned v w (err e, os) = 1

unfoldable pub sofab_smoke_roundtrip : ℕ → ℕ → ℕ
unfolding write_unsigned write_signed feed
sofab_smoke_roundtrip v w =
    after_unsigned v w (write_unsigned no_flush no_handoff 1 v (new (replicate 32 0)))
