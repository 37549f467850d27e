-- ===== src/Smoke/Probe.antt =====
-- .github/smoke/roundtrip.rs: the visitor. `none` is a panic.
use corelib_rs_no_std.Common.{
  ℕ, ◌+◌, ◌==◌, leb, if◌then◌else◌, List, [], ◌∷◌, length, set, replicate, Option, none, some,
}
use corelib_rs_no_std.IStream.State.{Event}

pub record Probe : Type 0 where
  pub a : ℕ
  pub b : ℕ
  pub s : List ℕ
  pub s_len : ℕ

-- `Probe::default()`
abbrev pub default : Probe
default = record { a = 0; b = 0; s = replicate 8 0; s_len = 0 }

-- The bytes that `copy_from_slice` writes from an index on.
abbrev pub copy : List ℕ → ℕ → List ℕ → List ℕ
copy s off [] = s
copy s off (b ∷ chunk) = copy (set s off b) (off + 1) chunk

abbrev pub visit_string : ℕ → ℕ → List ℕ → Probe → Option Probe
visit_string id off chunk p =
    if id == 3
    then (if leb (off + length chunk) (length p.s)
        then some (record p { s = copy p.s off chunk; s_len = off + length chunk })
        else none)
    else some p

-- `impl Visitor for Probe`; the other callbacks do nothing.
abbrev pub visit : Event → Probe → Option Probe
visit (Event.unsigned id v) p = some (if id == 1 then record p { a = v } else p)
visit (Event.signed id v) p = some (if id == 2 then record p { b = v } else p)
visit (Event.string id total off chunk) p = visit_string id off chunk p
visit _ p = some p

abbrev pub and_visit : Option Probe → (Probe → Option Probe) → Option Probe
and_visit none k = none
and_visit (some p) k = k p

abbrev pub visits : List Event → Probe → Option Probe
visits [] p = some p
visits (e ∷ es) p = and_visit (visit e p) (visits es)
