-- ===== src/OStream/Handover.antt =====
-- src/ostream.rs: the sink and the channel through which it may replace the buffer. A buffer that a
-- `&mut [u8]` lends out is its contents. The sink is the caller's code: a parameter, over an
-- environment `S` that holds what the sink and the channel remember.
use corelib_rs_no_std.Common.{
  ℕ, ◌-◌, ltb, if◌then◌else◌, ◌&&◌, Bool, true, false, List, length, Option, none, some,
}
use corelib_rs_no_std.Error.{Result, ok, err, Nothing, argument}

-- `trait Flush`: whether the sink drains the buffer, and what it does with the bytes.
pub record Flush (S : Type 0) : Type 0 where
  pub sinks : Bool
  pub flush : List ℕ → S → S

-- `trait Handoff`: where the encoder looks for a replacement, and drops the buffer that it replaced.
pub record Handoff (S : Type 0) : Type 0 where
  pub takes : Bool
  pub installed : S → Option (List ℕ × ℕ) × S
  pub retire : List ℕ → S → S

abbrev pub no_flush : {S : Type 0} → Flush S
no_flush = record { sinks = false; flush = λ bytes s. s }

abbrev pub no_handoff : {S : Type 0} → Handoff S
no_handoff = record { takes = false; installed = λ s. (none, s); retire = λ buffer s. s }

abbrev pub min_output_buffer : ℕ
min_output_buffer = 1

-- `len.checked_sub(offset)`, and the streaming minimum.
unfoldable pub check_install : ℕ → ℕ → Bool → Result Nothing
check_install len offset sinks =
    if ltb len offset
    then err argument
    else if sinks && ltb (len - offset) min_output_buffer
    then err argument
    else ok tt

-- The two cells of the channel.
pub record Handover : Type 0 where
  pub next : Option (List ℕ × ℕ)
  pub retired : Option (List ℕ)

abbrev pub new_handover : Handover
new_handover = record { next = none; retired = none }

abbrev store_next : Result Nothing → List ℕ → ℕ → Handover → Result Nothing × Handover
store_next (ok u) buffer offset h = (ok u, record h { next = some (buffer, offset) })
store_next (err e) buffer offset h = (err e, h)

unfoldable pub install : List ℕ → ℕ → Handover → Result Nothing × Handover
unfolding check_install
install buffer offset h = store_next (check_install (length buffer) offset true) buffer offset h

unfoldable pub taken : Handover → Option (List ℕ) × Handover
taken h = (h.retired, record h { retired = none })

-- `impl Handoff for &Handover`, in an environment that holds the channel beside the sink's own state.
abbrev pub by_handover : {T : Type 0} → Handoff (Handover × T)
by_handover = record {
  takes = true;
  installed = λ s. (s.0.next, (record (s.0) { next = none }, s.1));
  retire = λ buffer s. (record (s.0) { retired = some buffer }, s.1);
}
