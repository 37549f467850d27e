-- ===== src/RoundTrip/Lengths.antt =====
-- src/istream.rs on src/ostream.rs: the decoder over the head of a field with a payload.
use corelib_rs_no_std.Common.{
  ℕ, ◌+◌, ◌*◌, ◌≤◌, ◌<◌, ◌≡◌, refl, sym, ◌∙◌, arith, List, [], ◌∷◌, ◌++◌,
}
use corelib_rs_no_std.Error.{ok}
use corelib_rs_no_std.Types.{FixlenType, ArrayKind, raw_of, from_raw, id_max, array_max, t_fixlen}
use corelib_rs_no_std.Varint.Groups.{varint}
use corelib_rs_no_std.IStream.State.{State, IStream, Event}
use corelib_rs_no_std.IStream.Step.{
  dispatch, on_wire_type, on_fixlen_len, on_fixlen_type, on_subtype, payload_chunk, width_of,
}
use corelib_rs_no_std.OStream.Spec.{header}
use corelib_rs_no_std.RoundTrip.Leads.{
  dec, Leads, Leads-append, word-Leads, header-Leads, header_parts,
}
use corelib_rs_no_std.RoundTrip.Payloads.{chunk_event}

from_raw-raw_of : (subtype : FixlenType) → from_raw (raw_of subtype) ≡ ok subtype
unfolding from_raw
from_raw-raw_of FixlenType.fp32 = refl
from_raw-raw_of FixlenType.fp64 = refl
from_raw-raw_of FixlenType.str = refl
from_raw-raw_of FixlenType.blob = refl

pub raw_of-le : (subtype : FixlenType) → raw_of subtype ≤ 3
raw_of-le FixlenType.fp32 = omega arith
raw_of-le FixlenType.fp64 = omega arith
raw_of-le FixlenType.str = omega arith
raw_of-le FixlenType.blob = omega arith

pub width_of-le : (subtype : FixlenType) → width_of subtype ≤ 8
width_of-le FixlenType.fp32 = omega arith
width_of-le FixlenType.fp64 = omega arith
width_of-le FixlenType.str = omega arith
width_of-le FixlenType.blob = omega arith

-- The word that holds a length and a subtype.
pub on_fixlen_len_lem :
    (s : IStream) (n : ℕ) (subtype : FixlenType)
    → on_fixlen_len s (n * 8 + raw_of subtype) ≡ on_fixlen_type subtype n s
unfolding on_fixlen_len on_subtype
on_fixlen_len_lem s n subtype =
    let (low, high) = header_parts n (raw_of subtype) (omega (arith, raw_of-le subtype)) in
    rw (low, high, from_raw-raw_of subtype) refl

-- The head of a field with a payload, up to the payload.
pub length-Leads :
    (kind : ArrayKind) (old subtype : FixlenType) (depth was total left id n : ℕ) (s' : IStream)
    (events : List Event)
    → id ≤ id_max
    → n ≤ array_max
    → on_fixlen_type subtype n (dec State.fixlen_len kind old depth 0 id 0 total left)
      ≡ (ok tt, s', events)
    → Leads
        (dec State.idle kind old depth 0 was 0 total left)
        (header id t_fixlen ++ varint (n * 8 + raw_of subtype))
        s'
        events
unfolding on_wire_type dispatch
length-Leads kind old subtype depth was total left id n s' events known h e =
    let s = dec State.fixlen_len kind old depth 0 id 0 total left in
    Leads-append
      (header-Leads kind old depth was 0 total left id t_fixlen s [] known (omega arith) refl)
      (word-Leads s s' (n * 8 + raw_of subtype) events tt (omega (arith, raw_of-le subtype))
        (on_fixlen_len_lem s n subtype ∙ e))

-- What the length word of a string or a blob does.
pub empty_word :
    (kind : ArrayKind) (old subtype : FixlenType) (depth id total left : ℕ)
    → width_of subtype ≡ 0
    → on_fixlen_type subtype 0 (dec State.fixlen_len kind old depth 0 id 0 total left) ≡ (
      ok tt,
      dec State.idle kind subtype depth 0 id 0 0 0,
      Event.fixlen_begin id subtype 0 ∷ chunk_event subtype id [] ∷ [],
    )
unfolding on_fixlen_type payload_chunk
empty_word kind old FixlenType.str depth id total left e = refl
empty_word kind old FixlenType.blob depth id total left e = refl
empty_word kind old FixlenType.fp32 depth id total left e = absurd (omega arith)
empty_word kind old FixlenType.fp64 depth id total left e = absurd (omega arith)

pub text_word :
    (kind : ArrayKind) (old subtype : FixlenType) (depth id total left n : ℕ)
    → width_of subtype ≡ 0
    → 0 < n
    → n ≤ array_max
    → on_fixlen_type subtype n (dec State.fixlen_len kind old depth 0 id 0 total left) ≡ (
      ok tt,
      dec State.fixlen_raw kind subtype depth 0 id 0 n n,
      Event.fixlen_begin id subtype n ∷ [],
    )
unfolding on_fixlen_type
text_word kind old FixlenType.str depth id total left n e h k = ground arith
text_word kind old FixlenType.blob depth id total left n e h k = ground arith
text_word kind old FixlenType.fp32 depth id total left n e h k = absurd (omega arith)
text_word kind old FixlenType.fp64 depth id total left n e h k = absurd (omega arith)

-- What the length word of a float does.
pub float_word :
    (kind : ArrayKind) (old subtype : FixlenType) (depth id total left n : ℕ)
    → width_of subtype ≡ n
    → 0 < n
    → on_fixlen_type subtype n (dec State.fixlen_len kind old depth 0 id 0 total left) ≡ (
      ok tt,
      dec State.fixlen_val kind subtype depth 0 id 0 n n,
      Event.fixlen_begin id subtype n ∷ [],
    )
unfolding on_fixlen_type
float_word kind old FixlenType.fp32 depth id total left n e h = rw (sym e) refl
float_word kind old FixlenType.fp64 depth id total left n e h = rw (sym e) refl
float_word kind old FixlenType.str depth id total left n e h = absurd (omega arith)
float_word kind old FixlenType.blob depth id total left n e h = absurd (omega arith)
