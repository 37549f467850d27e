-- ===== src/RoundTrip/Leads.antt =====
-- src/istream.rs on src/ostream.rs: runs of the bytewise decoder that meet no error, one after the
-- other, and the words of a field's head.
use corelib_rs_no_std.Common.{
  ℕ, ◌+◌, ◌*◌, ◌^◌, ◌≤◌, ◌<◌, ◌≡◌, refl, ap, sym, ◌∙◌, arith, false, ltb, List, [], ◌++◌,
  append-nil, append_assoc, All, bit_and,
}
use corelib_rs_no_std.Common.Bits.{and_seven}
use corelib_rs_no_std.Common.Word.{shr}
use corelib_rs_no_std.Error.{ok}
use corelib_rs_no_std.Types.{FixlenType, ArrayKind, id_max}
use corelib_rs_no_std.Varint.Groups.{varint, varint_shape}
use corelib_rs_no_std.IStream.State.{State, IStream, Event}
use corelib_rs_no_std.IStream.Step.{dispatch, on_header, on_wire_type}
use corelib_rs_no_std.IStream.Word.{at_word}
use corelib_rs_no_std.IStream.Bytewise.{run, expand_all}
use corelib_rs_no_std.IStream.Bulk.{expand_all-append}
use corelib_rs_no_std.IStream.FeedRun.{IsByte}
use corelib_rs_no_std.IStream.Chunks.{run-append}
use corelib_rs_no_std.IStream.Interface.{All-append}
use corelib_rs_no_std.OStream.Spec.{header}
use corelib_rs_no_std.RoundTrip.Words.{ReadsWord, varint_read}

-- The decoder between two varints, or in a float with accumulator `acc`.
abbrev pub dec : State → ArrayKind → FixlenType → ℕ → ℕ → ℕ → ℕ → ℕ → ℕ → IStream
dec st kind subtype depth acc id rem total left = record {
  core = record {
    acc = acc;
    shift = 0;
    state = st;
    array_kind = kind;
    fixlen_type = subtype;
    depth = depth;
  };
  id = id;
  array_remaining = rem;
  fixlen_total = total;
  fixlen_remaining = left;
}

-- `bytes` take the decoder from `s` to `s'` with the calls `events`, payloads byte by byte.
pub record Leads (s : IStream) (bytes : List ℕ) (s' : IStream) (events : List Event) : Type 0 where
  pub calls : List Event
  pub runs : run s bytes ≡ (ok tt, s', calls)
  pub tells : expand_all calls ≡ expand_all events
  pub octets : All IsByte bytes

pub Leads-nil : (s : IStream) → Leads s [] s []
Leads-nil s = record { calls = []; runs = unfold run in refl; tells = refl; octets = tt }

pub Leads-append :
    {s t u : IStream} {xs ys : List ℕ} {es fs : List Event}
    → Leads s xs t es
    → Leads t ys u fs
    → Leads s (xs ++ ys) u (es ++ fs)
Leads-append {s} {xs = xs} {ys = ys} p q = record {
  calls = p.calls ++ q.calls;
  runs = rw (run-append xs ys s, p.runs, q.runs) refl;
  tells = rw (expand_all-append, expand_all-append, p.tells, q.tells) refl;
  octets = All-append xs ys p.octets q.octets;
}

pub Leads-regroup :
    {s t : IStream} {es : List Event} (xs ys zs : List ℕ)
    → Leads s ((xs ++ ys) ++ zs) t es
    → Leads s (xs ++ (ys ++ zs)) t es
Leads-regroup xs ys zs l = rw append_assoc at l

alone :
    (s s' : IStream) (v : ℕ) (events : List Event)
    → ReadsWord s.core.state
    → v < 2 ^ 64
    → dispatch s.core.state (at_word s) v ≡ (ok tt, s', events)
    → run (at_word s) (varint v ++ []) ≡ (ok tt, s', events ++ [])
alone s s' v events w h e = rw (varint_read v s [] w h, e) (unfold run in refl)

-- One word, between two words.
pub word-Leads :
    (s s' : IStream) (v : ℕ) (events : List Event)
    → ReadsWord s.core.state
    → v < 2 ^ 64
    → dispatch s.core.state (at_word s) v ≡ (ok tt, s', events)
    → Leads (at_word s) (varint v) s' events
word-Leads s s' v events w h e = record {
  calls = events ++ [];
  runs = ap (run (at_word s)) (sym (append-nil (varint v))) ∙ alone s s' v events w h e;
  tells = ap expand_all (append-nil events);
  octets = (varint_shape v h).0;
}

pub header_parts :
    (id wire_type : ℕ)
    → wire_type < 8
    → (bit_and (id * 8 + wire_type) 7 ≡ wire_type) × (shr (id * 8 + wire_type) 3 ≡ id)
header_parts id wt h = omega (arith, and_seven (id * 8 + wt))

on_header_lem :
    (s : IStream) (id wire_type : ℕ)
    → id ≤ id_max
    → wire_type < 8
    → on_header s (id * 8 + wire_type) ≡ on_wire_type wire_type (record s { id = id })
unfolding on_header
on_header_lem s id wt h k =
    let (low, high) = header_parts id wt k in
    let known : ltb id_max id ≡ false = ground arith in rw (low, high, known) refl

-- A field's header.
pub header-Leads :
    (kind : ArrayKind) (subtype : FixlenType) (depth old rem total left id wire_type : ℕ)
    (s' : IStream) (events : List Event)
    → id ≤ id_max
    → wire_type < 8
    → on_wire_type wire_type (dec State.idle kind subtype depth 0 id rem total left)
      ≡ (ok tt, s', events)
    → Leads (dec State.idle kind subtype depth 0 old rem total left) (header id wire_type) s' events
header-Leads kind subtype depth old rem total left id wt s' events h k e =
    word-Leads (dec State.idle kind subtype depth 0 old rem total left) s' (id * 8 + wt) events tt
      (omega arith) (unfold dispatch in (on_header_lem _ id wt h k ∙ e))
