-- ===== src/OStream/Tests.antt =====
-- Runs of the encoder on small inputs: a two-byte buffer behind a sink that collects, and a fixed
-- buffer without a sink.
use corelib_rs_no_std.Common.{
  ℕ, ◌+◌, ◌≤◌, ◌≡◌, ◌↔◌, refl, arith, true, List, [], ◌∷◌, ◌++◌, length, All,
}
use corelib_rs_no_std.Error.{ok, Nothing}
use corelib_rs_no_std.Varint.Groups.{groups, varint}
use corelib_rs_no_std.OStream.Handover.{Flush, no_flush, no_handoff}
use corelib_rs_no_std.OStream.Stream.{OStream, build, with_flush, push_byte, write_varint}
use corelib_rs_no_std.OStream.Fields.{write_id_type}
use corelib_rs_no_std.OStream.Wrote.{View, all_sent, Keeps, IsValid, emitted, Wrote}
use corelib_rs_no_std.OStream.Push.{push_byte-Wrote, write_varint-Wrote}
use corelib_rs_no_std.OStream.Commit.{write_id_type-Wrote}
use corelib_rs_no_std.OStream.Field.{Does}
use corelib_rs_no_std.OStream.Spec.{Op, spec, spec_all, InRange, header, headers}
use corelib_rs_no_std.OStream.Perform.{perform, perform_all}
use corelib_rs_no_std.OStream.Refine.{perform_refines, perform_all_fits, perform_all_streams}
use corelib_rs_no_std.OStream.Stream.{flush}
use corelib_rs_no_std.OStream.Flushing.{HandedOver, flush-HandedOver}
use corelib_rs_no_std.OStream.Construct.{Starts, with_flush-Starts, fresh-IsValid}

abbrev collect : Flush (List ℕ)
collect = record { sinks = true; flush = λ bytes s. s ++ bytes }

abbrev held_bytes : View (List ℕ)
held_bytes = all_sent (λ s. s)

collect-Keeps : Keeps collect no_handoff held_bytes
collect-Keeps = record { hands = λ q unit old s good room. (refl, tt, refl) }

abbrev nothing_seen : View Nothing
nothing_seen = all_sent (λ s. [])

fixed-Keeps : Keeps no_flush no_handoff nothing_seen
fixed-Keeps = record { hands = λ q unit old s good room. absurd (ground arith) }

abbrev tiny : OStream (List ℕ)
tiny = build (0 ∷ 0 ∷ []) 0 []

tiny-IsValid : IsValid collect held_bytes tiny
tiny-IsValid =
    fresh-IsValid collect held_bytes (0 ∷ 0 ∷ []) 0 [] (omega arith) (omega arith)
      (λ q. omega arith) (omega arith) tt

abbrev fixed : OStream Nothing
fixed = build (0 ∷ 0 ∷ 0 ∷ 0 ∷ []) 0 tt

fixed-IsValid : IsValid no_flush nothing_seen fixed
fixed-IsValid =
    fresh-IsValid no_flush nothing_seen (0 ∷ 0 ∷ 0 ∷ 0 ∷ []) 0 tt (omega arith) (omega arith)
      (λ q. omega arith) (omega arith) tt

-- An empty sequence, which vanishes, then one around a field.
abbrev calls : List Op
calls =
    Op.sequence_begin 5
    ∷ Op.sequence_end
    ∷ Op.sequence_begin 1
    ∷ Op.unsigned 2 300
    ∷ Op.sequence_end
    ∷ []

abbrev message : List ℕ
message = 14 ∷ 16 ∷ 172 ∷ 2 ∷ 7 ∷ []

calls_accepted : spec_all calls (0, []) ≡ ok (message, (0, []))
unfolding spec_all spec varint groups
calls_accepted = refl

calls-InRange : All InRange calls
calls-InRange = (tt, (tt, (tt, (omega arith, (tt, tt)))))

perform_all_streams_example :
    ((perform_all collect no_handoff calls tiny).0 ≡ ok tt)
    × (emitted collect held_bytes (perform_all collect no_handoff calls tiny).1
        ≡ emitted collect held_bytes tiny ++ message)
    × IsValid collect held_bytes (perform_all collect no_handoff calls tiny).1
perform_all_streams_example =
    perform_all_streams collect no_handoff held_bytes collect-Keeps calls tiny message (0, [])
      tiny-IsValid calls-InRange refl calls_accepted

-- Five bytes do not fit in four.
perform_all_fits_example :
    ((perform_all no_flush no_handoff calls fixed).0 ≡ ok tt) ↔ (0 + length message ≤ 4)
perform_all_fits_example =
    perform_all_fits no_flush no_handoff nothing_seen fixed-Keeps calls fixed message (0, [])
      fixed-IsValid calls-InRange refl calls_accepted

perform_refines_example :
    Does collect no_handoff held_bytes collect-Keeps
      (spec (Op.str 3 (104 ∷ 105 ∷ [])) (0, []))
      tiny
      (perform collect no_handoff (Op.str 3 (104 ∷ 105 ∷ [])) tiny)
perform_refines_example =
    perform_refines collect no_handoff held_bytes collect-Keeps (Op.str 3 (104 ∷ 105 ∷ [])) tiny
      tiny-IsValid ((omega arith, (omega arith, tt)), omega arith)

with_flush-Starts_example :
    Starts collect held_bytes (0 ∷ []) 1 [] (with_flush collect (0 ∷ []) 1 [])
with_flush-Starts_example =
    with_flush-Starts collect held_bytes (0 ∷ []) 1 [] (omega arith) (omega arith) tt

push_byte-Wrote_example :
    Wrote collect held_bytes tiny (0, []) (65 ∷ []) (push_byte collect no_handoff 65 tiny)
push_byte-Wrote_example =
    push_byte-Wrote collect no_handoff held_bytes collect-Keeps tiny 65 tiny-IsValid

write_varint-Wrote_example :
    Wrote collect held_bytes tiny (0, []) (varint 300) (write_varint collect no_handoff 300 tiny)
write_varint-Wrote_example =
    write_varint-Wrote collect no_handoff held_bytes collect-Keeps 300 tiny tiny-IsValid
      (omega arith)

write_id_type-Wrote_example :
    Wrote collect held_bytes tiny
      (0, [])
      (headers [] ++ header 7 2)
      (write_id_type collect no_handoff 7 2 tiny)
write_id_type-Wrote_example =
    write_id_type-Wrote collect no_handoff held_bytes collect-Keeps 7 2 tiny tiny-IsValid
      (omega arith) (omega arith)

abbrev half_full : OStream (List ℕ)
half_full = record tiny { buffer = 65 ∷ 0 ∷ []; offset = 1 }

half_full-IsValid : IsValid collect held_bytes half_full
half_full-IsValid =
    fresh-IsValid collect held_bytes (65 ∷ 0 ∷ []) 1 [] (omega arith) (omega arith)
      (λ q. omega arith) (omega arith) tt

flush-HandedOver_example :
    HandedOver collect no_handoff held_bytes collect-Keeps half_full
      (flush collect no_handoff half_full)
flush-HandedOver_example =
    flush-HandedOver collect no_handoff held_bytes collect-Keeps half_full half_full-IsValid refl
