-- ===== src/OStream/BufferTests.antt =====
-- Runs of the encoder that exchange its buffer: by the client, and by a sink that takes it.
use corelib_rs_no_std.Common.{ℕ, ◌≡◌, ◌⊎◌, refl, arith, true, List, [], ◌∷◌, ◌++◌}
use corelib_rs_no_std.Error.{ok, err, argument}
use corelib_rs_no_std.OStream.Handover.{
  Flush, Handover, no_handoff, new_handover, install, by_handover,
}
use corelib_rs_no_std.OStream.Stream.{OStream, build, drain, buffer_set}
use corelib_rs_no_std.OStream.Wrote.{View, all_sent, Keeps, IsValid}
use corelib_rs_no_std.OStream.Construct.{fresh-IsValid}
use corelib_rs_no_std.OStream.Replace.{Swaps, buffer_set-Swaps}
use corelib_rs_no_std.OStream.Channel.{Adopts, CarriesOn, drain-install}

abbrev archive : Flush (List ℕ)
archive = record { sinks = true; flush = λ bytes s. s ++ bytes }

abbrev archived : View (List ℕ)
archived = all_sent (λ s. s)

archive-Keeps : Keeps archive no_handoff archived
archive-Keeps = record { hands = λ q unit old s good room. (refl, tt, refl) }

abbrev one_written : OStream (List ℕ)
one_written = build (65 ∷ 0 ∷ []) 1 []

one_written-IsValid : IsValid archive archived one_written
one_written-IsValid =
    fresh-IsValid archive archived (65 ∷ 0 ∷ []) 1 [] (omega arith) (omega arith) (λ q. omega arith)
      (omega arith) tt

abbrev larger : List ℕ
larger = 0 ∷ 0 ∷ 0 ∷ 0 ∷ []

buffer_set-Swaps_example :
    Swaps archive no_handoff archived archive-Keeps larger 2 one_written
      (buffer_set archive no_handoff larger 2 one_written)
buffer_set-Swaps_example =
    buffer_set-Swaps archive no_handoff archived archive-Keeps larger 2 one_written (omega arith)
      (omega arith) one_written-IsValid

swapped : buffer_set archive no_handoff larger 2 one_written ≡ (ok tt, build larger 2 (65 ∷ []))
unfolding buffer_set
swapped = refl

-- A sink that takes every buffer, and installs one with two bytes reserved in front.
abbrev taking : Flush (Handover × List ℕ)
taking = record { sinks = true; flush = λ bytes s. ((install larger 2 s.0).1, s.1 ++ bytes) }

abbrev shared : OStream (Handover × List ℕ)
shared = build (65 ∷ 66 ∷ []) 2 (new_handover, [])

drain-install_example :
    (((install larger 2 shared.env.0).0 ≡ ok tt)
      × Adopts taking larger 2 shared (drain taking by_handover shared))
    ⊎ (((install larger 2 shared.env.0).0 ≡ err argument)
        × CarriesOn taking shared (drain taking by_handover shared))
drain-install_example = drain-install taking larger 2 shared (65 ∷ 66 ∷ []) refl refl
