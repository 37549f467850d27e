-- ===== src/OStream/Construct.antt =====
-- src/ostream.rs: the checked constructors start a message in a valid encoder, or reject the window.
use corelib_rs_no_std.Common.{
  ℕ, ◌-◌, ◌^◌, ◌≤◌, ◌<◌, ◌≡◌, refl, arith, Bool, true, false, List, [], ◌++◌, length, take, drop,
  replicate, All, Bool-cases, inl, inr, ◌⊎◌, ltb,
}
use corelib_rs_no_std.Error.{Result, ok, err, argument}
use corelib_rs_no_std.Types.{id_max}
use corelib_rs_no_std.OStream.Handover.{Flush, check_install, min_output_buffer}
use corelib_rs_no_std.OStream.Stream.{OStream, build, with_flush, lazy_seq_depth}
use corelib_rs_no_std.OStream.Wrote.{View, IsValid, emitted, frames}

check_room :
    (len offset : ℕ) (sinks : Bool)
    → ltb len offset ≡ false
    → ((check_install len offset sinks ≡ ok tt) × (offset ≤ len) × (sinks ≡ true → offset < len))
      ⊎ ((check_install len offset sinks ≡ err argument)
          × ((len < offset) ⊎ ((sinks ≡ true) × (len ≤ offset))))
unfolding check_install
check_room len offset false inside =
    rw inside (inl (refl, ground arith, λ q. absurd (ground arith)))
check_room len offset true inside = elim (Bool-cases (ltb (len - offset) min_output_buffer)) [
  | inl full ↦ rw (inside, full) (inr (refl, inr (refl, ground arith)))
  | inr room ↦ rw (inside, room) (inl (refl, ground arith, λ q. ground arith))
]

pub check_cases :
    (len offset : ℕ) (sinks : Bool)
    → ((check_install len offset sinks ≡ ok tt) × (offset ≤ len) × (sinks ≡ true → offset < len))
      ⊎ ((check_install len offset sinks ≡ err argument)
          × ((len < offset) ⊎ ((sinks ≡ true) × (len ≤ offset))))
unfolding check_install
check_cases len offset sinks = elim (Bool-cases (ltb len offset)) [
  | inl over ↦ rw over (inr (refl, inl (ground arith)))
  | inr inside ↦ check_room len offset sinks inside
]

module _ {S : Type 0} (F : Flush S) (seen : View S) where
  -- A window that is accepted lies in the buffer, leaves a sink a byte to drain, and gives a fresh
  -- encoder at its offset; one that is rejected lies beyond the buffer, or leaves a sink no byte.
  abbrev pub Starts : List ℕ → ℕ → S → Result (OStream S) → Type 0
  Starts buffer offset env (ok s) =
      (offset ≤ length buffer)
      × (F.sinks ≡ true → offset < length buffer)
      × (s.buffer ≡ buffer)
      × (s.offset ≡ offset)
      × IsValid F seen s
      × (frames F seen s ≡ (0, []))
      × (emitted F seen s ≡ seen.sent env ++ drop (seen.reserved env) (take offset buffer))
  Starts buffer offset env (err e) =
      (e ≡ argument) × ((length buffer < offset) ⊎ ((F.sinks ≡ true) × (length buffer ≤ offset)))

  no_ids : All {0, 0} (λ id. id ≤ id_max) (replicate lazy_seq_depth 0)
  no_ids =
      ((
        omega arith,
        (
          omega arith,
          (
            omega arith,
            (omega arith, (omega arith, (omega arith, (omega arith, (omega arith, tt))))),
          ),
        ),
      ))

  pub fresh-IsValid :
      (buffer : List ℕ) (offset : ℕ) (env : S)
      → length buffer < 2 ^ 63
      → offset ≤ length buffer
      → (F.sinks ≡ true → offset < length buffer)
      → seen.reserved env ≤ offset
      → seen.Good env
      → IsValid F seen (build buffer offset env)
  fresh-IsValid buffer offset env h k l b g = record {
    within = k;
    small = h;
    streaming = λ q. omega (arith, l q);
    slots = refl;
    window = omega arith;
    nested = omega arith;
    bounded = omega arith;
    ids = no_ids;
    behind = b;
    good = g;
  }

  -- On a buffer of less than 2 ^ 63 bytes, of which at most `offset` are reserved, `with_flush` gives a
  -- fresh valid encoder at the offset, outside every sequence, for a window that lies in the buffer
  -- and leaves a sink at least a byte to drain, and rejects with `argument` a window that lies beyond
  -- the buffer or leaves a sink no byte to drain.
  pub with_flush-Starts :
      (buffer : List ℕ) (offset : ℕ) (env : S)
      → length buffer < 2 ^ 63
      → seen.reserved env ≤ offset
      → seen.Good env
      → Starts buffer offset env (with_flush F buffer offset env)
  unfolding with_flush
  with_flush-Starts buffer offset env h b g = elim (check_cases (length buffer) offset F.sinks) [
    | inl (p, k, l) ↦ rw p (k, l, refl, refl, fresh-IsValid buffer offset env h k l b g, refl, refl)
    | inr (p, q) ↦ rw p (refl, q)
  ]
