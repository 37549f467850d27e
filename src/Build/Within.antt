-- ===== src/Build/Within.antt =====
-- src/istream.rs: `feed` in the states and with the callbacks of a build.
use corelib_rs_no_std.Common.{
  ℕ, zero, suc, ◌+◌, ◌*◌, ◌≡◌, ◌≤◌, refl, arith, true, length, drop, List, [], ◌∷◌, ◌++◌, Option,
  some, Bool-cases, inl, inr, All,
}
use corelib_rs_no_std.Error.{ok, err, invalid_msg}
use corelib_rs_no_std.IStream.State.{IStream, Event, Turn, is_fixlen_raw, is_invalid, new}
use corelib_rs_no_std.IStream.Feed.{drain_raw, after, carry_on, latch, finish, verdict}
use corelib_rs_no_std.IStream.Ends.{rounds, drained}
use corelib_rs_no_std.IStream.Deliver.{Outcome}
use corelib_rs_no_std.Build.{Wire}
use corelib_rs_no_std.Build.Narrower.{loop_in_round, feed_in_lem}
use corelib_rs_no_std.Build.Decoder.{step_in, feed_loop_in, feed_in}
use corelib_rs_no_std.Build.Compiled.{has, InBuild, Stays, step-Stays, drained-Stays}

every-append :
    (c : Wire) (xs ys : List Event)
    → All (λ e. has c e ≡ true) xs
    → All (λ e. has c e ≡ true) ys
    → All (λ e. has c e ≡ true) (xs ++ ys)
every-append c [] ys h k = k
every-append c (x ∷ xs) ys (p, h) k = (p, every-append c xs ys h k)

-- The loop ends, in the build.
abbrev Runs : Wire → Option Turn → Type 0
Runs c o = (t : Turn) × (o ≡ some t) × Stays c t

after-Runs :
    (c : Wire) (events : List Event) (o : Option Turn)
    → All (λ e. has c e ≡ true) events
    → Runs c o
    → Runs c (after events o)
after-Runs c events o h (t, p, k) = (
  (t.0, t.1, events ++ t.2),
  rw p refl,
  record { within = k.within; told = every-append c events t.2 h k.told },
)

carry_on-Runs :
    (c : Wire) (t : Turn) (f : IStream → Option Turn)
    → Stays c t
    → ((s : IStream) → InBuild c s → Runs c (f s))
    → Runs c (carry_on t f)
carry_on-Runs c (ok u, s, events) f h k = after-Runs c events (f s) h.told (k s h.within)
carry_on-Runs c (err e, s, events) f h k = (
  (err invalid_msg, latch s, events),
  refl,
  record {
    within = record {
      state = tt;
      fixlen = h.within.fixlen;
      subtype = h.within.subtype;
      array = h.within.array;
      kind = h.within.kind;
      sequence = h.within.sequence;
    };
    told = h.told;
  },
)

loop-Runs :
    (c : Wire) (fuel : ℕ) (bytes : List ℕ) (s : IStream)
    → rounds s bytes ≤ fuel
    → InBuild c s
    → Runs c (feed_loop_in c fuel s bytes)
loop-Runs c zero [] s h k =
    unfold feed_loop_in in ((ok tt, s, []), refl, record { within = k; told = tt })
loop-Runs c (suc fuel) [] s h k =
    unfold feed_loop_in in ((ok tt, s, []), refl, record { within = k; told = tt })
loop-Runs c zero (b ∷ bs) s h k = absurd (omega arith)
loop-Runs c (suc fuel) (b ∷ bs) s h k = elim (Bool-cases (is_fixlen_raw s.core.state)) [
  | inl raw ↦
      let d = drain_raw s (b ∷ bs) in
      let e = drained-Stays c s (b ∷ bs) k (ground arith) in
      rw (loop_in_round, raw)
        (after-Runs c (d.1 ∷ []) _ e.told
          (loop-Runs c fuel (drop d.0 (b ∷ bs)) d.2 (drained s b bs fuel raw h) e.within))
  | inr word ↦
      rw (loop_in_round, word)
        (carry_on-Runs c (step_in c s b) _ (step-Stays c s b k)
          (λ s'. loop-Runs c fuel bs s' (ground arith)))
]

-- What an input leaves: an outcome, whose decoder and whose calls are of the build.
abbrev pub Within : Wire → Option Outcome → Type 0
Within c o = (t : Outcome) × (o ≡ some t) × InBuild c t.1 × All (λ e. has c e ≡ true) t.2

finish-Within : (c : Wire) (o : Option Turn) → Runs c o → Within c (finish o)
finish-Within c o ((ok u, s, events), p, k) =
    ((ok (verdict s), s, events), rw p refl, k.within, k.told)
finish-Within c o ((err e, s, events), p, k) = ((err e, s, events), rw p refl, k.within, k.told)

-- In every build with 64-bit values: from a decoder of the build on, on every input, `feed` ends, calls
-- the visitor for nothing that the build has no callback for, and leaves a decoder in no state that
-- the build does not have, with every field that it does not have at its initial value, and no tag
-- in the others that it does not have.
pub feed_in-Within :
    (c : Wire) (s : IStream) (bytes : List ℕ) → InBuild c s → Within c (feed_in c s bytes)
feed_in-Within c s bytes h = elim (Bool-cases (is_invalid s.core.state)) [
  | inl p ↦ rw (feed_in_lem, p) ((err invalid_msg, s, []), refl, h, tt)
  | inr p ↦
      rw (feed_in_lem, p)
        (finish-Within c _ (loop-Runs c (2 * length bytes + 1) bytes s (ground arith) h))
]

-- A new decoder is of every build.
pub new-InBuild : (c : Wire) → InBuild c new
new-InBuild c = record {
  state = tt;
  fixlen = λ e. (refl, refl, refl);
  subtype = λ e. e;
  array = λ e. (refl, refl);
  kind = λ e. e;
  sequence = λ e. refl;
}
