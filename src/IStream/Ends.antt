-- ===== src/IStream/Ends.antt =====
-- src/istream.rs: the loop of `feed`, and its fuel.
use corelib_rs_no_std.Common.{
  ℕ, zero, suc, ◌+◌, ◌*◌, ◌≤◌, ◌≡◌, refl, arith, if◌then◌else◌, min, length, drop, List, [], ◌∷◌,
  ◌++◌, true, Option, some, Bool-cases, inl, inr, length-drop,
}
use corelib_rs_no_std.Error.{ok, err, invalid_msg}
use corelib_rs_no_std.IStream.State.{IStream, Event, Turn, is_fixlen_raw}
use corelib_rs_no_std.IStream.Step.{step}
use corelib_rs_no_std.IStream.Feed.{feed_loop, drain_raw, after, carry_on, latch}
use corelib_rs_no_std.IStream.FeedRun.{loop_round}

-- How many rounds are left, at most: two for each byte, and one that leaves an empty payload.
abbrev pub rounds : IStream → List ℕ → ℕ
rounds s bytes = 2 * length bytes + (if is_fixlen_raw s.core.state then 1 else 0)

-- Two runs of the loop that end alike.
abbrev pub Agree : Option Turn → Option Turn → Type 0
Agree o o' = (t : Turn) × (o ≡ some t) × (o' ≡ some t)

after-Agree :
    (events : List Event) (o o' : Option Turn)
    → Agree o o'
    → Agree (after events o) (after events o')
after-Agree events o o' ((r, s, more), p, q) = ((r, s, events ++ more), rw p refl, rw q refl)

carry_on-Agree :
    (t : Turn) (f g : IStream → Option Turn)
    → ((s : IStream) → Agree (f s) (g s))
    → Agree (carry_on t f) (carry_on t g)
carry_on-Agree (ok u, s, events) f g h = after-Agree events (f s) (g s) (h s)
carry_on-Agree (err e, s, events) f g h = ((err invalid_msg, latch s, events), refl, refl)

-- A bulk round leaves fewer rounds.
pub drained :
    (s : IStream) (b : ℕ) (bs : List ℕ) (n : ℕ)
    → is_fixlen_raw s.core.state ≡ true
    → rounds s (b ∷ bs) ≤ suc n
    → (let d = drain_raw s (b ∷ bs) in rounds d.2 (drop d.0 (b ∷ bs)) ≤ n)
unfolding drain_raw
drained s b bs n e h =
    ground (arith, length-drop (min (length (b ∷ bs)) s.fixlen_remaining) (b ∷ bs))

pub loop_agrees :
    (f g : ℕ) (bytes : List ℕ) (s : IStream)
    → rounds s bytes ≤ f
    → rounds s bytes ≤ g
    → Agree (feed_loop f s bytes) (feed_loop g s bytes)
loop_agrees zero zero [] s h k = unfold feed_loop in ((ok tt, s, []), refl, refl)
loop_agrees zero (suc g) [] s h k = unfold feed_loop in ((ok tt, s, []), refl, refl)
loop_agrees (suc f) zero [] s h k = unfold feed_loop in ((ok tt, s, []), refl, refl)
loop_agrees (suc f) (suc g) [] s h k = unfold feed_loop in ((ok tt, s, []), refl, refl)
loop_agrees zero g (b ∷ bs) s h k = absurd (omega arith)
loop_agrees (suc f) zero (b ∷ bs) s h k = absurd (omega arith)
loop_agrees (suc f) (suc g) (b ∷ bs) s h k = elim (Bool-cases (is_fixlen_raw s.core.state)) [
  | inl raw ↦
      let d = drain_raw s (b ∷ bs) in
      rw (loop_round, loop_round, raw)
        (after-Agree (d.1 ∷ []) _ _ (
          loop_agrees f g (drop d.0 (b ∷ bs)) d.2 (drained s b bs f raw h)
            (drained s b bs g raw k)))
  | inr word ↦
      rw (loop_round, loop_round, word)
        (carry_on-Agree (step s b) _ _ (λ s'. loop_agrees f g bs s' (ground arith) (ground arith)))
]

-- On every decoder, valid or not, and every input, the loop of `feed` ends within two rounds a byte and
-- one more, and with what it ends in on all fuel beyond.
pub feed_loop_ends :
    (s : IStream) (bytes : List ℕ) (fuel : ℕ)
    → 2 * length bytes + 1 ≤ fuel
    → Agree (feed_loop (2 * length bytes + 1) s bytes) (feed_loop fuel s bytes)
feed_loop_ends s bytes fuel h =
    loop_agrees (2 * length bytes + 1) fuel bytes s (ground arith) (ground arith)
