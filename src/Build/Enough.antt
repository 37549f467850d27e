-- ===== src/Build/Enough.antt =====
-- src/istream.rs: a build on the messages that use only what it has.
use corelib_rs_no_std.Common.{
  ℕ, zero, suc, ◌+◌, ◌*◌, ◌≡◌, refl, ap, ◌∙◌, arith, true, false, ◌&&◌, length, drop, List, [], ◌∷◌,
  ◌++◌, Option, some, none, Bool-cases, inl, inr, ◌⊎◌, All,
}
use corelib_rs_no_std.Error.{ok, err, invalid_msg}
use corelib_rs_no_std.IStream.State.{IStream, Event, Turn, complete, is_fixlen_raw, is_invalid}
use corelib_rs_no_std.IStream.Step.{step}
use corelib_rs_no_std.IStream.Feed.{feed, feed_loop, drain_raw, after, carry_on, latch, finish}
use corelib_rs_no_std.IStream.FeedRun.{loop_round}
use corelib_rs_no_std.IStream.Chunks.{feed_lem}
use corelib_rs_no_std.IStream.Deliver.{Outcome}
use corelib_rs_no_std.Build.{Wire}
use corelib_rs_no_std.Build.Decoder.{feed_loop_in, feed_in}
use corelib_rs_no_std.Build.Narrower.{loop_in_round, feed_in_lem}
use corelib_rs_no_std.Build.Compiled.{has}
use corelib_rs_no_std.Build.Foreign.{foreign, has_every, lost, step-Differs, step-lost}

has_every-append :
    (c : Wire) (xs ys : List Event) → has_every c (xs ++ ys) ≡ (has_every c xs && has_every c ys)
has_every-append c [] ys = refl
has_every-append c (x ∷ xs) ys = let e = has_every-append c xs ys in ground arith

-- No end of the loop, when there is one, is that of a message of the build.
abbrev Loses : Wire → Option Turn → Type 0
Loses c o = (t : Turn) → o ≡ some t → lost c t ≡ true

after-Loses :
    (c : Wire) (events : List Event) (o : Option Turn) → Loses c o → Loses c (after events o)
after-Loses c events none h t e = absurd (ground arith)
after-Loses c events (some (r, s, more)) h t e =
    let k = h (r, s, more) refl in let a = has_every-append c events more in ground arith

after-Loses-front :
    (c : Wire) (events : List Event) (o : Option Turn)
    → has_every c events ≡ false
    → Loses c (after events o)
after-Loses-front c events none h t e = absurd (ground arith)
after-Loses-front c events (some (r, s, more)) h t e =
    let a = has_every-append c events more in ground arith

some-Loses : (c : Wire) (t : Turn) → lost c t ≡ true → Loses c (some t)
some-Loses c t h t' e = ground arith

carry_on-Loses :
    (c : Wire) (t : Turn) (f : IStream → Option Turn)
    → lost c t ≡ true
    → ((s : IStream) → foreign c s ≡ true → Loses c (f s))
    → Loses c (carry_on t f)
carry_on-Loses c (ok u, s, events) f h k = elim (Bool-cases (has_every c events)) [
  | inl p ↦ after-Loses c events (f s) (k s (ground arith))
  | inr p ↦ after-Loses-front c events (f s) p
]
carry_on-Loses c (err e, s, events) f h k = some-Loses c (err invalid_msg, latch s, events) refl

loop-Loses :
    (c : Wire) (fuel : ℕ) (bytes : List ℕ) (s : IStream)
    → foreign c s ≡ true
    → Loses c (feed_loop fuel s bytes)
loop-Loses c zero [] s h = unfold feed_loop in some-Loses c (ok tt, s, []) h
loop-Loses c (suc fuel) [] s h = unfold feed_loop in some-Loses c (ok tt, s, []) h
loop-Loses c zero (b ∷ bs) s h = unfold feed_loop in (λ t e. absurd (ground arith))
loop-Loses c (suc fuel) (b ∷ bs) s h =
    let word : is_fixlen_raw s.core.state ≡ false = ground arith in
    rw (loop_round, word)
      (carry_on-Loses c (step s b) _ (step-lost c s b h) (λ s'. loop-Loses c fuel bs s'))

-- The same end, or none of a message of the build.
abbrev Keeps : Wire → Option Turn → Option Turn → Type 0
Keeps c o o' = (o ≡ o') ⊎ Loses c o'

after-Keeps :
    (c : Wire) (events : List Event) (o o' : Option Turn)
    → Keeps c o o'
    → Keeps c (after events o) (after events o')
after-Keeps c events o o' (inl e) = inl (ap (after events) e)
after-Keeps c events o o' (inr h) = inr (after-Loses c events o' h)

carry_on-Keeps :
    (c : Wire) (t : Turn) (f g : IStream → Option Turn)
    → ((s : IStream) → Keeps c (f s) (g s))
    → Keeps c (carry_on t f) (carry_on t g)
carry_on-Keeps c (ok u, s, events) f g h = after-Keeps c events (f s) (g s) (h s)
carry_on-Keeps c (err e, s, events) f g h = inl refl

loop-Keeps :
    (c : Wire) (fuel : ℕ) (bytes : List ℕ) (s : IStream)
    → Keeps c (feed_loop_in c fuel s bytes) (feed_loop fuel s bytes)
loop-Keeps c zero [] s = unfold feed_loop feed_loop_in in inl refl
loop-Keeps c (suc fuel) [] s = unfold feed_loop feed_loop_in in inl refl
loop-Keeps c zero (b ∷ bs) s = unfold feed_loop feed_loop_in in inl refl
loop-Keeps c (suc fuel) (b ∷ bs) s = elim (Bool-cases (is_fixlen_raw s.core.state)) [
  | inl raw ↦
      let d = drain_raw s (b ∷ bs) in
      rw (loop_in_round, loop_round, raw)
        (after-Keeps c (d.1 ∷ []) _ _ (loop-Keeps c fuel (drop d.0 (b ∷ bs)) d.2))
  | inr word ↦
      rw (loop_in_round, loop_round, word)
        (elim (step-Differs c s b) [
          | inl e ↦ rw e (carry_on-Keeps c (step s b) _ _ (loop-Keeps c fuel bs))
          | inr h ↦ inr (carry_on-Loses c (step s b) _ h (λ s'. loop-Loses c fuel bs s'))
        ])
]

has_every_lem :
    (c : Wire) (events : List Event) → All (λ e. has c e ≡ true) events → has_every c events ≡ true
has_every_lem c [] h = refl
has_every_lem c (e ∷ es) (p, h) = rw (p, has_every_lem c es h) refl

complete-found :
    (c : Wire) (t : Turn) (s' : IStream) (calls : List Event)
    → finish (some t) ≡ some (ok complete, s', calls)
    → has_every c calls ≡ true
    → lost c t ≡ false
complete-found c (ok u, s, events) s' calls e h = ground arith
complete-found c (err x, s, events) s' calls e h = absurd (ground arith)

finish-Keeps :
    (c : Wire) (o o' : Option Turn) (s' : IStream) (calls : List Event)
    → Keeps c o o'
    → finish o' ≡ some (ok complete, s', calls)
    → has_every c calls ≡ true
    → finish o ≡ finish o'
finish-Keeps c o o' s' calls (inl p) e h = ap finish p
finish-Keeps c o none s' calls (inr l) e h = absurd (ground arith)
finish-Keeps c o (some t) s' calls (inr l) e h =
    let p = complete-found c t s' calls e h in let q = l t refl in absurd (ground arith)

-- An input that the default build finds complete, with calls of the visitor that a build has all
-- callbacks for, goes in that build as in the default one: the outcome, the decoder and the calls.
pub feed_in_enough :
    (c : Wire) (s s' : IStream) (bytes : List ℕ) (calls : List Event)
    → feed s bytes ≡ some (ok complete, s', calls)
    → All (λ e. has c e ≡ true) calls
    → feed_in c s bytes ≡ some (ok complete, s', calls)
feed_in_enough c s s' bytes calls e h = elim (Bool-cases (is_invalid s.core.state)) [
  | inl p ↦
      let f : ◌≡◌ {A = Option Outcome} (some (err invalid_msg, s, []))
          (some (ok complete, s', calls)) =
        rw (feed_lem, p) at e in
      absurd (ground arith)
  | inr p ↦
      let loop = feed_loop (2 * length bytes + 1) s bytes in
      let f : finish loop ≡ some (ok complete, s', calls) = rw (feed_lem, p) at e in
      rw (feed_in_lem, p)
        (finish-Keeps c _ loop s' calls (loop-Keeps c (2 * length bytes + 1) bytes s) f
            (has_every_lem c calls h)
          ∙ f)
]
