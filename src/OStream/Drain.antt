-- ===== src/OStream/Drain.antt =====
-- src/ostream.rs: `drain` hands the unit over, and resumes in the buffer that the sink left.
use corelib_rs_no_std.Common.{
  ℕ, zero, suc, ◌≤◌, ◌<◌, ◌≡◌, refl, ap, sym, ◌∙◌, arith, Bool, true, false, List, [], ◌∷◌, length,
  take, drop, min, Option, none, some, append-nil, if◌then◌else◌,
}
use corelib_rs_no_std.OStream.Handover.{Flush, Handoff}
use corelib_rs_no_std.OStream.Stream.{OStream, take_over, drain}
use corelib_rs_no_std.OStream.Wrote.{
  View, Keeps, Roomy, IsValid, emitted, frames, retired_if, handed_over,
}

pub none_left : (n : ℕ) (xs : List ℕ) → drop n (take n xs) ≡ []
none_left zero xs = refl
none_left (suc n) [] = refl
none_left (suc n) (x ∷ xs) = none_left n xs

pub length-front : (n : ℕ) (xs : List ℕ) → n ≤ length xs → length (take n xs) ≡ n
length-front zero xs h = refl
length-front (suc n) [] h = absurd (omega arith)
length-front (suc n) (x ∷ xs) h = ap suc (length-front n xs (omega arith))

module _ {S : Type 0} (F : Flush S) (H : Handoff S) (seen : View S) (K : Keeps F H seen) where
  -- What the sink leaves behind: everything is handed over, and there is room again.
  pub record Drained (s t : OStream S) : Type 0 where
    pub valid : IsValid F seen t
    pub kept : emitted F seen t ≡ emitted F seen s
    pub framed : frames F seen t ≡ frames F seen s
    pub start : t.offset ≡ seen.reserved t.env
    pub room : t.offset < length t.buffer

  -- The encoder in the buffer that a handing over leaves it.
  abbrev resume : OStream S → Option (List ℕ × ℕ) × S → OStream S
  resume s (none, env) = record s { offset = 0; env = env }
  resume s (some (next, offset), env) = record s { buffer = next; offset = offset; env = env }

  taken_over :
      (s : OStream S) (env : S) (p : Option (List ℕ × ℕ) × S)
      → take_over H (record s { offset = 0; env = env }) p ≡ resume s (retired_if H s.buffer p)
  taken_over s env (none, env') = refl
  taken_over s env (some (next, offset), env') = refl

  by_takes :
      (b : Bool) (s : OStream S) (env : S)
      → (if b
          then take_over H (record s { offset = 0; env = env }) (H.installed env)
          else record s { offset = 0; env = env })
        ≡ resume s (if b then retired_if H s.buffer (H.installed env) else (none, env))
  by_takes true s env = taken_over s env (H.installed env)
  by_takes false s env = refl

  drain_lem :
      (s : OStream S)
      → IsValid F seen s
      → drain F H s ≡ resume s (handed_over H s.buffer (F.flush (take s.offset s.buffer) s.env))
  unfolding drain
  drain_lem s v =
      let all : min s.offset (length s.buffer) ≡ s.offset = omega (arith, v.within) in
      rw all (by_takes H.takes s (F.flush (take s.offset s.buffer) s.env))

  -- Behind a handing over, as the client accounts for it.
  resume-Drained :
      (s : OStream S) (p : Option (List ℕ × ℕ) × S)
      → IsValid F seen s
      → F.sinks ≡ true
      → seen.sent p.1 ≡ emitted F seen s
      → seen.Good p.1
      → Roomy p.0 (seen.reserved p.1)
      → Drained s (resume s p)
  resume-Drained s (none, env) v on told good r = record {
    valid = record {
      within = omega arith;
      small = v.small;
      streaming = v.streaming;
      slots = v.slots;
      window = v.window;
      nested = v.nested;
      bounded = v.bounded;
      ids = v.ids;
      behind = omega arith;
      good = good;
    };
    kept = rw r (append-nil (seen.sent env) ∙ told);
    framed = refl;
    start = sym r;
    room = v.streaming on;
  }
  resume-Drained s (some (next, offset), env) v on told good (e, inside, small) = record {
    valid = record {
      within = omega arith;
      small = small;
      streaming = λ q. omega arith;
      slots = v.slots;
      window = v.window;
      nested = v.nested;
      bounded = v.bounded;
      ids = v.ids;
      behind = omega arith;
      good = good;
    };
    kept = rw (← e, none_left) (append-nil (seen.sent env) ∙ told);
    framed = refl;
    start = e;
    room = inside;
  }

  pub drain-Drained : (s : OStream S) → IsValid F seen s → F.sinks ≡ true → Drained s (drain F H s)
  drain-Drained s v on =
      let unit = take s.offset s.buffer in
      let full : length unit ≡ s.offset = length-front s.offset s.buffer v.within in
      let (told, good, roomy) =
        K.hands on unit s.buffer s.env v.good (omega (arith, full, v.behind)) in
      rw (drain_lem s v) (resume-Drained s _ v on told good roomy)
