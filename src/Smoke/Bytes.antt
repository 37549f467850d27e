-- ===== src/Smoke/Bytes.antt =====
-- .github/smoke/roundtrip.rs: the message one byte at a time.
use corelib_rs_no_std.Common.{
  ℕ, ◌≡◌, refl, sym, ap, ◌∙◌, arith, List, [], ◌∷◌, ◌++◌, All, Option, none, some, true, false,
}
use corelib_rs_no_std.Error.{Result, ok, err, invalid_msg}
use corelib_rs_no_std.IStream.State.{IStream, Event, Status, complete, incomplete}
use corelib_rs_no_std.IStream.Feed.{feed}
use corelib_rs_no_std.IStream.Valid.{IsValid}
use corelib_rs_no_std.IStream.Bytewise.{expand_all}
use corelib_rs_no_std.IStream.Bulk.{expand_all-append}
use corelib_rs_no_std.IStream.FeedRun.{IsByte}
use corelib_rs_no_std.IStream.Chunks.{feed_bytewise, feed_bytewise-append, feed_dead, feed-Refines}
use corelib_rs_no_std.IStream.Interface.{Verdict, Verdict-IsValid, feed_bytewise-Verdict}
use corelib_rs_no_std.IStream.Deliver.{Outcome}
use corelib_rs_no_std.Smoke.Probe.{Probe, visits, and_visit}
use corelib_rs_no_std.Smoke.Host.{suspended, feed_each}
use corelib_rs_no_std.Smoke.Slices.{and_visit_cong, visits-append, visits_alike}

last_byte :
    (s : IStream) (p : Probe) (b : ℕ)
    → feed_each s p (b ∷ []) ≡ suspended true p (feed s (b ∷ [])) (λ s' p'. some p')
unfolding feed_each
last_byte s p b = refl

next_byte :
    (s : IStream) (p : Probe) (b c : ℕ) (bs : List ℕ)
    → feed_each s p (b ∷ c ∷ bs)
      ≡ suspended false p (feed s (b ∷ [])) (λ s' p'. feed_each s' p' (c ∷ bs))
unfolding feed_each
next_byte s p b c bs = refl

-- A byte that is not refused.
goes_on :
    (p : Probe) (st : Status) (s : IStream) (calls : List Event)
    (k : IStream → Probe → Option Probe)
    → suspended false p (some (ok st, s, calls)) k ≡ and_visit (visits calls p) (k s)
goes_on p complete s calls k = refl
goes_on p incomplete s calls k = refl

and_visit-some : (o : Option Probe) → and_visit o (λ p. some p) ≡ o
and_visit-some none = refl
and_visit-some (some p) = refl

-- No byte of a message that ends well is refused.
not_refused :
    (t : Outcome) (bs : List ℕ)
    → Verdict t
    → (feed_bytewise t.1 bs).0 ≡ ok complete
    → (st : Status) × (t.0 ≡ ok st)
not_refused (ok st, s, calls) bs v e = (st, refl)
not_refused (err x, s, calls) bs (v, dead, m) e =
    let bad : (◌≡◌ {A = Result Status} (err invalid_msg) (ok complete)) =
      rw (feed_dead s bs dead) at e in
    absurd (ground arith)

-- One byte, and a rest that is read as it should be.
one_byte :
    (p : Probe) (t : Outcome) (more : List Event) (calls : List Event)
    (k : IStream → Probe → Option Probe) (o : Option Outcome)
    → (st : Status) × (t.0 ≡ ok st)
    → o ≡ some (t.0, t.1, calls)
    → expand_all calls ≡ expand_all t.2
    → ((p' : Probe) → k t.1 p' ≡ visits more p')
    → suspended false p o k ≡ visits (t.2 ++ more) p
one_byte p t more calls k o (st, f) e q h =
    rw (e, f, goes_on p st t.1 calls k, and_visit_cong (visits calls p) (k t.1) (visits more) h)
      (sym (visits-append calls more p)
        ∙ visits_alike (calls ++ more) (t.2 ++ more) p
            (rw (expand_all-append calls more, expand_all-append t.2 more, q) refl))

-- A message that the bytewise decoder takes, fed byte by byte: no byte is refused, the last completes
-- the message, and the probe is the one behind all calls.
pub feed_each_lem :
    (b : ℕ) (bs : List ℕ) (s s' : IStream) (p : Probe) (calls : List Event)
    → IsValid s
    → All IsByte (b ∷ bs)
    → feed_bytewise s (b ∷ bs) ≡ (ok complete, s', calls)
    → feed_each s p (b ∷ bs) ≡ visits calls p
feed_each_lem b [] s s' p calls v h e =
    let (told, o, q) = rw e at (feed-Refines s (b ∷ []) v h) in
    rw (last_byte s p b, o) (and_visit-some (visits told p) ∙ visits_alike told calls p q)
feed_each_lem b (c ∷ bs) s s' p calls v h e =
    let t = feed_bytewise s (b ∷ []) in
    let u = feed_bytewise t.1 (c ∷ bs) in
    let seen : Verdict t = feed_bytewise-Verdict s (b ∷ []) v (h.0, tt) in
    let whole : (◌≡◌ {A = Outcome} (u.0, u.1, t.2 ++ u.2) (ok complete, s', calls)) =
      sym (feed_bytewise-append s (b ∷ []) (c ∷ bs) v (h.0, tt)) ∙ e in
    let ended : u.0 ≡ ok complete = ap (λ (x : Outcome). x.0) whole in
    let (told, o, q) = feed-Refines s (b ∷ []) v (h.0, tt) in
    let rest : (p' : Probe) → feed_each t.1 p' (c ∷ bs) ≡ visits u.2 p' = λ p'.
      feed_each_lem c bs t.1 u.1 p' u.2 (Verdict-IsValid t seen) h.1
        (ap (λ (r : Result Status). (r, u.1, u.2)) ended) in
    next_byte s p b c bs
    ∙ one_byte p t u.2 told (λ s' p'. feed_each s' p' (c ∷ bs)) (feed s (b ∷ []))
        (not_refused t (c ∷ bs) seen ended) o q rest
    ∙ ap (λ (x : Outcome). visits x.2 p) whole
