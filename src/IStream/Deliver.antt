-- ===== src/IStream/Deliver.antt =====
-- src/istream.rs: a client that feeds a message in chunks of its transport, and at the end an empty
-- one for the verdict.
use corelib_rs_no_std.Common.{joined, ℕ, ◌≡◌, refl, List, [], ◌∷◌, ◌++◌, Option, none, some, All}
use corelib_rs_no_std.Error.{Result}
use corelib_rs_no_std.IStream.State.{IStream, Event, Status}
use corelib_rs_no_std.IStream.Feed.{feed}
use corelib_rs_no_std.IStream.Valid.{IsValid}
use corelib_rs_no_std.IStream.Bytewise.{expand_all}
use corelib_rs_no_std.IStream.Bulk.{expand_all-append}
use corelib_rs_no_std.IStream.FeedRun.{IsByte}
use corelib_rs_no_std.IStream.Chunks.{Refines, feed_bytewise, feed_bytewise-append, feed-Refines}
use corelib_rs_no_std.IStream.Interface.{Verdict-IsValid, feed_bytewise-Verdict}

abbrev pub Outcome : Type 0
Outcome = Result Status × IStream × List Event

abbrev pub called_before : List Event → Option Outcome → Option Outcome
called_before calls none = none
called_before calls (some (r, s, more)) = some (r, s, calls ++ more)

abbrev pub feed_next : Option Outcome → (IStream → Option Outcome) → Option Outcome
feed_next none k = none
feed_next (some (r, s, calls)) k = called_before calls (k s)

-- The verdict and the decoder of the last `feed`, and the calls of all.
unfoldable pub feed_chunks : IStream → List (List ℕ) → Option Outcome
unfolding feed
feed_chunks s [] = feed s []
feed_chunks s (c ∷ cs) = feed_next (feed s c) (λ s'. feed_chunks s' cs)

pub feed_round :
    (s : IStream) (c : List ℕ) (cs : List (List ℕ))
    → feed_chunks s (c ∷ cs) ≡ feed_next (feed s c) (λ s'. feed_chunks s' cs)
unfolding feed_chunks
feed_round s c cs = refl

next-Refines :
    (o : Option Outcome) (calls : List Event) (t u : Outcome)
    → Refines o u
    → expand_all calls ≡ expand_all t.2
    → Refines (called_before calls o) (u.0, u.1, t.2 ++ u.2)
next-Refines o calls t u (more, p, e) q =
    (calls ++ more, rw p refl, rw (expand_all-append, expand_all-append, q, e) refl)

-- A message fed to a valid decoder in any chunks has the verdict and the decoder of the bytewise
-- reference on the whole message, and the same callbacks but for the division of payloads.
pub feed_chunks-Refines :
    (chunks : List (List ℕ)) (s : IStream)
    → IsValid s
    → All (All IsByte) chunks
    → Refines (feed_chunks s chunks) (feed_bytewise s (joined chunks))
feed_chunks-Refines [] s v h = unfold feed_chunks in feed-Refines s [] v tt
feed_chunks-Refines (c ∷ cs) s v h =
    let t = feed_bytewise s c in
    let (calls, p, e) = feed-Refines s c v h.0 in
    let v' : IsValid t.1 = Verdict-IsValid _ (feed_bytewise-Verdict s c v h.0) in
    let rest = feed_chunks-Refines cs t.1 v' h.1 in
    rw (feed_round, p, feed_bytewise-append s c (joined cs) v h.0)
      (next-Refines (feed_chunks t.1 cs) calls t (feed_bytewise t.1 (joined cs)) rest e)
