-- ===== src/Payload/Decoded.antt =====
-- src/payload.rs behind src/istream.rs: a visitor that puts a decoded payload together.
use corelib_rs_no_std.Common.{
  joined, ℕ, ◌+◌, ◌-◌, ◌≤◌, ◌<◌, ◌≡◌, refl, ap, sym, ◌∙◌, arith, Bool, true, false, List, [], ◌∷◌,
  ◌++◌, length, All, Option, some, append-nil, append_assoc, length-append,
}
use corelib_rs_no_std.Types.{FixlenType}
use corelib_rs_no_std.Error.{Result, ok}
use corelib_rs_no_std.IStream.State.{Event, IStream, State}
use corelib_rs_no_std.IStream.Step.{payload_chunk}
use corelib_rs_no_std.IStream.Feed.{verdict}
use corelib_rs_no_std.IStream.Valid.{IsValid}
use corelib_rs_no_std.IStream.FeedRun.{IsByte}
use corelib_rs_no_std.IStream.Deliver.{Outcome, feed_chunks}
use corelib_rs_no_std.IStream.Progress.{finished, feed_chunks-finishes}
use corelib_rs_no_std.Payload.Contiguous.{chunk, pieces_from, NoneEmpty, contiguous, expand-chunk}
use corelib_rs_no_std.Payload.{PayloadAcc, feed, deliver}
use corelib_rs_no_std.Payload.Assembly.{waits, deliver-joined}
use corelib_rs_no_std.IStream.Bytewise.{per_byte, expand, expand_all}

-- A visitor that hands every chunk of a payload to an accumulator: its answers.
abbrev pub answer_to :
    Result (Option (List ℕ)) × PayloadAcc
    → (PayloadAcc → List (Result (Option (List ℕ))) × PayloadAcc)
    → List (Result (Option (List ℕ))) × PayloadAcc
answer_to (answer, a) rest = let (answers, last) = rest a in (answer ∷ answers, last)

unfoldable pub answers_to : List Event → PayloadAcc → List (Result (Option (List ℕ))) × PayloadAcc
unfolding feed
answers_to [] a = ([], a)
answers_to (Event.string id total offset c ∷ es) a =
    answer_to (feed a total offset c) (answers_to es)
answers_to (Event.blob id total offset c ∷ es) a = answer_to (feed a total offset c) (answers_to es)
answers_to (e ∷ es) a = answers_to es a

answers_to-deliver :
    (k : Bool) (id total : ℕ) (cs : List (List ℕ)) (o : ℕ) (a : PayloadAcc)
    → answers_to (pieces_from (chunk k id total) o cs) a ≡ deliver total o cs a
unfolding answers_to pieces_from deliver
answers_to-deliver k id total [] o a = refl
answers_to-deliver true id total (c ∷ cs) o a =
    let (answer, a') = feed a total o c in
    ap (λ r. (answer ∷ r.0, r.1)) (answers_to-deliver true id total cs (o + length c) a')
answers_to-deliver false id total (c ∷ cs) o a =
    let (answer, a') = feed a total o c in
    ap (λ r. (answer ∷ r.0, r.1)) (answers_to-deliver false id total cs (o + length c) a')

-- The last chunk, and those before it.
split_last :
    (c : List ℕ) (cs : List (List ℕ))
    → NoneEmpty (c ∷ cs)
    → (front : List (List ℕ)) × (last : List ℕ) × (c ∷ cs ≡ front ++ (last ∷ []))
      × (0 < length last)
split_last c [] h = ([], c, refl, h.0)
split_last c (d ∷ ds) h =
    let (front, last, e, p) = split_last d ds h.1 in (c ∷ front, last, ap (λ l. c ∷ l) e, p)

joined_last :
    (front : List (List ℕ)) (last : List ℕ) → joined (front ++ (last ∷ [])) ≡ joined front ++ last
joined_last [] last = append-nil last
joined_last (c ∷ cs) last =
    ap (λ l. c ++ l) (joined_last cs last) ∙ sym (append_assoc c (joined cs) last)

-- The answers to a payload: nothing yet, then the payload.
abbrev pub Assembles : List ℕ → List (Result (Option (List ℕ))) → Type 0
Assembles bytes answers = (cs : List (List ℕ)) × (answers ≡ waits cs ++ (ok (some bytes) ∷ []))

-- Chunks that are not empty and make up the payload.
assembled :
    (total : ℕ) (c : List ℕ) (cs : List (List ℕ)) (a : PayloadAcc)
    → NoneEmpty (c ∷ cs)
    → length (joined (c ∷ cs)) ≡ total
    → total ≤ length a.buf
    → Assembles (joined (c ∷ cs)) (deliver total 0 (c ∷ cs) a).0
assembled total c cs a h n room =
    let (front, last, e, p) = split_last c cs h in
    let whole : joined (c ∷ cs) ≡ joined front ++ last = ap joined e ∙ joined_last front last in
    let count : length (joined (c ∷ cs)) ≡ length (joined front) + length last =
      ap length whole ∙ length-append (joined front) last in
    let told = deliver-joined total front last a (omega arith) (omega arith) room in
    (
      front,
      ap (λ l. (deliver total 0 l a).0) e
          ∙ told
          ∙ ap (λ l. waits front ++ (ok (some l) ∷ [])) (sym whole),
    )

kind_of : FixlenType → Bool
kind_of FixlenType.blob = false
kind_of _ = true

payload_chunk_lem :
    (s : IStream) (o : ℕ) (c : List ℕ)
    → payload_chunk s o c ≡ chunk (kind_of s.core.fixlen_type) s.id s.fixlen_total o c
unfolding payload_chunk kind_of
payload_chunk_lem s o c = ground arith

-- What an accumulator answers to the calls of a feed that went well.
abbrev pub Delivers : List ℕ → PayloadAcc → IStream → Option Outcome → Type 0
Delivers bytes a s o =
    (calls : List Event) × (o ≡ some (ok (verdict s), s, calls))
    × Assembles bytes (answers_to calls a).0

assembled_all :
    (total : ℕ) (cs : List (List ℕ)) (bytes : List ℕ) (a : PayloadAcc)
    → NoneEmpty cs
    → joined cs ≡ bytes
    → 0 < length bytes
    → length bytes ≡ total
    → total ≤ length a.buf
    → Assembles bytes (deliver total 0 cs a).0
assembled_all total [] bytes a w q p n room = absurd (omega (arith, ap length q))
assembled_all total (c ∷ cs) bytes a w q p n room =
    let (front, told) = assembled total c cs a w (ap length q ∙ n) room in
    (front, told ∙ ap (λ l. waits front ++ (ok (some l) ∷ [])) q)

calls_of :
    (s : IStream) (bytes : List ℕ) (calls : List Event) (a : PayloadAcc)
    → 0 < length bytes
    → length bytes ≡ s.fixlen_total
    → s.fixlen_total ≤ length a.buf
    → expand_all calls ≡ expand_all (payload_chunk s 0 bytes ∷ [])
    → Assembles bytes (answers_to calls a).0
calls_of s [] calls a p n room e = absurd (omega arith)
calls_of s (b ∷ bs) calls a p n room e =
    let k = kind_of s.core.fixlen_type in
    let carried : expand_all (payload_chunk s 0 (b ∷ bs) ∷ [])
        ≡ per_byte (chunk k s.id s.fixlen_total) 0 (b ∷ bs) =
      ap (λ c. expand_all (c ∷ [])) (payload_chunk_lem s 0 (b ∷ bs))
      ∙ append-nil (expand (chunk k s.id s.fixlen_total 0 (b ∷ bs)))
      ∙ expand-chunk k s.id s.fixlen_total 0 b bs in
    let (cs, q, u, w) = contiguous k s.id s.fixlen_total calls (b ∷ bs) 0 (e ∙ carried) in
    let (front, told) = assembled_all s.fixlen_total cs (b ∷ bs) a w u p n room in
    let same = answers_to-deliver k s.id s.fixlen_total cs 0 a in
    (front, ap (λ l. (answers_to l a).0) q ∙ ap (λ r. r.0) same ∙ told)

-- A payload that a valid decoder is at the start of, and that fits the accumulator, fed in any chunks
-- to a visitor that hands its chunks on: the decoder is between two words then, without an error, and
-- the accumulator answers nothing yet, and at the end the whole payload, whatever it held before.
pub feed_chunks-answers_to :
    (s : IStream) (chunks : List (List ℕ)) (a : PayloadAcc)
    → IsValid s
    → s.core.state ≡ State.fixlen_raw
    → s.fixlen_remaining ≡ s.fixlen_total
    → All (All IsByte) chunks
    → length (joined chunks) ≡ s.fixlen_total
    → s.fixlen_total ≤ length a.buf
    → Delivers (joined chunks) a (finished s) (feed_chunks s chunks)
feed_chunks-answers_to s chunks a v raw start h n room =
    let owed : 0 < length (joined chunks) = ground arith in
    let first : s.fixlen_total - s.fixlen_remaining ≡ 0 = omega arith in
    let (calls, p, e) = feed_chunks-finishes s chunks v raw h (n ∙ sym start) in
    let whole = e ∙ ap (λ (o : ℕ). expand_all (payload_chunk s o (joined chunks) ∷ [])) first in
    (calls, p, calls_of s (joined chunks) calls a owed n room whole)
