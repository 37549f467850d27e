-- ===== src/Payload/Assembly.antt =====
-- src/payload.rs: a payload that arrives in order, in any chunks, is put together.
use corelib_rs_no_std.Common.{
  joined, ℕ, zero, suc, ◌+◌, ◌-◌, ◌≤◌, ◌<◌, ◌≡◌, refl, ap, arith, true, false, List, [], ◌∷◌,
  length, take, ◌++◌, min, leb, ltb, ◌==◌, if◌then◌else◌, Option, none, some, append_assoc,
  length-append,
}
use native.Mathlib.Decide.{dec_lt}
use corelib_rs_no_std.Error.{Result, ok}
use corelib_rs_no_std.Payload.{
  PayloadAcc, Answer, append_chunk, overwrite, copy_at, get_to, feed, deliver,
}

-- An accumulator that holds `n` bytes of an unfinished payload.
abbrev partial : List ℕ → ℕ → PayloadAcc
partial buf n = record { buf = buf; len = n; complete = false }

take-whole : (n : ℕ) (xs : List ℕ) → length xs ≤ n → take n xs ≡ xs
take-whole zero [] h = refl
take-whole (suc n) [] h = refl
take-whole zero (x ∷ xs) h = absurd (omega arith)
take-whole (suc n) (x ∷ xs) h = ap (λ t. x ∷ t) (take-whole n xs (omega arith))

take-front : (xs ys : List ℕ) → take (length xs) (xs ++ ys) ≡ xs
take-front [] ys = refl
take-front (x ∷ xs) ys = ap (λ t. x ∷ t) (take-front xs ys)

length-overwrite : (xs bs : List ℕ) → length (overwrite xs bs) ≡ length xs
length-overwrite [] bs = refl
length-overwrite (x ∷ xs) [] = refl
length-overwrite (x ∷ xs) (b ∷ bs) = ap suc (length-overwrite xs bs)

take-overwrite : (xs bs : List ℕ) → length bs ≤ length xs → take (length bs) (overwrite xs bs) ≡ bs
take-overwrite [] [] h = refl
take-overwrite [] (b ∷ bs) h = absurd (omega arith)
take-overwrite (x ∷ xs) [] h = refl
take-overwrite (x ∷ xs) (b ∷ bs) h = ap (λ t. b ∷ t) (take-overwrite xs bs (omega arith))

-- The stored bytes, after those that were stored before.
copied :
    (i m : ℕ) (buf bs : List ℕ)
    → m ≡ i + length bs
    → m ≤ length buf
    → take m (copy_at buf i bs) ≡ take i buf ++ bs
copied zero m buf bs e h =
    let count : m ≡ length bs = omega arith in rw count (take-overwrite buf bs (omega arith))
copied (suc i) m [] bs e h = absurd (omega arith)
copied (suc i) zero (x ∷ buf) bs e h = absurd (omega arith)
copied (suc i) (suc m) (x ∷ buf) bs e h =
    ap (λ t. x ∷ t) (copied i m buf bs (omega arith) (omega arith))

length-copy_at : (i : ℕ) (buf bs : List ℕ) → length (copy_at buf i bs) ≡ length buf
length-copy_at zero buf bs = length-overwrite buf bs
length-copy_at (suc i) [] bs = refl
length-copy_at (suc i) (x ∷ buf) bs = ap suc (length-copy_at i buf bs)

-- The next chunk of a payload that is not complete behind it, and the last one.
abbrev Next : ℕ → List ℕ → ℕ → List ℕ → Answer
Next total buf n c =
    if ltb (n + length c) total then (ok none, partial (copy_at buf n c) (n + length c)) else (
      ok (get_to (copy_at buf n c) total),
      record { buf = copy_at buf n c; len = n + length c; complete = true },
    )

append_chunk_lem :
    (total n : ℕ) (buf c : List ℕ)
    → n + length c ≤ total
    → total ≤ length buf
    → append_chunk (partial buf n) total c ≡ Next total buf n c
unfolding append_chunk
append_chunk_lem total n buf c h k =
    let fits : leb n (length buf) ≡ true = ground arith in
    let room : min (length buf - n) (length c) ≡ length c = omega arith in
    rw (take-whole (total - n) c (omega arith), fits, room) refl

-- In mid-payload, `feed` on a chunk that fits behind what is held goes on to store it.
stores_on :
    (total n : ℕ) (buf c : List ℕ)
    → 0 < n
    → n + length c ≤ total
    → total ≤ length buf
    → feed (partial buf n) total n c ≡ Next total buf n c
unfolding feed
stores_on total n buf c p h k =
    let later : (n == 0) ≡ false = ground arith in
    let bounded : ltb (length buf) total ≡ false = ground arith in
    let here : (n == n) ≡ true = ground arith in
    rw (later, bounded, here) (append_chunk_lem total n buf c h k)

-- A first chunk drops what the accumulator held.
feed_first :
    (total : ℕ) (a : PayloadAcc) (c : List ℕ)
    → length c ≤ total
    → total ≤ length a.buf
    → feed a total 0 c ≡ (
        if leb total (length c)
        then (ok (some (take total c)), record { buf = a.buf; len = 0; complete = true })
        else Next total a.buf 0 c)
unfolding feed
feed_first total a c h k =
    let bounded : ltb (length a.buf) total ≡ false = ground arith in
    rw (bounded, append_chunk_lem total 0 a.buf c (omega arith) k) refl

-- A chunk that comes too early to complete the payload.
feed_early :
    (total n : ℕ) (buf c : List ℕ)
    → n + length c < total
    → total ≤ length buf
    → feed (partial buf n) total n c ≡ (ok none, partial (copy_at buf n c) (n + length c))
feed_early total n buf c h k = elim (dec_lt 0 n) [
  | yes mid ↦
      let early : ltb (n + length c) total ≡ true = ground arith in
      rw (stores_on total n buf c mid (omega arith) k, early) refl
  | no start ↦
      let none_held : n ≡ 0 = omega arith in
      let early : ltb (0 + length c) total ≡ true = ground arith in
      let split : leb total (length c) ≡ false = ground arith in
      rw (none_held, feed_first total (partial buf 0) c (omega arith) k, split, early) refl
]

-- The chunk that completes the payload.
feed_last :
    (total n : ℕ) (buf c : List ℕ)
    → n + length c ≡ total
    → n < total
    → total ≤ length buf
    → (feed (partial buf n) total n c).0 ≡ ok (some (take n buf ++ c))
feed_last total n buf c e h k = elim (dec_lt 0 n) [
  | yes mid ↦
      let late : ltb (n + length c) total ≡ false = ground arith in
      let stored : leb total (length (copy_at buf n c)) ≡ true = rw length-copy_at (ground arith) in
      rw
        (
          stores_on total n buf c mid (omega arith) k,
          late,
          stored,
          copied n total buf c (omega arith) k,
        )
        refl
  | no start ↦
      let none_held : n ≡ 0 = omega arith in
      let whole : leb total (length c) ≡ true = ground arith in
      rw
        (
          none_held,
          feed_first total (partial buf 0) c (omega arith) k,
          whole,
          take-whole total c (omega arith),
        )
        refl
]

-- Nothing yet, to every chunk.
abbrev pub waits : List (List ℕ) → List (Result (Option (List ℕ)))
waits [] = []
waits (c ∷ cs) = ok none ∷ waits cs

deliver_from :
    (total n : ℕ) (buf : List ℕ) (cs : List (List ℕ)) (last : List ℕ)
    → n + length (joined cs) + length last ≡ total
    → n + length (joined cs) < total
    → total ≤ length buf
    → (deliver total n (cs ++ (last ∷ [])) (partial buf n)).0
      ≡ waits cs ++ (ok (some (take n buf ++ (joined cs ++ last))) ∷ [])
unfolding deliver
deliver_from total n buf [] last e h k =
    ap (λ r. r ∷ []) (feed_last total n buf last (omega arith) (omega arith) k)
deliver_from total n buf (c ∷ cs) last e h k =
    let apart : length (c ++ joined cs) ≡ length c + length (joined cs) = length-append c _ in
    let grown = copied n (n + length c) buf c refl (omega arith) in
    let rest =
      deliver_from total (n + length c) (copy_at buf n c) cs last (omega arith) (omega arith)
        (rw length-copy_at k) in
    rw (feed_early total n buf c (omega arith) k, rest, grown)
      (rw (append_assoc, append_assoc) refl)

restarts :
    (total : ℕ) (c : List ℕ) (cs : List (List ℕ)) (a : PayloadAcc)
    → deliver total 0 (c ∷ cs) a ≡ deliver total 0 (c ∷ cs) (partial a.buf 0)
unfolding deliver feed
restarts total c cs a = refl

-- A payload that fits, delivered in order from offset 0 in any chunks the last of which completes it,
-- is answered with nothing yet to every chunk but the last and with the whole payload to the last,
-- whatever the accumulator held before.
pub deliver-joined :
    (total : ℕ) (cs : List (List ℕ)) (last : List ℕ) (a : PayloadAcc)
    → length (joined cs) + length last ≡ total
    → length (joined cs) < total
    → total ≤ length a.buf
    → (deliver total 0 (cs ++ (last ∷ [])) a).0 ≡ waits cs ++ (ok (some (joined cs ++ last)) ∷ [])
deliver-joined total [] last a e h k =
    rw restarts (deliver_from total 0 a.buf [] last (omega arith) (omega arith) k)
deliver-joined total (c ∷ cs) last a e h k =
    rw restarts (deliver_from total 0 a.buf (c ∷ cs) last (omega arith) (omega arith) k)
