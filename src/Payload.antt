-- ===== src/Payload.antt =====
-- src/payload.rs: the accumulator that puts a payload together from its chunks. The storage is the
-- list of its `N` bytes.
use corelib_rs_no_std.Common.{
  ℕ, ◌+◌, ◌-◌, ◌==◌, ltb, leb, if◌then◌else◌, not, Bool, true, false, List, [], ◌∷◌, length, take,
  drop, ◌++◌, replicate, min, Option, none, some,
}
use corelib_rs_no_std.Error.{Result, ok, err, argument}
pub mod Assembly
pub mod Refusal
pub mod Contiguous
pub mod Decoded
mod Tests

pub record PayloadAcc : Type 0 where
  pub buf : List ℕ
  pub len : ℕ
  pub complete : Bool

abbrev pub new : ℕ → PayloadAcc
new n = record { buf = replicate n 0; len = 0; complete = false }

-- The copying loop: one byte after the other, while storage and bytes last.
abbrev pub overwrite : List ℕ → List ℕ → List ℕ
overwrite [] bs = []
overwrite (x ∷ xs) [] = x ∷ xs
overwrite (x ∷ xs) (b ∷ bs) = b ∷ overwrite xs bs

-- The loop over the storage from index `i` on.
abbrev pub copy_at : List ℕ → ℕ → List ℕ → List ℕ
copy_at buf i bytes = take i buf ++ overwrite (drop i buf) bytes

-- `buf.get(..total)`
abbrev pub get_to : List ℕ → ℕ → Option (List ℕ)
get_to xs n = if leb n (length xs) then some (take n xs) else none

abbrev pub Answer : Type 0
Answer = Result (Option (List ℕ)) × PayloadAcc

-- The rest of `feed`, on a chunk that continues the payload and fits.
unfoldable pub append_chunk : PayloadAcc → ℕ → List ℕ → Answer
append_chunk a total chunk =
    let bytes = take (total - a.len) chunk in
    let copied =
      if leb a.len (length a.buf) then min (length a.buf - a.len) (length bytes) else 0 in
    let buf = if leb a.len (length a.buf) then copy_at a.buf a.len bytes else a.buf in
    let len = a.len + copied in
    if ltb len total
    then (ok none, record { buf = buf; len = len; complete = a.complete })
    else (ok (get_to buf total), record { buf = buf; len = len; complete = true })

abbrev pub continue_at : PayloadAcc → ℕ → ℕ → List ℕ → Answer
continue_at a total offset chunk =
    let grown = append_chunk a total chunk in if not (offset == a.len) then (ok none, a) else grown

abbrev pub first_chunk : PayloadAcc → ℕ → List ℕ → Answer
first_chunk a total chunk =
    let later = continue_at a total 0 chunk in
    if leb total (length chunk)
    then (ok (some (take total chunk)), record a { complete = true })
    else later

abbrev pub restart : PayloadAcc → PayloadAcc
restart a = record a { len = 0; complete = false }

-- `PayloadAcc::feed`
unfoldable pub feed : PayloadAcc → ℕ → ℕ → List ℕ → Answer
feed a total offset chunk =
    if offset == 0
    then (if ltb (length a.buf) total
        then (err argument, restart a)
        else first_chunk (restart a) total chunk)
    else if a.complete
    then (ok none, a)
    else if ltb (length a.buf) total
    then (err argument, a)
    else continue_at a total offset chunk

abbrev pub reset : PayloadAcc → PayloadAcc
reset a = record a { len = 0; complete = false }

abbrev pub buffered : PayloadAcc → ℕ
buffered a = a.len

abbrev pub capacity : PayloadAcc → ℕ
capacity a = length a.buf

-- The chunks of one payload of `total` bytes, in order, and what `feed` answers to each.
unfoldable pub deliver :
    ℕ → ℕ → List (List ℕ) → PayloadAcc → List (Result (Option (List ℕ))) × PayloadAcc
unfolding feed
deliver total offset [] a = ([], a)
deliver total offset (c ∷ cs) a =
    let (answer, a') = feed a total offset c in
    let (answers, last) = deliver total (offset + length c) cs a' in (answer ∷ answers, last)
