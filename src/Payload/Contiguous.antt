-- ===== src/Payload/Contiguous.antt =====
-- src/payload.rs behind src/istream.rs: the calls that carry a payload, and its chunks.
use corelib_rs_no_std.Common.{
  joined, ℕ, suc, ◌+◌, ◌<◌, ◌≡◌, refl, ap, sym, ◌∙◌, arith, Bool, true, false, List, [], ◌∷◌, ◌++◌,
  length, All,
}
use corelib_rs_no_std.IStream.State.{Event}
use corelib_rs_no_std.IStream.Progress.{some_expansion}
use corelib_rs_no_std.IStream.Bytewise.{per_byte, expand, expand_all}

-- A chunk of a string, or of a blob.
abbrev pub chunk : Bool → ℕ → ℕ → ℕ → List ℕ → Event
chunk true id total offset c = Event.string id total offset c
chunk false id total offset c = Event.blob id total offset c

-- The chunks of a payload, from an offset on.
unfoldable pub pieces_from : (ℕ → List ℕ → Event) → ℕ → List (List ℕ) → List Event
pieces_from f offset [] = []
pieces_from f offset (c ∷ cs) = f offset c ∷ pieces_from f (offset + length c) cs

abbrev first : Event → Event
first (Event.string id total o (b ∷ bs)) = Event.string id total o (b ∷ [])
first (Event.blob id total o (b ∷ bs)) = Event.blob id total o (b ∷ [])
first e = e

abbrev others : Event → List Event
others (Event.string id total o (b ∷ bs)) = per_byte (Event.string id total) (o + 1) bs
others (Event.blob id total o (b ∷ bs)) = per_byte (Event.blob id total) (o + 1) bs
others e = []

expand_lem : (e : Event) → expand e ≡ first e ∷ others e
unfolding per_byte
expand_lem (Event.string id total o (b ∷ bs)) = refl
expand_lem (Event.blob id total o (b ∷ bs)) = refl
expand_lem (Event.string id total o []) = refl
expand_lem (Event.blob id total o []) = refl
expand_lem (Event.unsigned id v) = refl
expand_lem (Event.signed id v) = refl
expand_lem (Event.fp32 id v) = refl
expand_lem (Event.fp64 id v) = refl
expand_lem (Event.fixlen_begin id t n) = refl
expand_lem (Event.array_begin id k n) = refl
expand_lem (Event.sequence_begin id) = refl
expand_lem Event.sequence_end = refl

-- A call whose first byte is one of a payload is a chunk of it.
chunk_of_first :
    (k : Bool) (id total o b : ℕ) (e : Event)
    → first e ≡ chunk k id total o (b ∷ [])
    → (xs : List ℕ) × (e ≡ chunk k id total o (b ∷ xs))
chunk_of_first true id total o b (Event.string id' total' o' (x ∷ xs)) h = (xs, cc)
chunk_of_first false id total o b (Event.blob id' total' o' (x ∷ xs)) h = (xs, cc)
chunk_of_first true id total o b e h = absurd (ground arith)
chunk_of_first false id total o b e h = absurd (ground arith)

pub expand-chunk :
    (k : Bool) (id total o b : ℕ) (xs : List ℕ)
    → expand (chunk k id total o (b ∷ xs)) ≡ per_byte (chunk k id total) o (b ∷ xs)
expand-chunk true id total o b xs = refl
expand-chunk false id total o b xs = refl

add_zero : (o : ℕ) → o ≡ o + 0
add_zero o = omega arith

add_suc : (o n : ℕ) → o + 1 + n ≡ o + suc n
add_suc o n = omega arith

one_byte :
    (k : Bool) (id total o x b : ℕ)
    → chunk k id total o (x ∷ []) ≡ chunk k id total o (b ∷ [])
    → x ≡ b
one_byte true id total o x b h = cc
one_byte false id total o x b h = cc

head_of : {e f : Event} {es fs : List Event} → e ∷ es ≡ f ∷ fs → e ≡ f
head_of h = cc

tail_of : {e f : Event} {es fs : List Event} → e ∷ es ≡ f ∷ fs → es ≡ fs
tail_of h = cc

-- The bytes of a chunk at the front of a payload.
front_part :
    (k : Bool) (id total : ℕ) (xs bs : List ℕ) (o : ℕ) (rest : List Event)
    → per_byte (chunk k id total) o xs ++ rest ≡ per_byte (chunk k id total) o bs
    → (ys : List ℕ) × (bs ≡ xs ++ ys) × (rest ≡ per_byte (chunk k id total) (o + length xs) ys)
unfolding per_byte
front_part k id total [] bs o rest h =
    (bs, refl, h ∙ ap (λ (n : ℕ). per_byte (chunk k id total) n bs) (add_zero o))
front_part k id total (x ∷ xs) [] o rest h = absurd (ground arith)
front_part k id total (x ∷ xs) (b ∷ bs) o rest h =
    let same : x ≡ b = one_byte k id total o x b (head_of h) in
    let (ys, p, q) = front_part k id total xs bs (o + 1) rest (tail_of h) in
    (
      ys,
      rw (same, p) refl,
      q ∙ ap (λ (n : ℕ). per_byte (chunk k id total) n ys) (add_suc o (length xs)),
    )

-- No chunk is empty.
abbrev pub NoneEmpty : List (List ℕ) → Type 0
NoneEmpty = All (λ c. 0 < length c)

-- The calls that carry a payload byte by byte are its chunks, in order.
pub contiguous :
    (k : Bool) (id total : ℕ) (calls : List Event) (bytes : List ℕ) (o : ℕ)
    → expand_all calls ≡ per_byte (chunk k id total) o bytes
    → (cs : List (List ℕ)) × (calls ≡ pieces_from (chunk k id total) o cs)
      × (joined cs ≡ bytes)
      × NoneEmpty cs
unfolding pieces_from per_byte
contiguous k id total [] [] o h = ([], refl, refl, tt)
contiguous k id total [] (b ∷ bs) o h = absurd (ground arith)
contiguous k id total (e ∷ es) [] o h = absurd (some_expansion e (expand_all es) h)
contiguous k id total (e ∷ es) (b ∷ bs) o h =
    let begins = rw expand_lem at h in
    let (xs, p) = chunk_of_first k id total o b e (head_of begins) in
    let whole = rw (p, expand-chunk) at h in
    let (ys, q, r) = front_part k id total (b ∷ xs) (b ∷ bs) o (expand_all es) whole in
    let (cs, u, v, w) = contiguous k id total es ys (o + length (b ∷ xs)) r in
    (
      (b ∷ xs) ∷ cs,
      ap (λ x. x ∷ es) p ∙ ap (λ l. chunk k id total o (b ∷ xs) ∷ l) u,
      ap (λ t. (b ∷ xs) ++ t) v ∙ sym q,
      (omega arith, w),
    )
