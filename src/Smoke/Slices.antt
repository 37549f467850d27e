-- ===== src/Smoke/Slices.antt =====
-- .github/smoke/roundtrip.rs: the visitor, and the division of a payload into chunks.
use corelib_rs_no_std.Common.{
  ℕ, suc, ◌+◌, ◌≡◌, ◌≤◌, refl, sym, ap, ◌∙◌, arith, List, [], ◌∷◌, ◌++◌, append-nil, append_assoc,
  length, length-set, set, take, take-set, Option, none, some, false, Bool-cases, inl, inr, ◌==◌,
  leb,
}
use corelib_rs_no_std.IStream.State.{Event}
use corelib_rs_no_std.IStream.Bytewise.{per_byte, expand, expand_all}
use corelib_rs_no_std.Smoke.Probe.{Probe, copy, visit_string, visit, and_visit, visits}

pub and_visit_cong :
    (o : Option Probe) (f g : Probe → Option Probe)
    → ((p : Probe) → f p ≡ g p)
    → and_visit o f ≡ and_visit o g
and_visit_cong none f g h = refl
and_visit_cong (some p) f g h = h p

and_visit_assoc :
    (o : Option Probe) (f g : Probe → Option Probe)
    → and_visit (and_visit o f) g ≡ and_visit o (λ p. and_visit (f p) g)
and_visit_assoc none f g = refl
and_visit_assoc (some p) f g = refl

pub visits-append :
    (xs ys : List Event) (p : Probe) → visits (xs ++ ys) p ≡ and_visit (visits xs p) (visits ys)
visits-append [] ys p = refl
visits-append (x ∷ xs) ys p =
    and_visit_cong (visit x p) (visits (xs ++ ys)) (λ q. and_visit (visits xs q) (visits ys))
      (visits-append xs ys)
    ∙ sym (and_visit_assoc (visit x p) (visits xs) (visits ys))

one : (e : Event) (p : Probe) → visits (e ∷ []) p ≡ visit e p
one e p = last (visit e p)
  where
    last : (o : Option Probe) → and_visit o (visits []) ≡ o
    last none = refl
    last (some q) = refl

string_round :
    (id total off b c : ℕ) (bs : List ℕ) (p : Probe)
    → visits (per_byte (Event.string id total) off (b ∷ c ∷ bs)) p
      ≡ and_visit
          (visit_string id off (b ∷ []) p)
          (visits (per_byte (Event.string id total) (off + 1) (c ∷ bs)))
unfolding per_byte
string_round id total off b c bs p = refl

-- A chunk at an index, the first byte and then the others.
string_halves :
    (id off b : ℕ) (cs : List ℕ) (p : Probe)
    → and_visit (visit_string id off (b ∷ []) p) (visit_string id (off + 1) cs)
      ≡ visit_string id off (b ∷ cs) p
string_halves id off b cs p =
    let l = length-set p.s off b in
    let next : off + 1 + length cs ≡ off + suc (length cs) = omega arith in
    elim (Bool-cases (id == 3)) [
      | inl q ↦ elim (Bool-cases (leb (off + 1) (length p.s))) [
        | inl r ↦ rw (q, r, q, l, next) refl
        | inr r ↦
            let over : leb (off + suc (length cs)) (length p.s) ≡ false = ground arith in
            rw (q, r, over) refl
      ]
      | inr q ↦ rw (q, q) refl
    ]

-- A chunk at an index, byte by byte.
string_bytes :
    (id total off b : ℕ) (bs : List ℕ) (p : Probe)
    → visits (per_byte (Event.string id total) off (b ∷ bs)) p ≡ visit_string id off (b ∷ bs) p
string_bytes id total off b [] p = unfold per_byte in one (Event.string id total off (b ∷ [])) p
string_bytes id total off b (c ∷ bs) p =
    string_round id total off b c bs p
    ∙ and_visit_cong (visit_string id off (b ∷ []) p)
        (visits (per_byte (Event.string id total) (off + 1) (c ∷ bs)))
        (visit_string id (off + 1) (c ∷ bs)) (string_bytes id total (off + 1) c bs)
    ∙ string_halves id off b (c ∷ bs) p

blobs :
    (id total off : ℕ) (bs : List ℕ) (p : Probe)
    → visits (per_byte (Event.blob id total) off bs) p ≡ some p
unfolding per_byte
blobs id total off [] p = refl
blobs id total off (b ∷ bs) p = blobs id total (off + 1) bs p

visits-expand : (e : Event) (p : Probe) → visits (expand e) p ≡ visit e p
visits-expand (Event.string id total off (b ∷ bs)) p = string_bytes id total off b bs p
visits-expand (Event.string id total off []) p = one (Event.string id total off []) p
visits-expand (Event.blob id total off (b ∷ bs)) p = blobs id total off (b ∷ bs) p
visits-expand (Event.blob id total off []) p = refl
visits-expand (Event.unsigned id x) p = refl
visits-expand (Event.signed id x) p = refl
visits-expand (Event.fp32 id x) p = refl
visits-expand (Event.fp64 id x) p = refl
visits-expand (Event.fixlen_begin id subtype total) p = refl
visits-expand (Event.array_begin id kind count) p = refl
visits-expand (Event.sequence_begin id) p = refl
visits-expand Event.sequence_end p = refl

visits-expand_all : (es : List Event) (p : Probe) → visits (expand_all es) p ≡ visits es p
visits-expand_all [] p = refl
visits-expand_all (e ∷ es) p =
    visits-append (expand e) (expand_all es) p
    ∙ ap (λ o. and_visit o (visits (expand_all es))) (visits-expand e p)
    ∙ and_visit_cong (visit e p) (visits (expand_all es)) (visits es) (visits-expand_all es)

-- Calls that differ in the division of payloads only leave the same probe.
pub visits_alike :
    (xs ys : List Event) (p : Probe) → expand_all xs ≡ expand_all ys → visits xs p ≡ visits ys p
visits_alike xs ys p e =
    sym (visits-expand_all xs p) ∙ ap (λ es. visits es p) e ∙ visits-expand_all ys p

pub take-copy :
    (chunk s : List ℕ) (off : ℕ)
    → off + length chunk ≤ length s
    → take (off + length chunk) (copy s off chunk) ≡ take off s ++ chunk
take-copy [] s off h = let e : off + 0 ≡ off = omega arith in rw e (sym (append-nil (take off s)))
take-copy (b ∷ chunk) s off h =
    let l = length-set s off b in
    let e : off + suc (length chunk) ≡ off + 1 + length chunk = omega arith in
    rw (e, take-copy chunk (set s off b) (off + 1) (omega arith), take-set s off b (omega arith))
      (append_assoc (take off s) (b ∷ []) chunk)
