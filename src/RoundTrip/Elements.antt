-- ===== src/RoundTrip/Elements.antt =====
-- src/istream.rs on src/ostream.rs: the decoder over one array.
use corelib_rs_no_std.Common.{
  ℕ, suc, ◌-◌, ◌≤◌, ◌<◌, ◌≡◌, refl, arith, true, false, leb, if◌then◌else◌, List, [], ◌∷◌, ◌++◌,
  length, All,
}
use mathlib.Core.List.{map}
use corelib_rs_no_std.Error.{ok}
use corelib_rs_no_std.Types.{
  FixlenType, ArrayKind, id_max, array_max, t_varintarray_unsigned, t_varintarray_signed,
}
use corelib_rs_no_std.Varint.{zigzag_encode, zigzag_decode}
use corelib_rs_no_std.Varint.Groups.{varint}
use corelib_rs_no_std.Varint.ZigZag.{zigzag_encode_lem, zigzag_inverse}
use corelib_rs_no_std.IStream.State.{State, IStream, Event}
use corelib_rs_no_std.IStream.Step.{dispatch, on_wire_type, on_array_count}
use corelib_rs_no_std.OStream.Fields.{widen_signed}
use corelib_rs_no_std.OStream.Spec.{header, each, IsU64}
use corelib_rs_no_std.RoundTrip.Leads.{
  dec, Leads, Leads-nil, Leads-append, Leads-regroup, word-Leads, header-Leads,
}
use corelib_rs_no_std.RoundTrip.Boundary.{Reads, Reads-from, rests}

-- Behind an element that is a word.
abbrev behind_word : State → ArrayKind → FixlenType → ℕ → ℕ → ℕ → ℕ → ℕ → IStream
behind_word st kind subtype depth id rem total left =
    if leb rem 1
    then dec State.idle kind subtype depth 0 id 0 total left
    else dec st kind subtype depth 0 id (rem - 1) total left

unsigned_element :
    (kind : ArrayKind) (subtype : FixlenType) (depth id rem total left v : ℕ)
    → rem ≤ array_max
    → dispatch State.varint_unsigned
        (dec State.varint_unsigned kind subtype depth 0 id rem total left)
        v
      ≡ (
        ok tt,
        behind_word State.varint_unsigned kind subtype depth id rem total left,
        Event.unsigned id v ∷ [],
      )
unfolding dispatch
unsigned_element kind subtype depth id rem total left v h = ground arith

signed_element :
    (kind : ArrayKind) (subtype : FixlenType) (depth id rem total left v : ℕ)
    → rem ≤ array_max
    → dispatch State.varint_signed
        (dec State.varint_signed kind subtype depth 0 id rem total left)
        v
      ≡ (
        ok tt,
        behind_word State.varint_signed kind subtype depth id rem total left,
        Event.signed id (zigzag_decode v) ∷ [],
      )
unfolding dispatch
signed_element kind subtype depth id rem total left v h = ground arith

-- Elements one after the other, given what each does to the number that is left.
pub elements-Leads :
    (start : ℕ → IStream) (end : IStream) (Ok : ℕ → Type 0) (write : ℕ → List ℕ) (event : ℕ → Event)
    → ((rem x : ℕ)
        → Ok x
        → rem ≤ array_max
        → Leads (start rem) (write x) (if leb rem 1 then end else start (rem - 1)) (event x ∷ []))
    → (x : ℕ) (xs : List ℕ) → All Ok (x ∷ xs)
    → length (x ∷ xs) ≤ array_max
    → Leads (start (length (x ∷ xs))) (each write (x ∷ xs)) end (map event (x ∷ xs))
elements-Leads start end Ok write event one x [] a h =
    Leads-append (one 1 x a.0 (omega arith)) (Leads-nil end)
elements-Leads start end Ok write event one x (y ∷ ys) a h =
    let more : leb (suc (suc (length ys))) 1 ≡ false = ground arith in
    let fewer : suc (suc (length ys)) - 1 ≡ suc (length ys) = omega arith in
    let first : Leads (start (suc (suc (length ys)))) (write x) (start (suc (length ys)))
        (event x ∷ []) =
      rw (more, fewer) at (one (suc (suc (length ys))) x a.0 h) in
    Leads-append first (elements-Leads start end Ok write event one y ys a.1 (omega arith))

module _ (depth id : ℕ) (known : id ≤ id_max) where
  -- The head of an array.
  pub count-Leads :
      (wire_type : ℕ) (kind old : ArrayKind) (subtype : FixlenType) (was total left n : ℕ)
      (t : IStream) (events : List Event)
      → wire_type < 8
      → n ≤ array_max
      → on_wire_type wire_type (dec State.idle old subtype depth 0 id 0 total left)
        ≡ (ok tt, dec State.array_count kind subtype depth 0 id 0 total left, [])
      → on_array_count (dec State.array_count kind subtype depth 0 id 0 total left) n
        ≡ (ok tt, t, events)
      → Leads
          (dec State.idle old subtype depth 0 was 0 total left)
          (header id wire_type ++ varint n)
          t
          events
  unfolding dispatch
  count-Leads wt kind old subtype was total left n t events h k e f =
      let s = dec State.array_count kind subtype depth 0 id 0 total left in
      Leads-append (header-Leads old subtype depth was 0 total left id wt s [] known h e)
        (word-Leads s t n events tt (omega arith) f)

  unsigned_count :
      (subtype : FixlenType) (total left n : ℕ)
      → n ≤ array_max
      → on_array_count (dec State.array_count ArrayKind.unsigned subtype depth 0 id 0 total left) n
        ≡ (
          ok tt,
          if leb 1 n
              then dec State.varint_unsigned ArrayKind.unsigned subtype depth 0 id n total left
              else dec State.idle ArrayKind.unsigned subtype depth 0 id 0 total left,
          Event.array_begin id ArrayKind.unsigned n ∷ [],
        )
  unfolding on_array_count
  unsigned_count subtype total left n h = ground arith

  signed_count :
      (subtype : FixlenType) (total left n : ℕ)
      → n ≤ array_max
      → on_array_count (dec State.array_count ArrayKind.signed subtype depth 0 id 0 total left) n
        ≡ (
          ok tt,
          if leb 1 n
              then dec State.varint_signed ArrayKind.signed subtype depth 0 id n total left
              else dec State.idle ArrayKind.signed subtype depth 0 id 0 total left,
          Event.array_begin id ArrayKind.signed n ∷ [],
        )
  unfolding on_array_count
  signed_count subtype total left n h = ground arith

  -- An array of words: `st` is the state that reads an element.
  words-Reads :
      (wire_type : ℕ) (kind : ArrayKind) (st : State) (Ok : ℕ → Type 0) (write : ℕ → List ℕ)
      (event : ℕ → Event)
      → wire_type < 8
      → ((old : ArrayKind) (subtype : FixlenType) (total left : ℕ)
          → on_wire_type wire_type (dec State.idle old subtype depth 0 id 0 total left)
            ≡ (ok tt, dec State.array_count kind subtype depth 0 id 0 total left, []))
      → ((subtype : FixlenType) (total left n : ℕ)
          → n ≤ array_max
          → on_array_count (dec State.array_count kind subtype depth 0 id 0 total left) n ≡ (
            ok tt,
            if leb 1 n
                then dec st kind subtype depth 0 id n total left
                else dec State.idle kind subtype depth 0 id 0 total left,
            Event.array_begin id kind n ∷ [],
          ))
      → ((subtype : FixlenType) (total left rem x : ℕ)
          → Ok x
          → rem ≤ array_max
          → Leads
              (dec st kind subtype depth 0 id rem total left)
              (write x)
              (behind_word st kind subtype depth id rem total left)
              (event x ∷ []))
      → (xs : List ℕ) → All Ok xs
      → length xs ≤ array_max
      → Reads depth
          (header id wire_type ++ (varint (length xs) ++ each write xs))
          depth
          (Event.array_begin id kind (length xs) ∷ map event xs)
  words-Reads wt kind st Ok write event w e f g [] a h = Reads-from (λ old subtype was total left.
      let t = dec State.idle kind subtype depth 0 id 0 total left in
      (
        t,
        rests kind subtype depth id total left,
        Leads-regroup (header id wt) (varint 0) [] (
            Leads-append
              (count-Leads wt kind old subtype was total left 0 t _ w h (e old subtype total left)
                (f subtype total left 0 h))
              (Leads-nil t)),
      ))
  words-Reads wt kind st Ok write event w e f g (x ∷ xs) a h =
      Reads-from (λ old subtype was total left.
        let start = λ (rem : ℕ). dec st kind subtype depth 0 id rem total left in
        let t = dec State.idle kind subtype depth 0 id 0 total left in
        let some_left : leb 1 (suc (length xs)) ≡ true = ground arith in
        let counted = rw some_left at (f subtype total left (suc (length xs)) h) in
        (
          t,
          rests kind subtype depth id total left,
          Leads-regroup (header id wt) (varint (suc (length xs))) _ (
              Leads-append
                (count-Leads wt kind old subtype was total left _ _ _ w h (e old subtype total left)
                  counted)
                (elements-Leads start t Ok write event (λ rem y. g subtype total left rem y) x xs a
                  h)),
        ))

  pub array_unsigned-Reads :
      (xs : List ℕ)
      → All IsU64 xs
      → length xs ≤ array_max
      → Reads depth
          (header id t_varintarray_unsigned ++ (varint (length xs) ++ each varint xs))
          depth
          (Event.array_begin id ArrayKind.unsigned (length xs) ∷ map (Event.unsigned id) xs)
  unfolding on_wire_type
  array_unsigned-Reads =
      words-Reads t_varintarray_unsigned ArrayKind.unsigned State.varint_unsigned IsU64 varint
        (Event.unsigned id) (omega arith) (λ old subtype total left. refl) unsigned_count
        (λ subtype total left rem v k l.
          word-Leads
            (dec State.varint_unsigned ArrayKind.unsigned subtype depth 0 id rem total left) _ v
            (Event.unsigned id v ∷ []) tt k
            (unsigned_element ArrayKind.unsigned subtype depth id rem total left v l))

  signed_element-Leads :
      (subtype : FixlenType) (total left rem v : ℕ)
      → IsU64 v
      → rem ≤ array_max
      → Leads
          (dec State.varint_signed ArrayKind.signed subtype depth 0 id rem total left)
          (varint (zigzag_encode v))
          (behind_word State.varint_signed ArrayKind.signed subtype depth id rem total left)
          (Event.signed id v ∷ [])
  signed_element-Leads subtype total left rem v k l =
      let s = dec State.varint_signed ArrayKind.signed subtype depth 0 id rem total left in
      let read =
        signed_element ArrayKind.signed subtype depth id rem total left (zigzag_encode v) l in
      word-Leads s _ (zigzag_encode v) (Event.signed id v ∷ []) tt (zigzag_encode_lem v k).1
        (rw ((zigzag_inverse v k).0) at read)

  pub array_signed-Reads :
      (width : ℕ) (xs : List ℕ)
      → All (λ x. IsU64 (widen_signed width x)) xs
      → length xs ≤ array_max
      → Reads depth
          (header id t_varintarray_signed
            ++ (varint (length xs) ++ each (λ x. varint (zigzag_encode (widen_signed width x))) xs))
          depth
          (Event.array_begin id ArrayKind.signed (length xs)
            ∷ map (λ x. Event.signed id (widen_signed width x)) xs)
  unfolding on_wire_type
  array_signed-Reads width =
      words-Reads t_varintarray_signed ArrayKind.signed State.varint_signed
        (λ x. IsU64 (widen_signed width x)) (λ x. varint (zigzag_encode (widen_signed width x)))
        (λ x. Event.signed id (widen_signed width x)) (omega arith) (λ old subtype total left. refl)
        signed_count
        (λ subtype total left rem x.
          signed_element-Leads subtype total left rem (widen_signed width x))
