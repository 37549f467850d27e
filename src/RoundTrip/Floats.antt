-- ===== src/RoundTrip/Floats.antt =====
-- src/istream.rs on src/ostream.rs: the decoder over an array of floats.
use corelib_rs_no_std.Common.{
  ℕ, suc, ◌+◌, ◌*◌, ◌/◌, ◌%◌, ◌^◌, ◌≤◌, ◌<◌, ◌≡◌, refl, sym, ◌∙◌, arith, true, leb, if◌then◌else◌,
  List, [], ◌∷◌, ◌++◌, length, All,
}
use mathlib.Core.List.{map}
use corelib_rs_no_std.Error.{ok}
use corelib_rs_no_std.Types.{FixlenType, ArrayKind, raw_of, id_max, array_max, t_fixlenarray}
use corelib_rs_no_std.Varint.Groups.{varint}
use corelib_rs_no_std.IStream.State.{State, Event}
use corelib_rs_no_std.IStream.Step.{
  dispatch, on_wire_type, on_fixlen_type, on_array_count, width_of,
}
use corelib_rs_no_std.OStream.Fields.{le_bytes}
use corelib_rs_no_std.OStream.Spec.{header, each, IsU64}
use corelib_rs_no_std.RoundTrip.Leads.{
  dec, Leads, Leads-nil, Leads-append, Leads-regroup, word-Leads,
}
use corelib_rs_no_std.RoundTrip.Payloads.{
  behind_float, float-Leads, pushed-le_bytes4, pushed-le_bytes8,
}
use corelib_rs_no_std.RoundTrip.Boundary.{Reads, Reads-from, rests}
use corelib_rs_no_std.RoundTrip.Lengths.{on_fixlen_len_lem, raw_of-le}
use corelib_rs_no_std.RoundTrip.Elements.{elements-Leads, count-Leads}

module _ (depth id : ℕ) (known : id ≤ id_max) where
  float_count :
      (subtype : FixlenType) (total left n : ℕ)
      → n ≤ array_max
      → on_array_count (dec State.array_count ArrayKind.fp32 subtype depth 0 id 0 total left) n
        ≡ (ok tt, dec State.fixlen_array_len ArrayKind.fp32 subtype depth 0 id n total left, [])
  unfolding on_array_count
  float_count subtype total left n h = ground arith

  abbrev kind_of : FixlenType → ArrayKind
  kind_of FixlenType.fp64 = ArrayKind.fp64
  kind_of _ = ArrayKind.fp32

  float_word :
      (subtype old : FixlenType) (total left n w : ℕ)
      → width_of subtype ≡ w
      → 0 < w
      → on_fixlen_type subtype w
          (dec State.fixlen_array_len ArrayKind.fp32 old depth 0 id n total left)
        ≡ (
          ok tt,
          if leb 1 n
              then dec State.fixlen_val ArrayKind.fp32 subtype depth 0 id n w w
              else dec State.idle ArrayKind.fp32 subtype depth 0 id 0 w w,
          Event.array_begin id (kind_of subtype) n ∷ [],
        )
  unfolding on_fixlen_type
  float_word FixlenType.fp32 old total left n w e h = rw (sym e) (ground arith)
  float_word FixlenType.fp64 old total left n w e h = rw (sym e) (ground arith)
  float_word FixlenType.str old total left n w e h = absurd (omega arith)
  float_word FixlenType.blob old total left n w e h = absurd (omega arith)

  -- The head of an array of floats, up to the elements.
  head-Leads :
      (subtype was_type : FixlenType) (old : ArrayKind) (was total left n w : ℕ)
      → width_of subtype ≡ w
      → 0 < w
      → w ≤ 8
      → n ≤ array_max
      → Leads
          (dec State.idle old was_type depth 0 was 0 total left)
          ((header id t_fixlenarray ++ varint n) ++ varint (w * 8 + raw_of subtype))
          (if leb 1 n
            then dec State.fixlen_val ArrayKind.fp32 subtype depth 0 id n w w
            else dec State.idle ArrayKind.fp32 subtype depth 0 id 0 w w)
          (Event.array_begin id (kind_of subtype) n ∷ [])
  unfolding on_wire_type dispatch
  head-Leads subtype was_type old was total left n w e p q h =
      let s = dec State.fixlen_array_len ArrayKind.fp32 was_type depth 0 id n total left in
      Leads-append
        (count-Leads depth id known t_fixlenarray ArrayKind.fp32 old was_type was total left n s []
          (omega arith) h refl (float_count was_type total left n h))
        (word-Leads s _ (w * 8 + raw_of subtype) _ tt (omega (arith, raw_of-le subtype))
          (on_fixlen_len_lem s w subtype ∙ float_word subtype was_type total left n w e p))

  floats-Reads :
      (subtype : FixlenType) (w : ℕ) (Ok : ℕ → Type 0) (event : ℕ → Event)
      → width_of subtype ≡ w
      → 0 < w
      → w ≤ 8
      → ((rem x : ℕ)
          → Ok x
          → rem ≤ array_max
          → Leads
              (dec State.fixlen_val ArrayKind.fp32 subtype depth 0 id rem w w)
              (le_bytes w x)
              (behind_float ArrayKind.fp32 subtype depth id rem w)
              (event x ∷ []))
      → (xs : List ℕ) → All Ok xs
      → length xs ≤ array_max
      → Reads depth
          (header id t_fixlenarray
            ++ (varint (length xs) ++ (varint (w * 8 + raw_of subtype) ++ each (le_bytes w) xs)))
          depth
          (Event.array_begin id (kind_of subtype) (length xs) ∷ map event xs)
  floats-Reads subtype w Ok event e p q g [] a h = Reads-from (λ old was_type was total left.
      let t = dec State.idle ArrayKind.fp32 subtype depth 0 id 0 w w in
      (
        t,
        rests ArrayKind.fp32 subtype depth id w w,
        Leads-regroup (header id t_fixlenarray) (varint 0) _ (
            Leads-regroup (header id t_fixlenarray ++ varint 0) (varint (w * 8 + raw_of subtype)) []
              (Leads-append (head-Leads subtype was_type old was total left 0 w e p q h)
                (Leads-nil t))),
      ))
  floats-Reads subtype w Ok event e p q g (x ∷ xs) a h = Reads-from (λ old was_type was total left.
      let n = suc (length xs) in
      let some_left : leb 1 (suc (length xs)) ≡ true = ground arith in
      let start = λ (rem : ℕ). dec State.fixlen_val ArrayKind.fp32 subtype depth 0 id rem w w in
      let t = dec State.idle ArrayKind.fp32 subtype depth 0 id 0 w 0 in
      let head = rw some_left at (head-Leads subtype was_type old was total left n w e p q h) in
      (
        t,
        rests ArrayKind.fp32 subtype depth id w 0,
        Leads-regroup (header id t_fixlenarray) (varint n) _ (
            Leads-regroup (header id t_fixlenarray ++ varint n) (varint (w * 8 + raw_of subtype)) _
              (Leads-append head (elements-Leads start t Ok (le_bytes w) event g x xs a h))),
      ))

  fp32_element :
      (rem x : ℕ)
      → x < 2 ^ 32
      → rem ≤ array_max
      → Leads
          (dec State.fixlen_val ArrayKind.fp32 FixlenType.fp32 depth 0 id rem 4 4)
          (le_bytes 4 x)
          (behind_float ArrayKind.fp32 FixlenType.fp32 depth id rem 4)
          (Event.fp32 id x ∷ [])
  fp32_element rem x h k = rw (pushed-le_bytes4 x h) at (
      float-Leads ArrayKind.fp32 FixlenType.fp32 depth id rem 4 (x % 256) (le_bytes 3 (x / 256))
        (omega arith) (omega arith) refl (omega arith))

  fp64_element :
      (rem x : ℕ)
      → x < 2 ^ 64
      → rem ≤ array_max
      → Leads
          (dec State.fixlen_val ArrayKind.fp32 FixlenType.fp64 depth 0 id rem 8 8)
          (le_bytes 8 x)
          (behind_float ArrayKind.fp32 FixlenType.fp64 depth id rem 8)
          (Event.fp64 id x ∷ [])
  fp64_element rem x h k = rw (pushed-le_bytes8 x h) at (
      float-Leads ArrayKind.fp32 FixlenType.fp64 depth id rem 8 (x % 256) (le_bytes 7 (x / 256))
        (omega arith) (omega arith) refl (omega arith))

  pub array_fp32-Reads :
      (xs : List ℕ)
      → All (λ x. x < 2 ^ 32) xs
      → length xs ≤ array_max
      → Reads depth
          (header id t_fixlenarray
            ++ (varint (length xs) ++ (varint (4 * 8 + 0) ++ each (le_bytes 4) xs)))
          depth
          (Event.array_begin id ArrayKind.fp32 (length xs) ∷ map (Event.fp32 id) xs)
  array_fp32-Reads =
      floats-Reads FixlenType.fp32 4 (λ x. x < 2 ^ 32) (Event.fp32 id) refl (omega arith)
        (omega arith) fp32_element

  pub array_fp64-Reads :
      (xs : List ℕ)
      → All IsU64 xs
      → length xs ≤ array_max
      → Reads depth
          (header id t_fixlenarray
            ++ (varint (length xs) ++ (varint (8 * 8 + 1) ++ each (le_bytes 8) xs)))
          depth
          (Event.array_begin id ArrayKind.fp64 (length xs) ∷ map (Event.fp64 id) xs)
  array_fp64-Reads =
      floats-Reads FixlenType.fp64 8 IsU64 (Event.fp64 id) refl (omega arith) (omega arith)
        fp64_element
