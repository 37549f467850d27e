-- ===== src/OStream/Arrays.antt =====
-- src/ostream.rs: the array writers emit what `spec` says.
use corelib_rs_no_std.Common.{
  ℕ, ◌+◌, ◌*◌, ◌^◌, ◌%◌, ◌≤◌, ◌<◌, arith, List, [], ◌∷◌, ◌++◌, length, All, bit_or,
}
use corelib_rs_no_std.Types.{
  FixlenType, raw_of, array_max, t_varintarray_unsigned, t_varintarray_signed, t_fixlenarray,
}
use corelib_rs_no_std.Varint.{zigzag_encode}
use corelib_rs_no_std.Varint.Groups.{varint}
use corelib_rs_no_std.Varint.ZigZag.{zigzag_encode_lem}
use corelib_rs_no_std.OStream.Handover.{Flush, Handoff}
use corelib_rs_no_std.OStream.Stream.{OStream, Write, ◌>>◌, push_raw, write_varint}
use corelib_rs_no_std.OStream.Fields.{
  le_bytes, widen_signed, write_each, write_id_type, write_array_head, write_array_unsigned,
  write_array_signed, write_array_fp32, write_array_fp64,
}
use corelib_rs_no_std.OStream.Wrote.{View, Keeps, IsValid, frames}
use corelib_rs_no_std.OStream.Field.{
  Does, Puts, put_varint, put_raw, put_both, put_each, put_tag, and_write_assoc, field-Does,
}
use corelib_rs_no_std.OStream.Spec.{IsU64, each, field}

module _ {S : Type 0} (F : Flush S) (H : Handoff S) (seen : View S) (K : Keeps F H seen) where
  -- An array: the head, then `rest`.
  head-Does :
      (id wire_type count : ℕ) (body : List ℕ) (rest : Write S) (s : OStream S)
      → IsValid F seen s
      → wire_type < 8
      → count ≤ array_max
      → Puts F H seen K body rest
      → Does F H seen K
          (field id wire_type (varint count ++ body) (frames F seen s))
          s
          ((write_array_head F H id wire_type count >> rest) s)
  unfolding write_array_head
  head-Does id t count body rest s v h k p =
      rw (and_write_assoc F H seen K (write_id_type F H id t s) (write_varint F H count) rest) (
        field-Does F H seen K id t (varint count ++ body) (write_varint F H count >> rest) s v h
          (put_both F H seen K _ rest (put_varint F H seen K count (omega arith)) p))

  pub array_unsigned-Does :
      (id : ℕ) (xs : List ℕ) (s : OStream S)
      → IsValid F seen s
      → All IsU64 xs
      → length xs ≤ array_max
      → Does F H seen K
          (field id t_varintarray_unsigned (varint (length xs) ++ each varint xs) (frames F seen s))
          s
          (write_array_unsigned F H (λ x. x) id xs s)
  unfolding write_array_unsigned
  array_unsigned-Does id xs s v a h =
      head-Does id t_varintarray_unsigned (length xs) (each varint xs) _ s v (omega arith) h (
        put_each F H seen K IsU64 varint (λ x. write_varint F H x)
          (λ x k. put_varint F H seen K x k) xs a)

  pub array_signed-Does :
      (width id : ℕ) (xs : List ℕ) (s : OStream S)
      → IsValid F seen s
      → All (λ x. IsU64 (widen_signed width x)) xs
      → length xs ≤ array_max
      → Does F H seen K
          (field id t_varintarray_signed
            (varint (length xs) ++ each (λ x. varint (zigzag_encode (widen_signed width x))) xs)
            (frames F seen s))
          s
          (write_array_signed F H (widen_signed width) id xs s)
  unfolding write_array_signed
  array_signed-Does width id xs s v a h =
      head-Does id t_varintarray_signed (length xs) _ _ s v (omega arith) h (
        put_each F H seen K (λ x. IsU64 (widen_signed width x))
          (λ x. varint (zigzag_encode (widen_signed width x)))
          (λ x. write_varint F H (zigzag_encode (widen_signed width x)))
          (λ x k. put_varint F H seen K _ ((zigzag_encode_lem (widen_signed width x) k).1)) xs a)

  -- Floats, behind the word that says how wide they are.
  floats-Does :
      (id n : ℕ) (subtype : FixlenType) (xs : List ℕ) (s : OStream S)
      → IsValid F seen s
      → n ≤ array_max
      → length xs ≤ array_max
      → All {0, 0} (λ x. Unit) xs
      → Does F H seen K
          (field id t_fixlenarray
            (varint (length xs) ++ (varint (n * 8 + raw_of subtype) ++ each (le_bytes n) xs))
            (frames F seen s))
          s
          ((write_array_head F H id t_fixlenarray (length xs)
              >> write_varint F H (bit_or (n * 2 ^ 3 % 2 ^ 64) (raw_of subtype))
              >> write_each F H (λ e. push_raw F H (le_bytes n e)) xs)
            s)
  floats-Does id n subtype xs s v k h a =
      rw (and_write_assoc F H seen K (write_array_head F H id t_fixlenarray (length xs) s) _ _) (
        head-Does id t_fixlenarray (length xs) _ _ s v (omega arith) h (
          put_both F H seen K _ _ (put_tag F H seen K n subtype k) (
            put_each F H seen K (λ x. Unit) (le_bytes n) (λ e. push_raw F H (le_bytes n e))
              (λ x u. put_raw F H seen K (le_bytes n x)) xs a)))

  trivially : (xs : List ℕ) → All {0, 0} (λ x. Unit) xs
  trivially [] = tt
  trivially (x ∷ xs) = (tt, trivially xs)

  pub array_fp32-Does :
      (id : ℕ) (xs : List ℕ) (s : OStream S)
      → IsValid F seen s
      → length xs ≤ array_max
      → Does F H seen K
          (field id t_fixlenarray
            (varint (length xs) ++ (varint (4 * 8 + 0) ++ each (le_bytes 4) xs))
            (frames F seen s))
          s
          (write_array_fp32 F H id xs s)
  unfolding write_array_fp32
  array_fp32-Does id xs s v h =
      floats-Does id 4 FixlenType.fp32 xs s v (omega arith) h (trivially xs)

  pub array_fp64-Does :
      (id : ℕ) (xs : List ℕ) (s : OStream S)
      → IsValid F seen s
      → length xs ≤ array_max
      → Does F H seen K
          (field id t_fixlenarray
            (varint (length xs) ++ (varint (8 * 8 + 1) ++ each (le_bytes 8) xs))
            (frames F seen s))
          s
          (write_array_fp64 F H id xs s)
  unfolding write_array_fp64
  array_fp64-Does id xs s v h =
      floats-Does id 8 FixlenType.fp64 xs s v (omega arith) h (trivially xs)
