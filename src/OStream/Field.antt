-- ===== src/OStream/Field.antt =====
-- src/ostream.rs: the fields of a message emit what `spec` says.
use corelib_rs_no_std.Common.{
  ℕ, ◌+◌, ◌*◌, ◌^◌, ◌%◌, ◌≤◌, ◌<◌, ◌≡◌, refl, arith, Bool, false, List, [], ◌∷◌, ◌++◌, length, All,
  lt→ltb, ltb, if◌then◌else◌, bit_or,
}
use native.Mathlib.Decide.{dec_lt}
use corelib_rs_no_std.Error.{Result, ok, err, Nothing}
use corelib_rs_no_std.Types.{
  FixlenType, raw_of, id_max, array_max, t_varint_unsigned, t_varint_signed, t_fixlen,
}
use corelib_rs_no_std.Varint.{zigzag_encode}
use corelib_rs_no_std.Varint.Groups.{varint}
use corelib_rs_no_std.Varint.ZigZag.{zigzag_encode_lem}
use corelib_rs_no_std.OStream.Handover.{Flush, Handoff}
use corelib_rs_no_std.OStream.Stream.{OStream, Write, ◌>>◌, and_write, push_raw, write_varint}
use corelib_rs_no_std.OStream.Fields.{
  le_bytes, write_each, write_id_type, write_unsigned, write_signed, write_boolean,
  write_fixlen_raw, write_fp32, write_fp64, write_str, write_blob,
}
use corelib_rs_no_std.OStream.Wrote.{
  View, Keeps, IsValid, frames, Wrote, done-Wrote, and_write-Wrote,
}
use corelib_rs_no_std.OStream.Push.{push_raw-Wrote, write_varint-Wrote}
use corelib_rs_no_std.OStream.Commit.{word_lem, write_id_type-rejected, write_id_type-Wrote}
use corelib_rs_no_std.OStream.Spec.{Frames, each, field, fixlen_body, fixlen_field}

module _ {S : Type 0} (F : Flush S) (H : Handoff S) (seen : View S) (K : Keeps F H seen) where
  -- `t` is what a call from `s` may give when its promise is `r`: a rejected call changes nothing.
  abbrev pub Does : Result (List ℕ × Frames) → OStream S → Result Nothing × OStream S → Type 0
  Does (ok (bytes, fr)) s t = Wrote F seen s fr bytes t
  Does (err e) s t = t ≡ (err e, s)

  -- A writer of `bytes` that leaves the open sequences alone.
  abbrev pub Puts : List ℕ → Write S → Type 0
  Puts bytes k = (s : OStream S) → IsValid F seen s → Wrote F seen s (frames F seen s) bytes (k s)

  pub put_varint : (v : ℕ) → v < 2 ^ 64 → Puts (varint v) (write_varint F H v)
  put_varint v h s w = write_varint-Wrote F H seen K v s w h

  pub put_raw : (bytes : List ℕ) → Puts bytes (push_raw F H bytes)
  put_raw bytes s v = push_raw-Wrote F H seen K bytes s v

  pub put_both : {xs ys : List ℕ} (j k : Write S) → Puts xs j → Puts ys k → Puts (xs ++ ys) (j >> k)
  put_both {ys = ys} j k p q s v =
      and_write-Wrote F seen ys k (p s v) (λ s' v' e. rw e at (q s' v'))

  pub put_each :
      (Ok : ℕ → Type 0) (f : ℕ → List ℕ) (k : ℕ → Write S)
      → ((x : ℕ) → Ok x → Puts (f x) (k x))
      → (xs : List ℕ) → All Ok xs
      → Puts (each f xs) (write_each F H k xs)
  put_each Ok f k p [] a s v = done-Wrote F seen v
  put_each Ok f k p (x ∷ xs) a s v =
      put_both (k x) (write_each F H k xs) (p x a.0) (put_each Ok f k p xs a.1) s v

  pub and_write_assoc :
      (t : Result Nothing × OStream S) (j k : Write S)
      → and_write (and_write t j) k ≡ and_write t (j >> k)
  and_write_assoc (ok u, s) j k = refl
  and_write_assoc (err e, s) j k = refl

  -- A field is its header and a body.
  pub field-Does :
      (id wire_type : ℕ) (body : List ℕ) (k : Write S) (s : OStream S)
      → IsValid F seen s
      → wire_type < 8
      → Puts body k
      → Does (field id wire_type body (frames F seen s)) s ((write_id_type F H id wire_type >> k) s)
  field-Does id t body k s v h p = elim (dec_lt id_max id) [
    | yes high ↦ rw (lt→ltb _ _ high, write_id_type-rejected F H seen K id t s high) refl
    | no low ↦
        let within : ltb id_max id ≡ false = ground arith in
        rw within (
          and_write-Wrote F seen body k (write_id_type-Wrote F H seen K id t s v (omega arith) h)
            (λ s' v' e. rw e at (p s' v')))
  ]

  varint-Does :
      (id wire_type v : ℕ) (s : OStream S)
      → IsValid F seen s
      → wire_type < 8
      → v < 2 ^ 64
      → Does
          (field id wire_type (varint v) (frames F seen s))
          s
          ((write_id_type F H id wire_type >> write_varint F H v) s)
  varint-Does id t v s w h k = field-Does id t (varint v) _ s w h (put_varint v k)

  pub unsigned-Does :
      (id v : ℕ) (s : OStream S)
      → IsValid F seen s
      → v < 2 ^ 64
      → Does (field id t_varint_unsigned (varint v) (frames F seen s)) s (write_unsigned F H id v s)
  unfolding write_unsigned
  unsigned-Does id v s w h = varint-Does id t_varint_unsigned v s w (omega arith) h

  pub signed-Does :
      (id v : ℕ) (s : OStream S)
      → IsValid F seen s
      → v < 2 ^ 64
      → Does
          (field id t_varint_signed (varint (zigzag_encode v)) (frames F seen s))
          s
          (write_signed F H id v s)
  unfolding write_signed
  signed-Does id v s w h =
      varint-Does id t_varint_signed (zigzag_encode v) s w (omega arith) ((zigzag_encode_lem v h).1)

  pub boolean-Does :
      (id : ℕ) (b : Bool) (s : OStream S)
      → IsValid F seen s
      → Does
          (field id t_varint_unsigned (varint (if b then 1 else 0)) (frames F seen s))
          s
          (write_boolean F H id b s)
  unfolding write_boolean
  boolean-Does id b s w = unsigned-Does id (if b then 1 else 0) s w (ground arith)

  -- Three writes in a row, the first of which is the header.
  after_header :
      (id wire_type : ℕ) (body : List ℕ) (j k : Write S) (s : OStream S)
      → IsValid F seen s
      → wire_type < 8
      → Puts body (j >> k)
      → Does
          (field id wire_type body (frames F seen s))
          s
          ((write_id_type F H id wire_type >> j >> k) s)
  after_header id t body j k s v h p =
      rw (and_write_assoc (write_id_type F H id t s) j k) (field-Does id t body (j >> k) s v h p)

  tag_lem :
      (n : ℕ) (subtype : FixlenType)
      → n ≤ array_max
      → bit_or (n * 2 ^ 3 % 2 ^ 64) (raw_of subtype) ≡ n * 8 + raw_of subtype
  tag_lem n FixlenType.fp32 h = word_lem n 0 (omega arith) (omega arith)
  tag_lem n FixlenType.fp64 h = word_lem n 1 (omega arith) (omega arith)
  tag_lem n FixlenType.str h = word_lem n 2 (omega arith) (omega arith)
  tag_lem n FixlenType.blob h = word_lem n 3 (omega arith) (omega arith)

  raw_of-lt : (subtype : FixlenType) → raw_of subtype < 8
  raw_of-lt FixlenType.fp32 = omega arith
  raw_of-lt FixlenType.fp64 = omega arith
  raw_of-lt FixlenType.str = omega arith
  raw_of-lt FixlenType.blob = omega arith

  pub put_tag :
      (n : ℕ) (subtype : FixlenType)
      → n ≤ array_max
      → Puts
          (varint (n * 8 + raw_of subtype))
          (write_varint F H (bit_or (n * 2 ^ 3 % 2 ^ 64) (raw_of subtype)))
  put_tag n subtype h =
      rw (tag_lem n subtype h)
        (put_varint (n * 8 + raw_of subtype) (omega (arith, raw_of-lt subtype)))

  pub fixlen_raw-Does :
      (id : ℕ) (bytes : List ℕ) (subtype : FixlenType) (s : OStream S)
      → IsValid F seen s
      → length bytes ≤ array_max
      → Does
          (fixlen_field id bytes subtype (frames F seen s))
          s
          (write_fixlen_raw F H id bytes subtype s)
  unfolding write_fixlen_raw
  fixlen_raw-Does id bytes subtype s v h =
      after_header id t_fixlen (fixlen_body bytes subtype) _ _ s v (omega arith)
        (put_both _ _ (put_tag (length bytes) subtype h) (put_raw bytes))

  pub fp32-Does :
      (id bits : ℕ) (s : OStream S)
      → IsValid F seen s
      → Does
          (fixlen_field id (le_bytes 4 bits) FixlenType.fp32 (frames F seen s))
          s
          (write_fp32 F H id bits s)
  unfolding write_fp32
  fp32-Does id bits s v = fixlen_raw-Does id (le_bytes 4 bits) FixlenType.fp32 s v (omega arith)

  pub fp64-Does :
      (id bits : ℕ) (s : OStream S)
      → IsValid F seen s
      → Does
          (fixlen_field id (le_bytes 8 bits) FixlenType.fp64 (frames F seen s))
          s
          (write_fp64 F H id bits s)
  unfolding write_fp64
  fp64-Does id bits s v = fixlen_raw-Does id (le_bytes 8 bits) FixlenType.fp64 s v (omega arith)

  pub str-Does :
      (id : ℕ) (text : List ℕ) (s : OStream S)
      → IsValid F seen s
      → length text ≤ array_max
      → Does (fixlen_field id text FixlenType.str (frames F seen s)) s (write_str F H id text s)
  unfolding write_str
  str-Does id text s v h = fixlen_raw-Does id text FixlenType.str s v h

  pub blob-Does :
      (id : ℕ) (bytes : List ℕ) (s : OStream S)
      → IsValid F seen s
      → length bytes ≤ array_max
      → Does (fixlen_field id bytes FixlenType.blob (frames F seen s)) s (write_blob F H id bytes s)
  unfolding write_blob
  blob-Does id bytes s v h = fixlen_raw-Does id bytes FixlenType.blob s v h
