-- ===== src/Smoke/Written.antt =====
-- .github/smoke: the messages of the two programs, and their sizes.
use corelib_rs_no_std.Common.{
  ℕ, ◌+◌, ◌*◌, ◌^◌, ◌≡◌, ◌≤◌, ◌<◌, refl, arith, List, [], ◌∷◌, ◌++◌, length, length-append,
}
use corelib_rs_no_std.Error.{ok}
use corelib_rs_no_std.Types.{FixlenType, t_varint_unsigned, t_varint_signed, t_fixlen}
use corelib_rs_no_std.Varint.{zigzag_encode}
use corelib_rs_no_std.Varint.ZigZag.{zigzag_encode_lem}
use corelib_rs_no_std.Varint.Groups.{varint, groups, varint_shape}
use corelib_rs_no_std.IStream.State.{Event}
use corelib_rs_no_std.OStream.Spec.{Op, header, fixlen_body, spec, spec_all}
use corelib_rs_no_std.RoundTrip.Told.{told, told_all}

-- The calls of baremetal.rs.
abbrev pub scalars : ℕ → ℕ → List Op
scalars v w = Op.unsigned 1 v ∷ Op.signed 2 w ∷ []

-- The calls of roundtrip.rs.
abbrev pub scalars_text : ℕ → ℕ → List ℕ → List Op
scalars_text v w text = Op.unsigned 1 v ∷ Op.signed 2 w ∷ Op.str 3 text ∷ []

abbrev unsigned_bytes : ℕ → List ℕ
unsigned_bytes v = ([] ++ header 1 t_varint_unsigned) ++ varint v

abbrev signed_bytes : ℕ → List ℕ
signed_bytes w = ([] ++ header 2 t_varint_signed) ++ varint (zigzag_encode w)

abbrev text_bytes : List ℕ → List ℕ
text_bytes text = ([] ++ header 3 t_fixlen) ++ fixlen_body text FixlenType.str

abbrev pub scalars_bytes : ℕ → ℕ → List ℕ
scalars_bytes v w = unsigned_bytes v ++ (signed_bytes w ++ [])

abbrev pub scalars_text_bytes : ℕ → ℕ → List ℕ → List ℕ
scalars_text_bytes v w text = unsigned_bytes v ++ (signed_bytes w ++ (text_bytes text ++ []))

pub scalars-accepted : (v w : ℕ) → spec_all (scalars v w) (0, []) ≡ ok (scalars_bytes v w, (0, []))
unfolding spec_all spec
scalars-accepted v w = refl

pub scalars_text-accepted :
    (v w : ℕ) (text : List ℕ)
    → spec_all (scalars_text v w text) (0, []) ≡ ok (scalars_text_bytes v w text, (0, []))
unfolding spec_all spec
scalars_text-accepted v w text = refl

small : (x : ℕ) → x < 128 → length (varint x) ≡ 1
unfolding varint groups
small x h = ground arith

unsigned-size :
    (v : ℕ) → v < 2 ^ 64 → (2 ≤ length (unsigned_bytes v)) × (length (unsigned_bytes v) ≤ 11)
unsigned-size v h =
    omega (arith, small 8 (omega arith), varint_shape v h, length-append (varint 8) (varint v))

signed-size : (w : ℕ) → w < 2 ^ 64 → length (signed_bytes w) ≤ 11
signed-size w h =
    let x = zigzag_encode w in
    omega (
      arith,
      small 17 (omega arith),
      varint_shape x (zigzag_encode_lem w h).1,
      length-append (varint 17) (varint x),
    )

text-size : (text : List ℕ) → length text ≤ 8 → length (text_bytes text) ≤ 10
text-size text h =
    let word = varint (length text * 8 + 2) in
    omega (
      arith,
      small 26 (omega arith),
      small (length text * 8 + 2) (omega arith),
      length-append (varint 26) (word ++ text),
      length-append word text,
    )

pub scalars-size :
    (v w : ℕ)
    → v < 2 ^ 64
    → w < 2 ^ 64
    → (2 ≤ length (scalars_bytes v w)) × (length (scalars_bytes v w) ≤ 32)
scalars-size v w h k = omega (
  arith,
  unsigned-size v h,
  signed-size w k,
  length-append (unsigned_bytes v) (signed_bytes w ++ []),
  length-append (signed_bytes w) [],
)

pub scalars_text-size :
    (v w : ℕ) (text : List ℕ)
    → v < 2 ^ 64
    → w < 2 ^ 64
    → length text ≤ 8
    → (2 ≤ length (scalars_text_bytes v w text)) × (length (scalars_text_bytes v w text) ≤ 64)
scalars_text-size v w text h k l = omega (
  arith,
  unsigned-size v h,
  signed-size w k,
  text-size text l,
  length-append (unsigned_bytes v) (signed_bytes w ++ (text_bytes text ++ [])),
  length-append (signed_bytes w) (text_bytes text ++ []),
  length-append (text_bytes text) [],
)

-- What the visitors are told.
pub scalars-told :
    (v w : ℕ) → told_all (scalars v w) (0, []) ≡ Event.unsigned 1 v ∷ Event.signed 2 w ∷ []
unfolding told_all told spec
scalars-told v w = refl

pub scalars_text-told :
    (v w : ℕ) (text : List ℕ)
    → told_all (scalars_text v w text) (0, []) ≡ (
        Event.unsigned 1 v
        ∷ Event.signed 2 w
        ∷ Event.fixlen_begin 3 FixlenType.str (length text)
        ∷ Event.string 3 (length text) 0 text
        ∷ [])
unfolding told_all told spec
scalars_text-told v w text = refl
