-- ===== src/RoundTrip/Calls.antt =====
-- src/istream.rs on src/ostream.rs: the decoder over what a run of calls puts out.
use corelib_rs_no_std.Common.{ℕ, refl, arith, if◌then◌else◌, List, [], ◌∷◌, ◌++◌, All}
use corelib_rs_no_std.Error.{Result, ok, err}
use corelib_rs_no_std.Types.{
  FixlenType, t_varint_unsigned, t_varint_signed, t_fixlen, t_varintarray_unsigned,
  t_varintarray_signed, t_fixlenarray,
}
use corelib_rs_no_std.IStream.State.{Event}
use corelib_rs_no_std.OStream.Spec.{Op, Frames, InRange, spec, spec_all, and_spec, behind_bytes}
use corelib_rs_no_std.RoundTrip.Boundary.{Reads-append}
use corelib_rs_no_std.RoundTrip.Scalars.{
  unsigned-Reads, signed-Reads, text-Reads, fp32-Reads, fp64-Reads,
}
use corelib_rs_no_std.RoundTrip.Elements.{array_unsigned-Reads, array_signed-Reads}
use corelib_rs_no_std.RoundTrip.Floats.{array_fp32-Reads, array_fp64-Reads}
use corelib_rs_no_std.RoundTrip.RawFloats.{four-Reads, eight-Reads}
use corelib_rs_no_std.RoundTrip.Told.{begins, told_fixlen, told, told_next, told_all, Sized}
use corelib_rs_no_std.RoundTrip.Messages.{
  IsSound, framed, Tells, Reads-nil, field-Tells, begin-Tells, close-Tells, end-Tells,
}

fixlen-Tells :
    (id : ℕ) (bytes : List ℕ) (subtype : FixlenType) (depth : ℕ) (held : List ℕ)
    → IsSound (depth, held)
    → InRange (Op.fixlen id bytes subtype)
    → Sized (Op.fixlen id bytes subtype)
    → Tells
        (depth, held)
        (spec (Op.fixlen id bytes subtype) (depth, held))
        (begins held ++ told_fixlen id bytes subtype)
unfolding spec
fixlen-Tells id bytes FixlenType.fp32 depth held v r z =
    field-Tells id t_fixlen _ depth held _ v (λ k. four-Reads depth id k bytes z r.0)
fixlen-Tells id bytes FixlenType.fp64 depth held v r z =
    field-Tells id t_fixlen _ depth held _ v (λ k. eight-Reads depth id k bytes z r.0)
fixlen-Tells id bytes FixlenType.str depth held v r z = tt
fixlen-Tells id bytes FixlenType.blob depth held v r z =
    field-Tells id t_fixlen _ depth held _ v
      (λ k. text-Reads depth id k FixlenType.blob bytes refl r.0 r.1)

-- What an accepted call puts out is read as the calls that it stands for.
pub op-Tells :
    (op : Op) (depth : ℕ) (held : List ℕ)
    → IsSound (depth, held)
    → InRange op
    → Sized op
    → Tells (depth, held) (spec op (depth, held)) (told op (depth, held))
unfolding spec told
op-Tells (Op.unsigned id x) d held v r z =
    field-Tells id t_varint_unsigned _ d held _ v (λ k. unsigned-Reads d id k x r)
op-Tells (Op.signed id x) d held v r z =
    field-Tells id t_varint_signed _ d held _ v (λ k. signed-Reads d id k x r)
op-Tells (Op.boolean id b) d held v r z =
    field-Tells id t_varint_unsigned _ d held _ v
      (λ k. unsigned-Reads d id k (if b then 1 else 0) (ground arith))
op-Tells (Op.fp32 id bits) d held v r z =
    field-Tells id t_fixlen _ d held _ v (λ k. fp32-Reads d id k bits r)
op-Tells (Op.fp64 id bits) d held v r z =
    field-Tells id t_fixlen _ d held _ v (λ k. fp64-Reads d id k bits r)
op-Tells (Op.str id text) d held v r z =
    field-Tells id t_fixlen _ d held _ v (λ k. text-Reads d id k FixlenType.str text refl r.0 r.1)
op-Tells (Op.blob id bytes) d held v r z =
    field-Tells id t_fixlen _ d held _ v (λ k. text-Reads d id k FixlenType.blob bytes refl r.0 r.1)
op-Tells (Op.fixlen id bytes subtype) d held v r z = fixlen-Tells id bytes subtype d held v r z
op-Tells (Op.array_unsigned id xs) d held v r z =
    field-Tells id t_varintarray_unsigned _ d held _ v (λ k. array_unsigned-Reads d id k xs r.0 r.1)
op-Tells (Op.array_signed width id xs) d held v r z =
    field-Tells id t_varintarray_signed _ d held _ v
      (λ k. array_signed-Reads d id k width xs r.0 r.1)
op-Tells (Op.array_fp32 id xs) d held v r z =
    field-Tells id t_fixlenarray _ d held _ v (λ k. array_fp32-Reads d id k xs r.0 r.1)
op-Tells (Op.array_fp64 id xs) d held v r z =
    field-Tells id t_fixlenarray _ d held _ v (λ k. array_fp64-Reads d id k xs r.0 r.1)
op-Tells (Op.sequence_begin id) d held v r z = begin-Tells id d held v
op-Tells Op.sequence_end d held v r z = end-Tells d held v
op-Tells Op.sequence_end_keep d held v r z = close-Tells d held v

-- One call in front of a run.
next-Tells :
    (fr : Frames) (r : Result (List ℕ × Frames)) (rest : Frames → Result (List ℕ × Frames))
    (events : List Event) (more : Frames → List Event)
    → Tells fr r events
    → ((fr' : Frames) → IsSound fr' → Tells fr' (rest fr') (more fr'))
    → Tells fr (and_spec r rest) (told_next events r more)
next-Tells fr (err e) rest events more p h = tt
next-Tells fr (ok (bytes, fr')) rest events more p h = joined (rest fr') (h fr' p.1)
  where
    joined :
        (q : Result (List ℕ × Frames))
        → Tells fr' q (more fr')
        → Tells fr (behind_bytes bytes q) (events ++ more fr')
    joined (err e) t = tt
    joined (ok (ys, fr'')) t = (Reads-append p.0 t.0, t.1)

pub every-Tells :
    (ops : List Op) (fr : Frames)
    → IsSound fr
    → All InRange ops
    → All Sized ops
    → Tells fr (spec_all ops fr) (told_all ops fr)
unfolding spec_all told_all
every-Tells [] fr v r z = (Reads-nil (framed fr), v)
every-Tells (op ∷ ops) fr v r z =
    next-Tells fr (spec op fr) (spec_all ops) (told op fr) (told_all ops)
      (op-Tells op fr.0 fr.1 v r.0 z.0) (λ fr' v'. every-Tells ops fr' v' r.1 z.1)
