-- ===== src/OStream/Perform.antt =====
-- src/ostream.rs: the writers, as the calls of one client.
use corelib_rs_no_std.Common.{List, [], ◌∷◌}
use corelib_rs_no_std.OStream.Handover.{Flush, Handoff}
use corelib_rs_no_std.OStream.Stream.{Write, ◌>>◌, done}
use corelib_rs_no_std.OStream.Fields
use corelib_rs_no_std.OStream.Spec.{Op}

module _ {S : Type 0} (F : Flush S) (H : Handoff S) where
  unfoldable pub perform : Op → Write S
  unfolding Fields.write_unsigned Fields.write_signed Fields.write_boolean Fields.write_fp32
      Fields.write_fp64 Fields.write_str Fields.write_blob Fields.write_fixlen
      Fields.write_array_unsigned Fields.write_array_signed Fields.write_array_fp32
      Fields.write_array_fp64 Fields.write_sequence_begin_lazy Fields.write_sequence_end
      Fields.write_sequence_end_keep
  perform (Op.unsigned id v) = Fields.write_unsigned F H id v
  perform (Op.signed id v) = Fields.write_signed F H id v
  perform (Op.boolean id b) = Fields.write_boolean F H id b
  perform (Op.fp32 id bits) = Fields.write_fp32 F H id bits
  perform (Op.fp64 id bits) = Fields.write_fp64 F H id bits
  perform (Op.str id text) = Fields.write_str F H id text
  perform (Op.blob id bytes) = Fields.write_blob F H id bytes
  perform (Op.fixlen id bytes subtype) = Fields.write_fixlen F H id bytes subtype
  perform (Op.array_unsigned id xs) = Fields.write_array_unsigned F H (λ x. x) id xs
  perform (Op.array_signed width id xs) =
      Fields.write_array_signed F H (Fields.widen_signed width) id xs
  perform (Op.array_fp32 id xs) = Fields.write_array_fp32 F H id xs
  perform (Op.array_fp64 id xs) = Fields.write_array_fp64 F H id xs
  perform (Op.sequence_begin id) = Fields.write_sequence_begin_lazy F H id
  perform Op.sequence_end = Fields.write_sequence_end F H
  perform Op.sequence_end_keep = Fields.write_sequence_end_keep F H

  -- Call after call, up to the first that fails (`?`).
  unfoldable pub perform_all : List Op → Write S
  unfolding perform
  perform_all [] = done
  perform_all (op ∷ ops) = perform op >> perform_all ops
