-- ===== src/Seq/Bounds.antt =====
-- src/seq.rs: the two comparisons with a bound.
use corelib_rs_no_std.Common.{ℕ, zero, suc, ◌+◌, ◌≡◌, arith}
use corelib_rs_no_std.Seq.{Bound, check_index, check_len}

-- `check_index` gives an id the verdict that `check_len` gives the length of an array that ends with it.
pub check_index-check_len :
    (id : ℕ) (bound : Bound) → check_index id bound ≡ check_len (id + 1) bound
unfolding check_index check_len
check_index-check_len id (Bound.schema n) = ground arith
check_index-check_len id (Bound.cap zero) = ground arith
check_index-check_len id (Bound.cap (suc n)) = ground arith
