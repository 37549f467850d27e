-- ===== src/Build.antt =====
-- src/lib.rs: the build's configuration, and the macro `require!`, over the Cargo features that the
-- crate is compiled with.
use corelib_rs_no_std.Common.{ℕ, ◌==◌, if◌then◌else◌, ◌||◌, ◌&&◌, Bool, true, false, List, [], ◌∷◌}
pub mod Decoder
pub mod Narrower
pub mod Compiled
pub mod Within
pub mod Foreign
pub mod Enough
pub mod Required
mod Tests

-- The features that a client asks for.
pub record Features : Type 0 where
  pub fixlen : Bool
  pub array : Bool
  pub sequence : Bool
  pub fp64 : Bool
  pub value64 : Bool

-- The constructs of the wire that are compiled in.
pub record Wire : Type 0 where
  pub fixlen : Bool
  pub array : Bool
  pub sequence : Bool
  pub fp64 : Bool

-- `mod config`
pub record Config : Type 0 where
  pub fixlen : Bool
  pub array : Bool
  pub sequence : Bool
  pub fp64 : Bool
  pub value_bits : ℕ

-- The configuration that `cfg!` reads; the feature `fp64` turns `fixlen` on.
abbrev pub config : Features → Config
config f = record {
  fixlen = f.fixlen || f.fp64;
  array = f.array;
  sequence = f.sequence;
  fp64 = f.fp64;
  value_bits = if f.value64 then 64 else 32;
}

abbrev pub wire : Config → Wire
wire c = record { fixlen = c.fixlen; array = c.array; sequence = c.sequence; fp64 = c.fp64 }

-- The arguments of `require!`.
pub data Capability : Type 0 where
  fixlen array sequence fp64 value32 value64 : Capability

-- One assertion, and the arm for several.
unfoldable pub require_one : Capability → Config → Bool
require_one Capability.fixlen c = c.fixlen
require_one Capability.array c = c.array
require_one Capability.sequence c = c.sequence
require_one Capability.fp64 c = c.fp64
require_one Capability.value32 c = c.value_bits == 32
require_one Capability.value64 c = c.value_bits == 64

unfoldable pub require : List Capability → Config → Bool
unfolding require_one
require [] c = true
require (cap ∷ caps) c = require_one cap c && require caps c
