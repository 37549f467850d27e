-- ===== src/OStream.antt =====
-- src/ostream.rs: the streaming encoder. `Handover`, `Stream` and `Fields` hold the code; the other
-- children prove what it does.
pub mod Handover
pub mod Stream
pub mod Fields
pub mod Wrote
pub mod Drain
pub mod Push
pub mod Spec
pub mod Commit
pub mod Field
pub mod Arrays
pub mod Sequences
pub mod Perform
pub mod Refine
pub mod Construct
pub mod Flushing
pub mod Replace
pub mod Channel
mod Tests
mod BufferTests
