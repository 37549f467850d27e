-- ===== src/IStream.antt =====
-- src/istream.rs: the streaming decoder. `State` holds the data, `Push`, `Step` and `Feed` the code;
-- the other children prove what it does.
pub mod State
pub mod Push
pub mod Step
pub mod Feed
pub mod Digit
pub mod Bytewise
pub mod Bulk
pub mod FeedRun
pub mod Chunks
pub mod Interface
pub mod Deliver
pub mod Protocol
pub mod Orderly
pub mod InOrder
pub mod Verdicts
pub mod Progress
pub mod Ends
pub mod Halves
pub mod Word
pub mod Valid
pub mod Preserve
mod Tests
mod FeedTests
