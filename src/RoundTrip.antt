-- ===== src/RoundTrip.antt =====
-- src/istream.rs behind src/ostream.rs: the decoder on what the encoder puts out.
pub mod Words
pub mod Leads
pub mod Payloads
pub mod Boundary
pub mod Lengths
pub mod Scalars
pub mod Elements
pub mod Floats
pub mod Told
pub mod Messages
pub mod RawFloats
pub mod Calls
pub mod Message
pub mod Fixed
mod Tests
