-- ===== src/Smoke.antt =====
-- .github/smoke: the two programs that use the packaged crate.
pub mod Baremetal
pub mod Probe
pub mod Host
pub mod Written
pub mod Returns
pub mod Slices
pub mod Bytes
pub mod Passes
mod Tests
