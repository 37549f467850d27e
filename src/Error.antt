-- ===== src/Error.antt =====
-- src/error.rs: the error codes of the encoder and the decoder, and `Result`.

pub data Error : Type 0 where
  argument buffer_full invalid_msg limit_exceeded : Error

pub data Result {ℓ} (A : Type ℓ) : Type ℓ where
  ok : A → Result A
  err : Error → Result A

-- Rust's `()`.
abbrev pub Nothing : Type 0
Nothing = Unit {0}
