-- ===== src/Security.antt =====
-- The security package: secure buffers, key derivation, authenticated encryption.
pub mod Buffers
pub mod Environment
pub mod Entropy
pub mod Kdf
pub mod Aead
pub mod Policy
