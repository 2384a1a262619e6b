-- ===== src/Tests.antt =====
-- The theorems at concrete inputs.
pub mod Codec
pub mod Toy
pub mod Inputs
pub mod Vaults
pub mod Parts
pub mod Secrets
pub mod Tokens
pub mod AuditToy
pub mod Audits
pub mod Unlocks
pub mod Checks
