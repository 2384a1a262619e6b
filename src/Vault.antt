-- ===== src/Vault.antt =====
-- Vault files: the binary frame, the key slots, the payload, and the create and open flows.
pub mod Format
pub mod Payload
pub mod KeySlots
pub mod Encrypt
pub mod Open
pub mod Sidecar
pub mod Cards
