-- ===== src/Unlock.antt =====
-- Unlocking of keys: a key's passphrase, wrapped into slots by a user's passphrase or by a token.
pub mod Slot
pub mod Secret
pub mod Store
pub mod Service
pub mod Unlocking
pub mod Enrolment
