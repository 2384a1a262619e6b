-- ===== src/Audit.antt =====
-- The audit log: which payloads it takes, how it writes and verifies its records, and the chain
-- that they form.
pub mod Secrets
pub mod Record
pub mod Log
pub mod Verify
pub mod Chain
