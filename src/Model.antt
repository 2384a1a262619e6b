-- ===== src/Model.antt =====
-- The domain models (gpg_meister/models): records, and the validators that pydantic runs when a
-- record is built or read.
pub mod KdfParams
pub mod Fields
pub mod KeySlot
pub mod VaultHeader
pub mod Manifest
