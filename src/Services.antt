-- ===== src/Services.antt =====
-- The services' checks of user input.
pub mod Validation
