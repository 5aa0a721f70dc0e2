-- ===== src/Shared.antt =====
-- shared/: the row types and the errors.
pub mod Types
pub mod Failure
