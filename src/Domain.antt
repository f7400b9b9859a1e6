-- ===== src/Domain.antt =====
-- internal/domain.
pub mod Errors
pub mod Documents
pub mod Set
