-- ===== src/Domain.antt =====
-- backend/internal/domain: the vocabulary of statuses and records, and the lifecycle tables.
pub mod Types
pub mod Texts
pub mod Records
pub mod Audit
pub mod Catalogue
pub mod Lifecycle
