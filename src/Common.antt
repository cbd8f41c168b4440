-- ===== src/Common.antt =====
-- The helpers that the services share, internal/services/common.
pub mod Retry
pub mod Paginate
pub mod TtlCache
