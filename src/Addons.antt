-- ===== src/Addons.antt =====
-- internal/services/addons: the order of versions, the order of updates, and the updates.
pub mod Versions
pub mod Service
pub mod Health
pub mod Update
pub mod UpdateAll
pub mod Dependency
