-- ===== src/Upgrade.antt =====
-- The upgrade orchestrator, internal/services/upgrade.
pub mod Version
pub mod Types
pub mod Service
pub mod Planning
pub mod ControlPlane
pub mod Nodegroups
pub mod Engine
pub mod Addons
pub mod Whole
