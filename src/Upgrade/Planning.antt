-- ===== src/Upgrade/Planning.antt =====
-- internal/services/upgrade/plan.go: the plan that takes a cluster to its target version.
pub mod Steps
pub mod Skew
pub mod Gate
pub mod Hops
