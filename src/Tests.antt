-- ===== src/Tests.antt =====
-- Runs of the definitions on small inputs, and the theorems at such inputs.
mod Text
mod Retry
mod Version
mod Engine
mod Addons
mod Cloud
mod ControlPlane
mod Planning
mod Paginate
mod Available
mod Cache
mod UpdateAll
mod Whole
mod Health
mod Noderoll
mod Updates
mod Contexts
mod Support
