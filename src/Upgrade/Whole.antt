-- ===== src/Upgrade/Whole.antt =====
-- internal/services/upgrade: the engine over the three phases of the service.
pub mod Upgraded
use refresh.Prelude.{ℕ, List}
use refresh.Text.{Text}
use refresh.Eks.{Platform}
use refresh.Upgrade.Engine.{Executors}
use refresh.Upgrade.ControlPlane.{upgrade_control_plane}
use refresh.Upgrade.Addons.{upgrade_addons}
use refresh.Upgrade.Nodegroups.{NodegroupRollOptions, upgrade_nodegroups}

-- The functions that `phases` binds into the phases, with the options of the run.
unfoldable pub service_executors :
    {W : Type 0}
    → Platform W
    → (fuel interval : ℕ) → (skip_addons : List Text) → NodegroupRollOptions W
    → Executors W
service_executors p fuel interval skip_addons roll = record {
  upgrade_control_plane = λ name to. upgrade_control_plane p fuel interval name to;
  upgrade_addons = λ name to. upgrade_addons p fuel interval name to skip_addons;
  upgrade_nodegroups = λ name to. upgrade_nodegroups p fuel interval name roll to;
}
