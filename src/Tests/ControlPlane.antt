-- ===== src/Tests/ControlPlane.antt =====
-- Upgrades of the control plane and of the nodegroups of a small cloud.
use refresh.Prelude.{◌≡◌, refl, false, List, [], ◌∷◌, none}
use refresh.Text.{Text, txt, text_eq, contains, trim_space}
use refresh.Text.Split.{split_n, cut}
use refresh.Text.Decimal.{atoi}
use refresh.Go.{returned}
use refresh.Common.Retry.{with_retry}
use refresh.Upgrade.Version.{version_at_least, minor_version}
use refresh.Upgrade.Service.{NodegroupState, describe_cluster, wait_for_update, matches_any}
use refresh.Upgrade.ControlPlane.{wait_active, upgrade_control_plane, id_of}
use refresh.Upgrade.ControlPlane.Postcondition.{Reached, upgrade_control_plane-Reached}
use refresh.Upgrade.Planning.Steps.{nodegroup_steps}
use refresh.Upgrade.Nodegroups.{NodegroupRollOptions, gated_roll, roll_all}
use refresh.Upgrade.Nodegroups.Rolls.{pending_targets, each, roll_all-each}
use refresh.Tests.Cloud.{Cloud, cloud, at}

abbrev moved : Cloud
moved = record { version = txt "1.32"; started = txt "prod" ∷ [] }

moves :
    upgrade_control_plane cloud 9 1 (txt "prod") (txt "1.32") (at (txt "1.31"))
    ≡ (returned tt, moved)
unfolding upgrade_control_plane wait_active wait_for_update describe_cluster with_retry
    version_at_least text_eq minor_version split_n cut trim_space atoi id_of
moves = refl

upgrade_control_plane-Reached_example : Reached cloud 9 1 (txt "prod") (txt "1.32") moved
upgrade_control_plane-Reached_example =
    upgrade_control_plane-Reached cloud 9 1 (txt "prod") (txt "1.32") (at (txt "1.31")) moved moves

abbrev group : Text → Text → NodegroupState
group name version = record {
  name = name;
  version = version;
  ami_type = txt "AL2023_x86_64_STANDARD";
  status = txt "ACTIVE";
  custom_ami = false;
}

abbrev groups : List NodegroupState
groups =
    group (txt "blue") (txt "1.31")
    ∷ group (txt "green") (txt "1.32")
    ∷ group (txt "gpu") (txt "1.31")
    ∷ []

abbrev opts : NodegroupRollOptions Cloud
opts = record { skip_patterns = txt "gp" ∷ []; force = false; gate = none; observer = none }

one_rolled :
    roll_all cloud 9 1 (txt "prod") opts (txt "1.32") groups (at (txt "1.32"))
    ≡ (returned tt, record { version = txt "1.32"; started = txt "blue" ∷ [] })
unfolding roll_all id_of gated_roll minor_version split_n cut trim_space atoi version_at_least
    wait_for_update with_retry text_eq matches_any contains
one_rolled = refl

roll_all-each_example :
    roll_all cloud 9 1 (txt "prod") opts (txt "1.32") groups (at (txt "1.32"))
    ≡ each
        (gated_roll cloud 9 1 (txt "prod") opts (txt "1.32"))
        (pending_targets (nodegroup_steps groups (txt "1.32") opts.skip_patterns))
        (at (txt "1.32"))
roll_all-each_example =
    roll_all-each cloud 9 1 (txt "prod") opts (txt "1.32") groups (at (txt "1.32"))
