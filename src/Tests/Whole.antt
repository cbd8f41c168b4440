-- ===== src/Tests/Whole.antt =====
-- The addon phase alone, and a whole run, on a small cloud with one addon.
use refresh.Prelude.{ℕ, ◌≡◌, refl, true, false, List, [], ◌∷◌, ◌++◌, Option, none, some}
use refresh.Text.{Text, txt}
use refresh.Go.{Outcome, returned}
use refresh.Eks.{AddonStatus, AddonVersion, Platform}
use refresh.Addons.Service.{AddonSummary, list_addons}
use refresh.Addons.Dependency.{sort_by_dependency}
use refresh.Addons.Health.{Memo}
use refresh.Addons.Update.{UpdateOptions, AddonUpdateResult, update_addon}
use refresh.Addons.Update.Completed.{Healthy, update_addon-Healthy}
use refresh.Upgrade.Types.{StepType, control_plane, addon, pending, Step, Plan, is_plan_blocked}
use refresh.Upgrade.Engine.{
  ExecuteOptions, pending_labels, phases, only_completed, execute, Execution,
}
use refresh.Upgrade.Nodegroups.{NodegroupRollOptions}
use refresh.Upgrade.Addons.{upgrade_addons}
use refresh.Upgrade.Addons.Ready.{EachReady, upgrade_addons-EachReady}
use refresh.Upgrade.Whole.{service_executors}
use refresh.Upgrade.Whole.Upgraded.{HopsDone, execute-HopsDone}
use refresh.Tests.Cloud.{Cloud, eks, cloud, at}

-- The addon is at the new version as soon as anything was started.
abbrev addon_version : List Text → Text
addon_version [] = txt "1"
addon_version (s ∷ ss) = txt "2"

abbrev listed : Text → AddonVersion
listed v = record {
  version = v;
  compatibilities = [];
  architecture = [];
  requires_iam_permissions = false;
}

abbrev pub with_addon : Platform Cloud
with_addon = record cloud {
  eks = record eks {
    list_addons = λ name next w. (returned (record { items = txt "coredns" ∷ []; next = none }), w);
    describe_addon = λ cluster name w. (
      returned (
          some (record {
            name = name;
            version = addon_version w.started;
            status = AddonStatus.active;
            issues = [];
          })),
      w,
    );
    describe_addon_versions = λ name version next w. (
      returned (record { items = record { versions = listed (txt "2") ∷ [] } ∷ []; next = none }),
      w,
    );
  };
}

abbrev phase : Outcome Unit × Cloud
phase = upgrade_addons with_addon 9 1 (txt "prod") (txt "1.31") [] (at (txt "1.31"))

phase_returns : phase ≡ (returned tt, phase.1)
unfolding upgrade_addons list_addons refresh.Common.Retry.with_retry sort_by_dependency
    refresh.Text.text_eq refresh.Upgrade.Service.matches_any refresh.Upgrade.Addons.chosen_version
    refresh.Addons.Service.get_available_versions refresh.Addons.Update.first_version
    refresh.Addons.Versions.sort_newest refresh.Addons.Versions.is_newer
    refresh.Addons.Versions.compare_versions refresh.Addons.Versions.compare_segments
    refresh.Addons.Versions.segments refresh.Text.Split.fields_func refresh.Text.trim_prefix
    refresh.Text.trim_space refresh.Addons.Versions.is_separator
    refresh.Addons.Versions.compare_segment refresh.Addons.Versions.compare_parsed
    refresh.Text.Decimal.atoi refresh.Prelude.Int.◌-ℤ◌ refresh.Prelude.Int.wrap_int
    refresh.Upgrade.Addons.current_addon refresh.Addons.Service.addon_status
    refresh.Upgrade.Addons.converge_addon update_addon refresh.Addons.Health.cluster_k8s_version
    refresh.Addons.Update.resolve_version refresh.Addons.Update.is_latest
    refresh.Addons.Health.validate_version_compatibility refresh.Addons.Health.has_version
    refresh.Addons.Update.installed_version refresh.Addons.Health.pre_update_health_check
    refresh.Addons.Update.submit_update refresh.Addons.Update.await_update
    refresh.Addons.Update.wait_until_active refresh.Addons.Update.wait_for_addon_update
    refresh.Addons.Health.post_update_health_check refresh.Addons.Health.checked_post
    refresh.Addons.Health.status_error refresh.Addons.Update.with_health
    refresh.Aws.Pages.list_all_pages refresh.Common.Paginate.paginate
    refresh.Addons.Health.pre_update_error
phase_returns = refl

upgrade_addons-EachReady_example :
    (installed addons : List AddonSummary) × (v : Cloud) × (list_addons with_addon 9 false
        (txt "prod")
        (at (txt "1.31"))
      ≡ (returned installed, v))
    × (sort_by_dependency installed ≡ some addons)
    × EachReady with_addon 9 1 (txt "prod") (txt "1.31") [] addons v phase.1
upgrade_addons-EachReady_example =
    upgrade_addons-EachReady with_addon 9 1 (txt "prod") (txt "1.31") [] (at (txt "1.31")) phase.1
      phase_returns

abbrev waited : UpdateOptions
waited = record {
  version = txt "2";
  configuration = [];
  health_check = true;
  dry_run = false;
  wait = true;
  wait_timeout = 5;
}

abbrev pub first_memo : Memo
first_memo name = none

abbrev updated : Outcome AddonUpdateResult × (Memo × Cloud)
updated =
    update_addon with_addon 9 1 (txt "prod") (txt "coredns") waited (first_memo, at (txt "1.31"))

abbrev update_done : AddonUpdateResult
update_done = record {
  addon_name = txt "coredns";
  previous_version = txt "1";
  new_version = txt "2";
  update_id = txt "u-1";
  status = txt "COMPLETED";
  health_issues = [];
}

update_returns : updated ≡ (returned update_done, updated.1)
unfolding upgrade_addons list_addons refresh.Common.Retry.with_retry sort_by_dependency
    refresh.Text.text_eq refresh.Upgrade.Service.matches_any refresh.Upgrade.Addons.chosen_version
    refresh.Addons.Service.get_available_versions refresh.Addons.Update.first_version
    refresh.Addons.Versions.sort_newest refresh.Addons.Versions.is_newer
    refresh.Addons.Versions.compare_versions refresh.Addons.Versions.compare_segments
    refresh.Addons.Versions.segments refresh.Text.Split.fields_func refresh.Text.trim_prefix
    refresh.Text.trim_space refresh.Addons.Versions.is_separator
    refresh.Addons.Versions.compare_segment refresh.Addons.Versions.compare_parsed
    refresh.Text.Decimal.atoi refresh.Prelude.Int.◌-ℤ◌ refresh.Prelude.Int.wrap_int
    refresh.Upgrade.Addons.current_addon refresh.Addons.Service.addon_status
    refresh.Upgrade.Addons.converge_addon update_addon refresh.Addons.Health.cluster_k8s_version
    refresh.Addons.Update.resolve_version refresh.Addons.Update.is_latest
    refresh.Addons.Health.validate_version_compatibility refresh.Addons.Health.has_version
    refresh.Addons.Update.installed_version refresh.Addons.Health.pre_update_health_check
    refresh.Addons.Update.submit_update refresh.Addons.Update.await_update
    refresh.Addons.Update.wait_until_active refresh.Addons.Update.wait_for_addon_update
    refresh.Addons.Health.post_update_health_check refresh.Addons.Health.checked_post
    refresh.Addons.Health.status_error refresh.Addons.Update.with_health
    refresh.Aws.Pages.list_all_pages refresh.Common.Paginate.paginate
    refresh.Addons.Health.pre_update_error
update_returns = refl

update_addon-Healthy_example : Healthy with_addon 9 1 (txt "prod") (txt "coredns") updated.1.1
update_addon-Healthy_example =
    update_addon-Healthy with_addon 9 1 (txt "prod") (txt "coredns") waited refl refl update_done
      (first_memo, at (txt "1.31")) updated.1 update_returns refl

abbrev step_for : StepType → Step
step_for t = record {
  type = t;
  description = txt "step";
  target = [];
  version = txt "1.32";
  status = pending;
  reason = [];
}

abbrev one_hop : Plan
one_hop = record {
  cluster_name = txt "prod";
  current_version = txt "1.31";
  target_version = txt "1.32";
  hops =
      record {
        from = txt "1.31";
        to = txt "1.32";
        steps = step_for control_plane ∷ step_for addon ∷ [];
      }
      ∷ [];
  warnings = [];
}

abbrev plain_roll : NodegroupRollOptions Cloud
plain_roll = record { skip_patterns = []; force = false; gate = none; observer = none }

abbrev unattended : ExecuteOptions Cloud
unattended = record { yes_to_all = true; confirm = none }

abbrev run : Execution Cloud
run =
    execute with_addon.env (service_executors with_addon 9 1 [] plain_roll) unattended one_hop
      (at (txt "1.31"))

run_free : is_plan_blocked one_hop ≡ false
unfolding is_plan_blocked
run_free = refl

run_ends : run ≡ (
  only_completed (pending_labels (phases (service_executors with_addon 9 1 [] plain_roll) one_hop)),
  returned tt,
  run.2,
)
unfolding execute service_executors pending_labels is_plan_blocked
    refresh.Upgrade.ControlPlane.upgrade_control_plane refresh.Upgrade.ControlPlane.wait_active
    refresh.Upgrade.Service.wait_for_update refresh.Upgrade.Service.describe_cluster
    refresh.Common.Retry.with_retry refresh.Upgrade.Version.version_at_least refresh.Text.text_eq
    refresh.Upgrade.Version.minor_version refresh.Text.Split.split_n refresh.Text.Split.cut
    refresh.Text.trim_space refresh.Text.Decimal.atoi refresh.Upgrade.ControlPlane.id_of
    upgrade_addons list_addons sort_by_dependency refresh.Upgrade.Service.matches_any
    refresh.Upgrade.Addons.chosen_version refresh.Addons.Service.get_available_versions
    refresh.Addons.Update.first_version refresh.Addons.Versions.sort_newest
    refresh.Addons.Versions.is_newer refresh.Addons.Versions.compare_versions
    refresh.Addons.Versions.compare_segments refresh.Addons.Versions.segments
    refresh.Text.Split.fields_func refresh.Text.trim_prefix refresh.Addons.Versions.is_separator
    refresh.Addons.Versions.compare_segment refresh.Addons.Versions.compare_parsed
    refresh.Prelude.Int.◌-ℤ◌ refresh.Prelude.Int.wrap_int refresh.Upgrade.Addons.current_addon
    refresh.Addons.Service.addon_status refresh.Upgrade.Addons.converge_addon update_addon
    refresh.Addons.Health.cluster_k8s_version refresh.Addons.Update.resolve_version
    refresh.Addons.Update.is_latest refresh.Addons.Health.validate_version_compatibility
    refresh.Addons.Health.has_version refresh.Addons.Update.installed_version
    refresh.Addons.Health.pre_update_health_check refresh.Addons.Update.submit_update
    refresh.Addons.Update.await_update refresh.Addons.Update.wait_until_active
    refresh.Addons.Update.wait_for_addon_update refresh.Addons.Health.post_update_health_check
    refresh.Addons.Health.checked_post refresh.Addons.Health.status_error
    refresh.Addons.Update.with_health refresh.Aws.Pages.list_all_pages
    refresh.Common.Paginate.paginate refresh.Addons.Health.pre_update_error
run_ends = refl

execute-HopsDone_example :
    HopsDone with_addon 9 1 [] plain_roll
      (txt "prod")
      unattended
      one_hop.hops
      (at (txt "1.31"))
      run.2
execute-HopsDone_example =
    execute-HopsDone with_addon 9 1 [] plain_roll unattended one_hop (at (txt "1.31")) run.2
      run_free run_ends
