-- ===== src/Tests/UpdateAll.antt =====
-- The update of all addons, on a small cloud with one addon.
use refresh.Prelude.{ℕ, ◌≡◌, refl, true, false, List, [], ◌∷◌, Option, none, some}
use refresh.Text.{Text, txt}
use refresh.Go.{Outcome, returned}
use refresh.Addons.Service.{AddonSummary, list_addons}
use refresh.Addons.Dependency.{sort_by_dependency}
use refresh.Addons.Health.{Memo}
use refresh.Addons.Update.{AddonUpdateResult, update_addon}
use refresh.Addons.UpdateAll.{
  UpdateAllOptions, update_ordered, update_listed, not_skipped, in_update_order, update_all,
  update_each, update_one, as_result, in_skip_set,
}
use refresh.Addons.UpdateAll.Updated.{Updated, update_all-Updated}
use refresh.Tests.Cloud.{Cloud, at}
use refresh.Tests.Whole.{with_addon, first_memo}

abbrev in_order : UpdateAllOptions
in_order = record {
  dry_run = false;
  parallel = false;
  health_check = true;
  wait = true;
  wait_timeout = 5;
  skip_addons = txt "VPC-CNI" ∷ [];
  dependency_order = true;
}

abbrev done_result : AddonUpdateResult
done_result = record {
  addon_name = txt "coredns";
  previous_version = txt "1";
  new_version = txt "2";
  update_id = txt "u-1";
  status = txt "COMPLETED";
  health_issues = [];
}

abbrev all_run : Outcome (List AddonUpdateResult) × (Memo × Cloud)
all_run = update_all with_addon 9 (txt "prod") in_order (first_memo, at (txt "1.31"))

all_returns : all_run ≡ (returned (done_result ∷ []), all_run.1)
unfolding refresh.Aws.Errors.to_lower refresh.Aws.Errors.lower_char update_all update_listed
    update_ordered update_each update_one as_result in_update_order not_skipped in_skip_set
    sort_by_dependency refresh.Addons.Service.list_addons refresh.Common.Retry.with_retry
    refresh.Text.text_eq refresh.Addons.Service.get_available_versions
    refresh.Addons.Update.first_version refresh.Addons.Versions.sort_newest
    refresh.Addons.Versions.is_newer refresh.Addons.Versions.compare_versions
    refresh.Addons.Versions.compare_segments refresh.Addons.Versions.segments
    refresh.Text.Split.fields_func refresh.Text.trim_prefix refresh.Text.trim_space
    refresh.Addons.Versions.is_separator refresh.Addons.Versions.compare_segment
    refresh.Addons.Versions.compare_parsed refresh.Text.Decimal.atoi refresh.Prelude.Int.◌-ℤ◌
    refresh.Prelude.Int.wrap_int refresh.Addons.Service.addon_status
    refresh.Addons.Update.update_addon refresh.Addons.Health.cluster_k8s_version
    refresh.Addons.Update.resolve_version refresh.Addons.Update.is_latest
    refresh.Addons.Health.validate_version_compatibility refresh.Addons.Health.has_version
    refresh.Addons.Update.installed_version refresh.Addons.Health.pre_update_health_check
    refresh.Addons.Update.submit_update refresh.Addons.Update.await_update
    refresh.Addons.Update.wait_until_active refresh.Addons.Update.wait_for_addon_update
    refresh.Addons.Health.post_update_health_check refresh.Addons.Health.checked_post
    refresh.Addons.Health.status_error refresh.Addons.Update.with_health
    refresh.Aws.Pages.list_all_pages refresh.Common.Paginate.paginate
    refresh.Addons.Health.pre_update_error
all_returns = refl

update_all-Updated_example :
    (addons ordered : List AddonSummary) × (v : Cloud) × (list_addons with_addon 9 false
        (txt "prod")
        (at (txt "1.31"))
      ≡ (returned addons, v))
    × (in_update_order with_addon 9 (txt "prod") in_order (not_skipped in_order.skip_addons addons)
        ≡ some ordered)
    × Updated with_addon 9 (txt "prod") in_order ordered (done_result ∷ []) v all_run.1.1
update_all-Updated_example =
    update_all-Updated with_addon 9 (txt "prod") in_order refl refl refl (done_result ∷ [])
      (first_memo, at (txt "1.31")) all_run.1 all_returns
