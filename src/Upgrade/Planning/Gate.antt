-- ===== src/Upgrade/Planning/Gate.antt =====
-- internal/services/upgrade/plan.go: the readiness step of a hop.
pub mod Readiness
use mathlib.Core.List.{reverse}
use refresh.Prelude.{
  ℕ, zero, suc, ◌+◌, ◌≡◌, refl, Bool, true, false, not, ◌&&◌, ◌||◌, List, [], ◌∷◌, ◌++◌, Option,
  none, some, if◌then◌else◌, length,
}
use refresh.Prelude.Int.{ℤ, pos, negsuc, ◌-ℤ◌, ltb_ℤ, leb_ℤ, wrap_int}
use refresh.Text.{Text, txt, concat, text_eq, join}
use refresh.Text.Decimal.{format_nat}
use refresh.Go.{
  GoError, plain, error_text, Result, ok, err, M, Outcome, returned, failed, unfinished, pure,
  throw, of_result, and_then, ◌>>=◌, ◌>>◌,
}
use refresh.Common.Retry.{default_retry_config, with_retry}
use refresh.Aws.Pages.{list_all_pages}
use refresh.Eks.{Cluster, ClusterStatus, Insight, InsightStatus, Eks, Platform}
use refresh.Addons.Versions.{AddonVersionInfo, compare_versions}
use refresh.Addons.Service.{AddonSummary, get_available_versions, list_addons}
use refresh.Addons.Dependency.{sort_by_dependency}
use refresh.Upgrade.Version.{minor_version, version_at_least, expand_hops}
use refresh.Upgrade.Types.{
  StepType, StepStatus, readiness, control_plane, addon, nodegroup, pending, completed, blocked,
  manual, Step, Hop, Plan, is_nil,
}
use refresh.Upgrade.Service.{NodegroupState, matches_any, describe_cluster, list_nodegroup_states}
use refresh.Upgrade.Planning.Skew.{Simulation, skew_violations}

insight_name : Insight → Text
insight_name i = if text_eq i.name [] then i.id else i.name

-- The names of the insights that are errors, and of those that are warnings.
unfoldable pub sort_insights : List Insight → List Text × List Text
unfolding insight_name
sort_insights [] = ([], [])
sort_insights (i ∷ is) =
    let (errors, warnings) = sort_insights is in
    elim i.status [
      | some InsightStatus.error ↦ (insight_name i ∷ errors, warnings)
      | some InsightStatus.warning ↦ (errors, insight_name i ∷ warnings)
      | _ ↦ (errors, warnings)
    ]

readiness_start : Text → Step
readiness_start hop_to = record {
  type = readiness;
  description = concat (txt "readiness for " ∷ hop_to ∷ txt " (insights + version skew)" ∷ []);
  target = [];
  version = hop_to;
  status = pending;
  reason = [];
}

-- The gate behind the insights: the step, and the warning that it adds to the plan.
unfoldable pub insights_gate : Text → Step → List Insight → Step × List Text
unfolding sort_insights
insights_gate hop_to step insights =
    let (errors, warnings) = sort_insights insights in
    elim (is_nil errors) [
      | false ↦ (
        record step {
          status = blocked;
          reason = concat (
              format_nat (length errors)
              ∷ txt " blocking insight(s): "
              ∷ join (txt ", ") errors
              ∷ []);
        },
        [],
      )
      | true ↦ elim (is_nil warnings) [
        | false ↦ (
          record step {
            reason = concat (
                format_nat (length warnings)
                ∷ txt " insight warning(s): "
                ∷ join (txt ", ") warnings
                ∷ []);
          },
          concat (txt "insight warnings for " ∷ hop_to ∷ txt ": " ∷ join (txt ", ") warnings ∷ [])
              ∷ [],
        )
        | true ↦ (record step { reason = txt "0 blocking insights; skew OK" }, [])
      ]
    ]

-- The gate behind the call for the insights; a failed call is a warning.
insights_result : Text → Step → Outcome (List Insight) → Outcome (Step × List Text)
unfolding insights_gate
insights_result hop_to step (returned insights) = returned (insights_gate hop_to step insights)
insights_result hop_to step unfinished = unfinished
insights_result hop_to step (failed e) = returned (
  record step { reason = txt "insights unavailable; skew OK" },
  concat (
        txt "cluster insights unavailable for "
        ∷ hop_to
        ∷ txt " (continuing): "
        ∷ error_text e
        ∷ [])
      ∷ [],
)

module _ {W : Type 0} (p : Platform W) (fuel : ℕ) where
  -- `listUpgradeInsights`
  unfoldable pub list_upgrade_insights : Text → Text → M W (List Insight)
  unfolding list_all_pages
  list_upgrade_insights cluster version =
      list_all_pages p.env fuel
        (concat (txt "listing upgrade insights for cluster " ∷ cluster ∷ []))
        (p.eks.list_insights cluster version)

  -- The gates of `readinessStep` behind the target's minor version: the skew, and the insights.
  readiness_gates : (violations : List Text) (cluster hop_to : Text) → M W (Step × List Text)
  unfolding insights_result readiness_start
  readiness_gates (violation ∷ violations) cluster hop_to w = (
    returned (
      record (readiness_start hop_to) {
        status = blocked;
        reason = join (txt "; ") (violation ∷ violations);
      },
      [],
    ),
    w,
  )
  readiness_gates [] cluster hop_to w =
      let (r, v) = list_upgrade_insights cluster hop_to w in
      (insights_result hop_to (readiness_start hop_to) r, v)

  readiness_against :
      Result ℤ → (cluster hop_to : Text) → List NodegroupState → Simulation → M W (Step × List Text)
  unfolding readiness_gates readiness_start
  readiness_against (err e) cluster hop_to ngs sim w = (
    returned (record (readiness_start hop_to) { status = blocked; reason = error_text e }, []),
    w,
  )
  readiness_against (ok hop_minor) cluster hop_to ngs sim w =
      readiness_gates (skew_violations hop_minor hop_to sim ngs) cluster hop_to w

  -- `readinessStep`: the step, and the warnings that it adds to the plan.
  unfoldable pub readiness_step :
      (cluster hop_to : Text) → List NodegroupState → Simulation → M W (Step × List Text)
  unfolding readiness_against
  readiness_step cluster hop_to ngs sim =
      readiness_against (minor_version hop_to) cluster hop_to ngs sim
