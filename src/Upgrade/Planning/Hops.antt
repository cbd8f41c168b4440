-- ===== src/Upgrade/Planning/Hops.antt =====
-- internal/services/upgrade/plan.go: the hops of a plan, and the plan.
pub mod Chain
use mathlib.Core.List.{reverse}
use refresh.Prelude.{
  ℕ, zero, suc, ◌+◌, ◌≡◌, refl, Bool, true, false, not, ◌&&◌, ◌||◌, List, [], ◌∷◌, ◌++◌, Option,
  none, some, if◌then◌else◌, length,
}
use refresh.Prelude.Int.{ℤ, pos, negsuc, ◌-ℤ◌, ltb_ℤ, leb_ℤ, wrap_int}
use refresh.Text.{Text, txt, concat, text_eq, join}
use refresh.Text.Decimal.{format_nat}
use refresh.Go.{
  GoError, plain, error_text, Result, ok, err, M, Outcome, returned, failed, unfinished, pure,
  throw, of_result, and_then, ◌>>=◌, ◌>>◌,
}
use refresh.Common.Retry.{default_retry_config, with_retry}
use refresh.Aws.Pages.{list_all_pages}
use refresh.Eks.{Cluster, ClusterStatus, Insight, InsightStatus, Eks, Platform}
use refresh.Addons.Versions.{AddonVersionInfo, compare_versions}
use refresh.Addons.Service.{AddonSummary, get_available_versions, list_addons}
use refresh.Addons.Dependency.{sort_by_dependency}
use refresh.Upgrade.Version.{minor_version, version_at_least, expand_hops}
use refresh.Upgrade.Types.{
  StepType, StepStatus, readiness, control_plane, addon, nodegroup, pending, completed, blocked,
  manual, Step, Hop, Plan, is_nil,
}
use refresh.Upgrade.Service.{NodegroupState, matches_any, describe_cluster, list_nodegroup_states}
use refresh.Upgrade.Planning.Skew.{Simulation, simulate, advance}
use refresh.Upgrade.Planning.Gate.{readiness_step}
use refresh.Upgrade.Planning.Steps.{PlanOptions, control_plane_step, nodegroup_steps, addon_steps}

offered : Text → List Text → Bool
offered target [] = false
offered target (v ∷ vs) = text_eq v target || offered target vs

-- The answer to whether EKS offers the target: the warnings of the plan, or an error.
offer_result : Text → Outcome (List Text) → Outcome (List Text)
unfolding offered
offer_result target (returned versions) =
    if offered target versions
    then returned []
    else failed (plain (concat (txt "version " ∷ target ∷ txt " is not offered by EKS" ∷ [])))
offer_result target unfinished = unfinished
offer_result target (failed e) = returned (
    concat
      (txt "could not verify that EKS offers " ∷ target ∷ txt " (continuing): " ∷ error_text e ∷ [])
    ∷ [])

module _ {W : Type 0} (p : Platform W) (fuel : ℕ) where
  -- `checkVersionOffered`: the warning that it adds to the plan, if it adds one.
  unfoldable pub check_version_offered : Text → M W (List Text)
  unfolding offer_result
  check_version_offered target w =
      let (r, v) =
        with_retry p.env default_retry_config (p.eks.describe_cluster_versions target) w in
      (offer_result target r, v)

  -- The steps of one hop, and the warnings that they add to the plan.
  unfoldable pub hop_steps :
      (name : Text)
      → Cluster
      → List NodegroupState
      → List AddonSummary
      → PlanOptions
      → Text
      → Simulation
      → M W (List Step × List Text)
  hop_steps name cluster ngs addons opts hop_to sim = do
    (ready, warnings) ← readiness_step p fuel name hop_to ngs sim
    addon_part ← addon_steps p fuel addons hop_to opts.skip_addons
    pure (
      ready ∷ control_plane_step cluster.version hop_to cluster.status ∷ addon_part
          ++ nodegroup_steps ngs hop_to opts.skip_nodegroups,
      warnings,
    )

  -- The hop, in front of those that follow.
  add_hop :
      (from hop_to : Text) → List Step × List Text → List Hop × List Text → List Hop × List Text
  add_hop from hop_to (steps, warnings) (rest, more) =
      (record { from = from; to = hop_to; steps = steps } ∷ rest, warnings ++ more)

  -- The loop over the hops: `from` is the target of the hop before, or the current version.
  unfoldable pub plan_hops :
      (name : Text)
      → Cluster
      → List NodegroupState
      → List AddonSummary
      → PlanOptions
      → (from : Text) → List Text
      → Simulation
      → M W (List Hop × List Text)
  unfolding add_hop
  plan_hops name cluster ngs addons opts from [] sim = pure ([], [])
  plan_hops name cluster ngs addons opts from (hop_to ∷ hops) sim = do
    made ← hop_steps name cluster ngs addons opts hop_to sim
    rest ←
        plan_hops name cluster ngs addons opts hop_to hops
          (advance hop_to opts.skip_nodegroups ngs sim)
    pure (add_hop from hop_to made rest)

  abbrev pub hops_or_target : Text → List Text → List Text
  hops_or_target target [] = target ∷ []
  hops_or_target target (hop ∷ hops) = hop ∷ hops

  of_hops : Option (Result (List Text)) → M W (List Text)
  of_hops none w = (unfinished, w)
  of_hops (some r) w = (of_result r, w)

  of_order : Option (List AddonSummary) → M W (List AddonSummary)
  of_order none w = (unfinished, w)
  of_order (some addons) w = (returned addons, w)

  -- `BuildPlan`, in the order of its calls.
  module _ (name target : Text) (opts : PlanOptions) where
    make_plan : Cluster → (warnings : List Text) → List Hop × List Text → Plan
    make_plan c warnings (planned, more) = record {
      cluster_name = name;
      current_version = c.version;
      target_version = target;
      hops = planned;
      warnings = warnings ++ more;
    }

    plan_installed :
        Cluster
        → (hops : List Text) (warnings : List Text) → List NodegroupState
        → List AddonSummary
        → M W Plan
    unfolding of_order make_plan
    plan_installed c hops warnings ngs installed = do
      addons ← of_order (sort_by_dependency installed)
      planned ←
          plan_hops name c ngs addons opts c.version (hops_or_target target hops)
            (simulate (λ n. []) ngs)
      pure (make_plan c warnings planned)

    plan_nodegroups :
        Cluster → (hops : List Text) (warnings : List Text) → List NodegroupState → M W Plan
    unfolding plan_installed
    plan_nodegroups c hops warnings ngs = do
      installed ← list_addons p fuel false name
      plan_installed c hops warnings ngs installed

    plan_offered : Cluster → (hops : List Text) (warnings : List Text) → M W Plan
    unfolding plan_nodegroups
    plan_offered c hops warnings = do
      ngs ← list_nodegroup_states p fuel name
      plan_nodegroups c hops warnings ngs

    plan_between : Cluster → (hops : List Text) → M W Plan
    unfolding plan_offered
    plan_between c hops = do warnings ← check_version_offered target; plan_offered c hops warnings

    plan_cluster : Cluster → M W Plan
    unfolding of_hops plan_between
    plan_cluster c = do hops ← of_hops (expand_hops c.version target); plan_between c hops

    unfoldable pub build_plan : M W Plan
    unfolding plan_cluster
    build_plan = do c ← describe_cluster p fuel name; plan_cluster c
