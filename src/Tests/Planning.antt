-- ===== src/Tests/Planning.antt =====
-- A plan for a small cloud, two minors behind its target.
use refresh.Prelude.{◌≡◌, refl, false, true, List, [], ◌∷◌, some}
use refresh.Prelude.Int.{wrap_int}
use refresh.Text.{Text, txt, text_eq, trim_space}
use refresh.Text.Split.{split_n, cut}
use refresh.Text.Decimal.{atoi, format_int, format_nat}
use refresh.Aws.Pages.{list_all_pages}
use refresh.Addons.Service.{list_addons}
use refresh.Addons.Dependency.{sort_by_dependency}
use refresh.Go.{Outcome, returned, failed, unfinished, ok}
use refresh.Common.Retry.{with_retry}
use refresh.Eks.{Cluster}
use refresh.Upgrade.Version.{minor_version, version_at_least, expand_hops, hops_from, hop_name}
use refresh.Upgrade.Types.{Step, Plan, blocked, readiness}
use refresh.Upgrade.Service.{NodegroupState, describe_cluster, list_nodegroup_states}
use refresh.Upgrade.Planning.Steps.{PlanOptions, addon_steps}
use refresh.Upgrade.Planning.Skew.{Simulation, advance, skew_violations, violates_skew, simulate}
use refresh.Upgrade.Planning.Hops.{build_plan, check_version_offered, plan_hops, hop_steps}
use refresh.Upgrade.Planning.Gate.{readiness_step, list_upgrade_insights}
use refresh.Upgrade.Planning.Hops.Chain.{PlanFor, build_plan-PlanFor}
use refresh.Upgrade.Planning.Skew.Advance.{AtTarget, advance-AtTarget}
use refresh.Tests.Cloud.{Cloud, cloud, at}

abbrev opts : PlanOptions
opts = record { skip_addons = []; skip_nodegroups = txt "green" ∷ [] }

abbrev planned_run : Outcome Plan × Cloud
planned_run = build_plan cloud 9 (txt "prod") (txt "1.32") opts (at (txt "1.31"))

abbrev empty_plan : Plan
empty_plan = record {
  cluster_name = [];
  current_version = [];
  target_version = [];
  hops = [];
  warnings = [];
}

abbrev plan_of : Outcome Plan → Plan
plan_of (returned plan) = plan
plan_of (failed e) = empty_plan
plan_of unfinished = empty_plan

planned : planned_run ≡ (returned (plan_of planned_run.0), at (txt "1.31"))
unfolding build_plan describe_cluster with_retry expand_hops hops_from hop_name minor_version
    split_n cut trim_space atoi wrap_int check_version_offered list_nodegroup_states list_addons
    sort_by_dependency plan_hops hop_steps readiness_step version_at_least text_eq list_all_pages
    format_int format_nat skew_violations violates_skew simulate list_upgrade_insights addon_steps
planned = refl

build_plan-PlanFor_example :
    (c : Cluster) × (v : Cloud) × (hops : List Text) × (describe_cluster cloud 9
        (txt "prod")
        (at (txt "1.31"))
      ≡ (returned c, v))
    × (expand_hops c.version (txt "1.32") ≡ some (ok hops))
    × PlanFor cloud 9 (txt "prod") (txt "1.32") opts c hops (plan_of planned_run.0)
build_plan-PlanFor_example =
    build_plan-PlanFor cloud 9 (txt "prod") (txt "1.32") opts (at (txt "1.31")) (at (txt "1.31"))
      (plan_of planned_run.0) planned

abbrev group : Text → NodegroupState
group version = record {
  name = txt "blue";
  version = version;
  ami_type = [];
  status = txt "ACTIVE";
  custom_ami = false;
}

abbrev behind : Simulation
behind = simulate (λ n. []) (group (txt "1.31") ∷ [])

abbrev ready : Outcome (Step × List Text) × Cloud
ready =
    readiness_step cloud 9 (txt "prod") (txt "1.32") (group (txt "1.31") ∷ []) behind
      (at (txt "1.31"))

abbrev no_step : Step × List Text
no_step = (
  record {
    type = readiness;
    description = [];
    target = [];
    version = [];
    status = blocked;
    reason = [];
  },
  [],
)

abbrev result_of : Outcome (Step × List Text) → Step × List Text
result_of (returned r) = r
result_of (failed e) = no_step
result_of unfinished = no_step

at_itself : version_at_least (txt "1.32") (txt "1.32") ≡ true
unfolding version_at_least minor_version split_n cut trim_space atoi
at_itself = refl

advance-AtTarget_example :
    AtTarget
      (txt "1.32")
      (txt "green" ∷ [])
      (group (txt "1.31") ∷ [])
      (advance (txt "1.32") (txt "green" ∷ []) (group (txt "1.31") ∷ []) behind)
advance-AtTarget_example =
    advance-AtTarget (txt "1.32") (txt "green" ∷ []) at_itself (group (txt "1.31") ∷ []) behind
