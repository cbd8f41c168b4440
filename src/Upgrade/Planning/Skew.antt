-- ===== src/Upgrade/Planning/Skew.antt =====
-- internal/services/upgrade/plan.go: the versions that the nodegroups will have, and the kubelet skew.
pub mod Advance
use mathlib.Core.List.{reverse}
use refresh.Prelude.{
  ℕ, zero, suc, ◌+◌, ◌≡◌, refl, Bool, true, false, not, ◌&&◌, ◌||◌, List, [], ◌∷◌, ◌++◌, Option,
  none, some, if◌then◌else◌, length,
}
use refresh.Prelude.Int.{ℤ, pos, negsuc, ◌-ℤ◌, ltb_ℤ, leb_ℤ, wrap_int}
use refresh.Text.{Text, txt, concat, text_eq, join}
use refresh.Text.Decimal.{format_nat}
use refresh.Go.{
  GoError, plain, error_text, Result, ok, err, M, Outcome, returned, failed, unfinished, pure,
  throw, of_result, and_then, ◌>>=◌, ◌>>◌,
}
use refresh.Common.Retry.{default_retry_config, with_retry}
use refresh.Aws.Pages.{list_all_pages}
use refresh.Eks.{Cluster, ClusterStatus, Insight, InsightStatus, Eks, Platform}
use refresh.Addons.Versions.{AddonVersionInfo, compare_versions}
use refresh.Addons.Service.{AddonSummary, get_available_versions, list_addons}
use refresh.Addons.Dependency.{sort_by_dependency}
use refresh.Upgrade.Version.{minor_version, version_at_least, expand_hops}
use refresh.Upgrade.Types.{
  StepType, StepStatus, readiness, control_plane, addon, nodegroup, pending, completed, blocked,
  manual, Step, Hop, Plan, is_nil,
}
use refresh.Upgrade.Service.{NodegroupState, matches_any, describe_cluster, list_nodegroup_states}

-- `kubeletSkew`
abbrev pub kubelet_skew : ℤ
kubelet_skew = pos 3

-- `simNodegroups`: the version that each nodegroup will have, by its name.
abbrev pub Simulation : Type 0
Simulation = Text → Text

abbrev pub assign : Simulation → Text → Text → Simulation
assign sim name version n = if text_eq name n then version else sim n

unfoldable pub simulate : Simulation → List NodegroupState → Simulation
simulate sim [] = sim
simulate sim (ng ∷ ngs) = simulate (assign sim ng.name ng.version) ngs

-- The nodegroups that a hop rolls stand at its target from then on.
unfoldable pub advance : Text → List Text → List NodegroupState → Simulation → Simulation
advance hop_to skip [] sim = sim
advance hop_to skip (ng ∷ ngs) sim = advance hop_to skip ngs (
    if not ng.custom_ami
      && not (matches_any ng.name skip)
      && not (version_at_least (sim ng.name) hop_to)
    then assign sim ng.name hop_to
    else sim)

-- The nodegroup stays further behind than the kubelet may. `hopMinor-ngMinor` wraps.
unfoldable pub violates_skew : ℤ → Text → Bool
violates_skew hop_minor sim_version = elim (minor_version sim_version) [
  | err e ↦ false
  | ok ng_minor ↦ ltb_ℤ kubelet_skew (wrap_int (hop_minor -ℤ ng_minor))
]

skew_message : Text → Text → Text → Text
skew_message name version hop_to = concat (
    txt "nodegroup "
    ∷ name
    ∷ txt " at "
    ∷ version
    ∷ txt " would exceed the kubelet skew limit (3 minors) against "
    ∷ hop_to
    ∷ [])

unfoldable pub skew_violations : ℤ → Text → Simulation → List NodegroupState → List Text
unfolding skew_message
skew_violations hop_minor hop_to sim [] = []
skew_violations hop_minor hop_to sim (ng ∷ ngs) =
    let rest = skew_violations hop_minor hop_to sim ngs in
    if violates_skew hop_minor (sim ng.name)
    then skew_message ng.name (sim ng.name) hop_to ∷ rest
    else rest
