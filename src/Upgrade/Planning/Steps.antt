-- ===== src/Upgrade/Planning/Steps.antt =====
-- internal/services/upgrade/plan.go: the steps of a hop for the control plane, the addons and the
-- nodegroups.
use refresh.Prelude.{ℕ, List, [], ◌∷◌, if◌then◌else◌}
use refresh.Prelude.Int.{pos, leb_ℤ}
use refresh.Text.{Text, txt, concat}
use refresh.Go.{error_text, M, Outcome, returned, failed, unfinished, pure, ◌>>=◌}
use refresh.Eks.{ClusterStatus, Platform}
use refresh.Addons.Versions.{AddonVersionInfo, compare_versions}
use refresh.Addons.Service.{AddonSummary, get_available_versions}
use refresh.Upgrade.Version.{version_at_least}
use refresh.Upgrade.Types.{
  control_plane, addon, nodegroup, pending, completed, blocked, manual, Step,
}
use refresh.Upgrade.Service.{NodegroupState, matches_any}

pub record PlanOptions : Type 0 where
  pub skip_addons : List Text
  pub skip_nodegroups : List Text

-- `controlPlaneStep`
unfoldable pub control_plane_step : (live_version hop_to : Text) → ClusterStatus → Step
control_plane_step live_version hop_to status =
    let step : Step = record {
      type = control_plane;
      description = concat (txt "control plane → " ∷ hop_to ∷ []);
      target = [];
      version = hop_to;
      status = pending;
      reason = [];
    } in
    if version_at_least live_version hop_to
    then record step {
      status = completed;
      reason = concat (txt "control plane already at " ∷ live_version ∷ []);
    }
    else elim status [
      | ClusterStatus.updating ↦ record step {
        reason = txt "an update is already in progress; the orchestrator will attach and watch";
      }
      | _ ↦ step
    ]

-- The step of one nodegroup: the cases of the `switch` in `nodegroupSteps`.
unfoldable pub nodegroup_step : Text → List Text → NodegroupState → Step
nodegroup_step hop_to skip ng =
    let step : Step = record {
      type = nodegroup;
      description = concat (txt "nodegroup " ∷ ng.name ∷ txt " → " ∷ hop_to ∷ []);
      target = ng.name;
      version = hop_to;
      status = pending;
      reason = [];
    } in
    if version_at_least ng.version hop_to
    then record step { status = completed; reason = concat (txt "already at " ∷ ng.version ∷ []) }
    else if matches_any ng.name skip
    then record step { status = manual; reason = txt "skipped via --skip-nodegroup" }
    else if ng.custom_ami
    then record step {
      status = manual;
      reason = concat (
          txt "custom AMI nodegroup: build and roll a "
          ∷ hop_to
          ∷ txt "-compatible AMI yourself"
          ∷ []);
    }
    else step

-- `nodegroupSteps`
unfoldable pub nodegroup_steps : List NodegroupState → Text → List Text → List Step
unfolding nodegroup_step
nodegroup_steps [] hop_to skip = []
nodegroup_steps (ng ∷ ngs) hop_to skip =
    nodegroup_step hop_to skip ng ∷ nodegroup_steps ngs hop_to skip

addon_start : Text → AddonSummary → Step
addon_start hop_to a = record {
  type = addon;
  description = concat (txt "addon " ∷ a.name ∷ txt " → latest compatible with " ∷ hop_to ∷ []);
  target = a.name;
  version = [];
  status = pending;
  reason = [];
}

-- The step of an addon for which a version was chosen.
unfoldable pub addon_chosen : Text → AddonSummary → Text → Step
unfolding addon_start
addon_chosen hop_to a chosen =
    let step : Step = record (addon_start hop_to a) {
      version = chosen;
      description = concat (
          txt "addon "
          ∷ a.name
          ∷ txt " → "
          ∷ chosen
          ∷ txt " (compatible with "
          ∷ hop_to
          ∷ txt ")"
          ∷ []);
    } in
    if leb_ℤ (pos 0) (compare_versions a.version chosen)
    then record step { status = completed; reason = concat (txt "already at " ∷ a.version ∷ []) }
    else step

-- The step of an addon behind the call for its versions. The list is never empty there.
addon_result : Text → AddonSummary → Outcome (List AddonVersionInfo) → Outcome Step
unfolding addon_chosen
addon_result hop_to a (returned []) = unfinished
addon_result hop_to a (returned (v ∷ vs)) = returned (addon_chosen hop_to a v.version)
addon_result hop_to a unfinished = unfinished
addon_result hop_to a (failed e) = returned (record (addon_start hop_to a) {
  status = blocked;
  reason = concat (
      txt "no version of "
      ∷ a.name
      ∷ txt " is compatible with "
      ∷ hop_to
      ∷ txt ": "
      ∷ error_text e
      ∷ []);
})

addon_skipped : Text → AddonSummary → Step
unfolding addon_start
addon_skipped hop_to a = record (addon_start hop_to a) {
  status = manual;
  reason = txt "skipped via --skip (managed out-of-band)";
}

module _ {W : Type 0} (p : Platform W) (fuel : ℕ) where
  -- One round of `addonSteps`.
  unfoldable pub addon_step : Text → List Text → AddonSummary → M W Step
  unfolding addon_result addon_skipped
  addon_step hop_to skip a w =
      if matches_any a.name skip
      then (returned (addon_skipped hop_to a), w)
      else let (r, v) = get_available_versions p fuel a.name hop_to w in
        (addon_result hop_to a r, v)

  -- `addonSteps`
  unfoldable pub addon_steps : List AddonSummary → Text → List Text → M W (List Step)
  unfolding addon_step
  addon_steps [] hop_to skip = pure []
  addon_steps (a ∷ addons) hop_to skip = do
    step ← addon_step hop_to skip a
    rest ← addon_steps addons hop_to skip
    pure (step ∷ rest)
