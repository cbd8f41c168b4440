-- ===== src/Upgrade/Addons.antt =====
-- internal/services/upgrade/addons.go: the addons move to the versions for the target, one by one.
pub mod Ready
use refresh.Prelude.{ℕ, Bool, true, false, List, [], ◌∷◌, Option, none, some, if◌then◌else◌}
use refresh.Prelude.Int.{pos, leb_ℤ}
use refresh.Text.{Text, txt, concat, text_eq}
use refresh.Go.{
  GoError, plain, error_text, M, Outcome, returned, failed, unfinished, pure, throw, ◌>>=◌, ◌>>◌,
  map_failure,
}
use refresh.Eks.{AddonStatus, Platform}
use refresh.Addons.Versions.{AddonVersionInfo, compare_versions}
use refresh.Addons.Service.{AddonSummary, list_addons, get_available_versions, addon_status}
use refresh.Addons.Dependency.{sort_by_dependency}
use refresh.Addons.Health.{wrap_with, Memo, lifted}
use refresh.Addons.Update.{
  UpdateOptions, AddonUpdateResult, wait_until_active, first_version, update_addon,
}
use refresh.Upgrade.Service.{matches_any}

-- `addonWaitTimeout`, 20 minutes.
abbrev pub addon_wait_timeout : ℕ
addon_wait_timeout = 1200000000000

abbrev pub phase_options : Text → UpdateOptions
phase_options chosen = record {
  version = chosen;
  configuration = [];
  health_check = true;
  dry_run = false;
  wait = true;
  wait_timeout = addon_wait_timeout;
}

-- The texts in front of the errors of one addon.
abbrev pub about : Text → List Text → Text
about name rest = concat (txt "addon " ∷ name ∷ txt ": " ∷ concat rest ∷ [])

abbrev pub in_flight : AddonStatus → Bool
in_flight AddonStatus.creating = true
in_flight AddonStatus.updating = true
in_flight _ = false

module _ {W : Type 0} (p : Platform W) (fuel interval : ℕ) (cluster target : Text) where
  attach : (name : Text) → M W Unit
  attach name w =
      map_failure (wrap_with (about name (txt "waiting for in-flight update to finish" ∷ [])))
        (wait_until_active p fuel interval cluster name addon_wait_timeout w)

  version_of : Text × AddonStatus → M W Text
  version_of (current, status) = pure current

  status_behind : (name what : Text) → M W (Text × AddonStatus)
  status_behind name what w =
      map_failure (wrap_with (about name (what ∷ []))) (addon_status p fuel cluster name w)

  reread : (name : Text) → M W Text
  unfolding status_behind version_of
  reread name = status_behind name (txt "reading status after attach") >>= version_of

  -- The installed version, behind any update that a run before has left in flight.
  settled : (name : Text) → Text × AddonStatus → M W Text
  unfolding attach reread
  settled name (current, status) =
      if in_flight status then (attach name >> reread name) else pure current

  unfoldable pub chosen_version : (name : Text) → M W Text
  chosen_version name = do
    vs ← λ w.
        map_failure (wrap_with (about name (txt "no version compatible with " ∷ target ∷ [])))
          (get_available_versions p fuel name target w)
    first_version p fuel interval vs

  unfoldable pub current_addon : (name : Text) → M W Text
  unfolding settled status_behind
  current_addon name = status_behind name (txt "reading status") >>= settled name

  -- The gate behind an update: its health issues stop the phase.
  healthy : (name chosen : Text) → AddonUpdateResult → M (Memo × W) Unit
  healthy name chosen result =
      if text_eq result.health_issues []
      then pure tt
      else throw (
          plain (
            concat (
              txt "addon "
              ∷ name
              ∷ txt " updated to "
              ∷ chosen
              ∷ txt " but failed its health gate: "
              ∷ result.health_issues
              ∷ [])))

  run_update : (name chosen : Text) → M (Memo × W) AddonUpdateResult
  run_update name chosen w =
      map_failure
        (wrap_with (concat (txt "addon " ∷ name ∷ txt " update to " ∷ chosen ∷ txt " failed" ∷ [])))
        (update_addon p fuel interval cluster name (phase_options chosen) w)

  unfoldable pub converge_addon : (name chosen current : Text) → M (Memo × W) Unit
  unfolding run_update healthy
  converge_addon name chosen current =
      if leb_ℤ (pos 0) (compare_versions current chosen)
      then pure tt
      else (run_update name chosen >>= healthy name chosen)

  toward : (name chosen : Text) → M (Memo × W) Unit
  unfolding converge_addon
  toward name chosen = lifted (current_addon name) >>= converge_addon name chosen

  -- One round of the loop of `UpgradeAddons`, for an addon that is not skipped.
  unfoldable pub upgrade_addon : (name : Text) → M (Memo × W) Unit
  unfolding toward
  upgrade_addon name = lifted (chosen_version name) >>= toward name

  -- The loop of `UpgradeAddons`.
  unfoldable pub upgrade_each : (skip : List Text) → List AddonSummary → M (Memo × W) Unit
  unfolding upgrade_addon
  upgrade_each skip [] = pure tt
  upgrade_each skip (a ∷ addons) =
      let rest = upgrade_each skip addons in
      if matches_any a.name skip then rest else (upgrade_addon a.name >> rest)

  ordered : Option (List AddonSummary) → M W (List AddonSummary)
  ordered none w = (unfinished, w)
  ordered (some addons) w = (returned addons, w)

  -- A service that has seen no cluster.
  abbrev pub no_memo : Memo
  no_memo name = none

  forget : Outcome Unit × (Memo × W) → Outcome Unit × W
  forget (r, (memo, w)) = (r, w)

  in_order : (skip : List Text) → List AddonSummary → M W Unit
  unfolding upgrade_each forget
  in_order skip addons w = forget (upgrade_each skip addons (no_memo, w))

  sorted : (skip : List Text) → List AddonSummary → M W Unit
  unfolding in_order ordered
  sorted skip installed = ordered (sort_by_dependency installed) >>= in_order skip

  -- `UpgradeAddons`
  unfoldable pub upgrade_addons : (skip : List Text) → M W Unit
  unfolding sorted
  upgrade_addons skip = list_addons p fuel false cluster >>= sorted skip
