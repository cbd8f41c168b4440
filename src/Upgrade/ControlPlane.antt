-- ===== src/Upgrade/ControlPlane.antt =====
-- internal/services/upgrade/controlplane.go: the control plane moves to the target version.
pub mod Postcondition
use refresh.Prelude.{
  ℕ, zero, suc, ◌≡◌, refl, Bool, true, false, List, [], ◌∷◌, Option, none, some, if◌then◌else◌,
}
use refresh.Text.{Text, txt, concat, text_eq}
use refresh.Go.{
  GoError, plain, M, Outcome, returned, failed, unfinished, pure, throw, and_then, ◌>>=◌, ◌>>◌,
  map_failure,
}
use refresh.Common.Retry.{default_retry_config, with_retry}
use refresh.Aws.Errors.{format_aws_error}
use refresh.Eks.{Cluster, ClusterStatus, Update, Eks, Platform}
use refresh.Upgrade.Version.{version_at_least}
use refresh.Upgrade.Service.{describe_cluster, wait_for_update}

-- `updateID`: the empty text where the answer holds no update.
unfoldable pub id_of : Option Update → Text
id_of none = []
id_of (some u) = u.id

module _ {W : Type 0} (p : Platform W) (fuel interval : ℕ) where
  -- The loop of `waitForClusterActive`; `fuel` bounds its rounds.
  unfoldable pub wait_active : (rounds : ℕ) → Text → M W Unit
  wait_active zero name w = (unfinished, w)
  wait_active (suc rounds) name w =
      let (r, v) = describe_cluster p fuel name w in
      let (ended, u) = p.env.sleep interval v in
      let again = λ (x : W). wait_active rounds name x in
      elim r [
        | failed e ↦ (failed e, v)
        | unfinished ↦ (unfinished, v)
        | returned c ↦ elim c.status [
          | ClusterStatus.active ↦ (returned tt, v)
          | ClusterStatus.failed ↦ (
            failed (plain (concat (txt "cluster " ∷ name ∷ txt " entered FAILED status" ∷ []))),
            v,
          )
          | _ ↦ elim ended [ some e ↦ (failed e, u) | none ↦ again u ]
        ]
      ]

  wait_update : (name target id : Text) → M W Unit
  wait_update name target id =
      if text_eq id []
      then pure tt
      else wait_for_update p fuel fuel interval
          (record { cluster_name = name; nodegroup_name = none; update_id = id })
          (concat (txt "control plane upgrade to " ∷ target ∷ []))

  -- The gate behind the update: the cluster has to report the target version.
  check_reached : Text → Cluster → M W Unit
  check_reached target c =
      if version_at_least c.version target
      then pure tt
      else throw (
          plain (
            concat (
              txt "control plane reports version "
              ∷ c.version
              ∷ txt " after the upgrade to "
              ∷ target
              ∷ txt " finished"
              ∷ [])))

  -- The gate behind the wait: one more description.
  final_check : (name target : Text) → M W Unit
  unfolding check_reached
  final_check name target = do c ← describe_cluster p fuel name; check_reached target c

  -- The request, with a token that stays the same for every attempt.
  submit : (name target : Text) → M W (Option Update)
  submit name target w =
      let (token, v) = p.new_token w in
      map_failure
        (λ e.
          format_aws_error e
            (concat (txt "upgrading control plane of " ∷ name ∷ txt " to " ∷ target ∷ [])))
        (with_retry p.env default_retry_config (p.eks.update_cluster_version name target token) v)

  -- Behind the request: both waits, and the gate.
  settle : (name target : Text) → Option Update → M W Unit
  unfolding wait_update final_check wait_active
  settle name target out =
      wait_update name target (id_of out) >> (wait_active fuel name >> final_check name target)

  -- The version upgrade itself: start it, wait for it, and check what the cluster reports then.
  unfoldable pub start_upgrade : (name target : Text) → M W Unit
  unfolding submit settle
  start_upgrade name target = submit name target >>= settle name target

  -- The description behind an attached wait: the version may have been reached by it.
  second_look : (name target : Text) → M W Unit
  unfolding start_upgrade
  second_look name target = do
    c ← describe_cluster p fuel name
    if version_at_least c.version target then pure tt else start_upgrade name target

  -- An update is in flight: attach to it.
  after_attach : (name target : Text) → M W Unit
  unfolding second_look
  after_attach name target = wait_active fuel name >> second_look name target

  -- Behind the first description.
  converge : (name target : Text) → Cluster → M W Unit
  unfolding after_attach start_upgrade
  converge name target c = if version_at_least c.version target then pure tt else elim c.status [
    | ClusterStatus.updating ↦ after_attach name target
    | _ ↦ start_upgrade name target
  ]

  -- `UpgradeControlPlane`
  unfoldable pub upgrade_control_plane : (name target : Text) → M W Unit
  unfolding converge
  upgrade_control_plane name target = do c ← describe_cluster p fuel name; converge name target c
