-- ===== src/Addons/Update.antt =====
-- internal/services/addons: the update of an addon (service.go), and the wait for it
-- (version_analyzer.go).
pub mod Completed
use refresh.Prelude.{
  ℕ, zero, suc, Bool, true, false, List, [], ◌∷◌, Option, none, some, ◌&&◌, ◌||◌, ◌==◌, leb, ltb,
  ◌+◌, if◌then◌else◌,
}
use refresh.Text.{Text, txt, concat, text_eq}
use refresh.Go.{
  GoError, plain, wrapped, error_text, M, Outcome, returned, failed, unfinished, pure, throw,
  and_then, ◌>>=◌, ◌>>◌, map_failure,
}
use refresh.Common.Retry.{Env, default_retry_config, with_retry}
use refresh.Eks.{AddonStatus, addon_status_text, Addon, Update, UpdateStatus, Platform}
use refresh.Addons.Versions.{AddonVersionInfo}
use refresh.Addons.Service.{get_available_versions}
use refresh.Addons.Health.{
  wrap_with, Memo, lifted, cluster_k8s_version, validate_version_compatibility,
  pre_update_health_check, post_update_health_check,
}

-- The start time, which is only shown, is left out.
pub record AddonUpdateResult : Type 0 where
  pub addon_name : Text
  pub previous_version : Text
  pub new_version : Text
  pub update_id : Text
  pub status : Text
  pub health_issues : Text

-- A duration of zero stands for no timeout.
pub record UpdateOptions : Type 0 where
  pub version : Text
  pub configuration : Text
  pub health_check : Bool
  pub dry_run : Bool
  pub wait : Bool
  pub wait_timeout : ℕ

-- The simple case folding of Unicode, as far as a text in ASCII can meet it.
fold_char : ℕ → ℕ
fold_char c =
    if leb b'A' c && leb c b'Z'
    then c + 32
    else if c == 0x17f
    then b's'
    else if c == 0x212a
    then b'k'
    else c

-- `strings.EqualFold`, where the second text is in lower-case ASCII.
unfoldable pub equal_fold : Text → Text → Bool
unfolding fold_char
equal_fold [] [] = true
equal_fold (c ∷ s) (d ∷ t) = fold_char c == d && equal_fold s t
equal_fold _ _ = false

unfoldable pub is_latest : Text → Bool
unfolding equal_fold
is_latest version = equal_fold version (txt "latest") || text_eq version []

-- How an update stands by the addon's status: `none` while it goes on.
unfoldable pub addon_verdict : AddonStatus → Option (Outcome Unit)
addon_verdict s =
    let broken : GoError =
      plain (concat (txt "addon update failed: status " ∷ addon_status_text s ∷ [])) in
    elim s [
      | AddonStatus.active ↦ some (returned tt)
      | AddonStatus.degraded ↦ some (failed broken)
      | AddonStatus.create_failed ↦ some (failed broken)
      | AddonStatus.update_failed ↦ some (failed broken)
      | AddonStatus.delete_failed ↦ some (failed broken)
      | _ ↦ none
    ]

-- A failed description and an empty answer do not end the wait.
addon_poll : Outcome (Option Addon) → Option (Outcome Unit)
unfolding addon_verdict
addon_poll (returned (some a)) = addon_verdict a.status
addon_poll (returned none) = none
addon_poll (failed e) = none
addon_poll unfinished = some unfinished

update_status_text : UpdateStatus → Text
update_status_text UpdateStatus.in_progress = txt "InProgress"
update_status_text UpdateStatus.successful = txt "Successful"
update_status_text UpdateStatus.failed = txt "Failed"
update_status_text UpdateStatus.cancelled = txt "Cancelled"
update_status_text (UpdateStatus.other s) = s

module _ {W : Type 0} (p : Platform W) (fuel interval : ℕ) where
  -- The loop of `waitForAddonUpdate`; each round waits for a tick or for the end of the context.
  unfoldable pub wait_for_addon_update : Env W → (rounds : ℕ) → (cluster name : Text) → M W Unit
  unfolding addon_poll
  wait_for_addon_update env zero cluster name w = (unfinished, w)
  wait_for_addon_update env (suc rounds) cluster name w =
      let (ended, v) = env.sleep interval w in
      let (r, u) = p.eks.describe_addon cluster name v in
      let again = λ (x : W). wait_for_addon_update env rounds cluster name x in
      elim ended [
        | some e ↦ (failed e, v)
        | none ↦ elim (addon_poll r) [ some verdict ↦ (verdict, u) | none ↦ again u ]
      ]

  -- `WaitUntilActive`
  unfoldable pub wait_until_active : (cluster name : Text) → (timeout : ℕ) → M W Unit
  unfolding wait_for_addon_update
  wait_until_active cluster name timeout w =
      wait_for_addon_update (if ltb 0 timeout then p.with_timeout timeout w else p.env) fuel cluster
        name w

  -- `versions[0]`; the source panics on an empty list.
  unfoldable pub first_version : List AddonVersionInfo → M W Text
  first_version [] w = (unfinished, w)
  first_version (v ∷ vs) w = (returned v.version, w)

  -- The version that an update goes to.
  unfoldable pub resolve_version : (k8s name version : Text) → M W Text
  unfolding is_latest first_version
  resolve_version k8s name version =
      if is_latest version
      then (do
        vs ← λ w.
            map_failure (wrap_with (txt "resolving latest version"))
              (get_available_versions p fuel name k8s w)
        first_version vs)
      else (validate_version_compatibility p fuel k8s name version >> pure version)

  current_version : Text → Option Addon → M W Text
  current_version name none = throw (
      plain (
        concat
          (txt "getting current addon version: empty DescribeAddon response for " ∷ name ∷ [])))
  current_version name (some a) = pure a.version

  unfoldable pub installed_version : (cluster name : Text) → M W Text
  unfolding current_version
  installed_version cluster name = do
    a ← λ w.
        map_failure (wrap_with (txt "getting current addon version"))
          (p.eks.describe_addon cluster name w)
    current_version name a

  submitted : Text → Option Update → M W Update
  submitted name none =
      throw (
        plain
          (concat (txt "updating addon: empty Update in UpdateAddon response for " ∷ name ∷ [])))
  submitted name (some u) = pure u

  -- The request, with a token that stays the same for every attempt.
  unfoldable pub submit_update : (cluster name version configuration : Text) → M W Update
  unfolding submitted
  submit_update cluster name version configuration w =
      let (token, v) = p.new_token w in
      and_then
        (map_failure (wrap_with (txt "updating addon")) (
          with_retry p.env default_retry_config
            (p.eks.update_addon cluster name version configuration token) v))
        (submitted name)

  -- Behind the wait: what the health check finds is part of the result.
  unfoldable pub with_health : AddonUpdateResult → Outcome Unit → Outcome AddonUpdateResult
  with_health result (returned _) = returned (record result { status = txt "COMPLETED" })
  with_health result (failed e) =
      returned
        (record result { status = txt "COMPLETED_WITH_ISSUES"; health_issues = error_text e })
  with_health result unfinished = unfinished

  checked_result : (cluster name : Text) → AddonUpdateResult → M W AddonUpdateResult
  unfolding with_health
  checked_result cluster name result w =
      let (r, v) = post_update_health_check p fuel cluster name w in (with_health result r, v)

  -- Behind the request. Where the wait fails, the source returns its result beside the error; the
  -- callers drop it.
  unfoldable pub await_update :
      (cluster name : Text) → UpdateOptions → AddonUpdateResult → M W AddonUpdateResult
  unfolding checked_result
  await_update cluster name options result =
      if options.wait
      then (wait_until_active cluster name options.wait_timeout
          >> checked_result cluster name result)
      else pure result

  update_result : (name previous target id status : Text) → AddonUpdateResult
  update_result name previous target id status = record {
    addon_name = name;
    previous_version = previous;
    new_version = target;
    update_id = id;
    status = status;
    health_issues = [];
  }

  after_submit :
      (cluster name previous target : Text) → UpdateOptions → Update → M W AddonUpdateResult
  unfolding update_status_text update_result await_update
  after_submit cluster name previous target options u =
      await_update cluster name options
        (update_result name previous target u.id (update_status_text u.status))

  -- Behind the gates: a dry run ends here.
  unfoldable pub start_update :
      (cluster name previous target : Text) → UpdateOptions → M W AddonUpdateResult
  unfolding after_submit update_result
  start_update cluster name previous target options =
      if options.dry_run
      then pure (update_result name previous target (txt "dry-run") (txt "DRY_RUN"))
      else (submit_update cluster name target options.configuration
          >>= after_submit cluster name previous target options)

  update_from :
      (cluster name target : Text) → UpdateOptions → (previous : Text) → M W AddonUpdateResult
  unfolding start_update
  update_from cluster name target options previous =
      (if options.health_check then pre_update_health_check p fuel cluster name else pure tt)
      >> start_update cluster name previous target options

  update_to : (cluster name : Text) → UpdateOptions → (target : Text) → M W AddonUpdateResult
  unfolding update_from
  update_to cluster name options target =
      installed_version cluster name >>= update_from cluster name target options

  -- The gates of `Update` behind the cluster's version, and the update.
  unfoldable pub update_for :
      (cluster name : Text) → UpdateOptions → (k8s : Text) → M W AddonUpdateResult
  unfolding update_to
  update_for cluster name options k8s =
      resolve_version k8s name options.version >>= update_to cluster name options

  -- `Update`
  unfoldable pub update_addon :
      (cluster name : Text) → UpdateOptions → M (Memo × W) AddonUpdateResult
  unfolding update_for
  update_addon cluster name options =
      cluster_k8s_version p fuel cluster >>= λ k8s. lifted (update_for cluster name options k8s)
