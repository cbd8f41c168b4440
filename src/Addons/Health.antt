-- ===== src/Addons/Health.antt =====
-- internal/services/addons/health_check.go: the gates before and behind an update of an addon, and
-- what they know of the cluster's Kubernetes version.
use mathlib.Core.List.{map}
use refresh.Prelude.{
  ◌≡◌, ap, ℕ, Bool, false, List, [], ◌∷◌, Option, none, some, ◌||◌, length, if◌then◌else◌,
}
use refresh.Text.{Text, txt, concat, join, text_eq}
use refresh.Text.Decimal.{format_nat}
use refresh.Go.{
  GoError, plain, wrapped, error_text, M, Outcome, returned, failed, unfinished, gate, ◌>>=◌,
  map_failure,
}
use refresh.Common.Retry.{default_retry_config, with_retry}
use refresh.Eks.{Cluster, AddonStatus, addon_status_text, Addon, Issue, Platform}
use refresh.Addons.Versions.{AddonVersionInfo}
use refresh.Addons.Service.{get_available_versions, describe_addon_retrying}

-- `fmt.Errorf("…: %w", err)`
abbrev pub wrap_with : Text → GoError → GoError
wrap_with prefix e = wrapped (concat (prefix ∷ txt ": " ∷ error_text e ∷ [])) e

-- What `preUpdateHealthCheck` finds wrong with a status.
unfoldable pub pre_update_error : Text → AddonStatus → Option GoError
pre_update_error name s =
    let busy : GoError = plain (
      concat (
        txt "pre-update health check failed: addon "
        ∷ name
        ∷ txt " is currently "
        ∷ addon_status_text s
        ∷ txt " — wait for it to reach ACTIVE before updating"
        ∷ [])) in
    elim s [ AddonStatus.creating ↦ some busy | AddonStatus.updating ↦ some busy | _ ↦ none ]

issue_line : Issue → Text
issue_line issue = concat (issue.code ∷ txt ": " ∷ issue.message ∷ [])

unfoldable pub issues_error : Text → List Issue → Option GoError
unfolding issue_line
issues_error name [] = none
issues_error name (issue ∷ issues) = some (
    plain (
      concat (
        txt "post-update health check: addon "
        ∷ name
        ∷ txt " is ACTIVE but has "
        ∷ format_nat (length (issue ∷ issues))
        ∷ txt " health issue(s): "
        ∷ join (txt "; ") (map issue_line (issue ∷ issues))
        ∷ [])))

-- What `postUpdateHealthCheck` finds wrong with an addon.
unfoldable pub status_error : Text → AddonStatus → List Issue → Option GoError
unfolding issues_error
status_error name AddonStatus.active issues = issues_error name issues
status_error name s issues = some (
    plain (
      concat (
        txt "post-update health check failed: addon "
        ∷ name
        ∷ txt " ended in status "
        ∷ addon_status_text s
        ∷ txt " (expected ACTIVE)"
        ∷ [])))

unfoldable pub has_version : Text → List AddonVersionInfo → Bool
has_version target [] = false
has_version target (v ∷ vs) = text_eq v.version target || has_version target vs

-- `validateVersionCompatibility` behind the call for the versions; a failed call skips the check.
unfoldable pub compatibility :
    (k8s name target : Text) → Outcome (List AddonVersionInfo) → Outcome Unit
unfolding has_version
compatibility k8s name target (failed e) = returned tt
compatibility k8s name target unfinished = unfinished
compatibility k8s name target (returned vs) =
    if has_version target vs
    then returned tt
    else failed (
        plain (
          concat (
            txt "addon "
            ∷ name
            ∷ txt " version "
            ∷ target
            ∷ txt " is not compatible with Kubernetes "
            ∷ k8s
            ∷ txt " — run 'refresh addon describe "
            ∷ name
            ∷ txt " --show-versions' to see supported versions"
            ∷ [])))

-- `k8sVersions`: the versions of clusters that the service has seen. It is part of the state that
-- the calls of one service change, beside the world.
abbrev pub Memo : Type 0
Memo = Text → Option Text

abbrev pub remember : Memo → Text → Text → Memo
remember memo name version n = if text_eq name n then some version else memo n

abbrev pub lifted : {W A : Type 0} → M W A → M (Memo × W) A
lifted m (memo, w) = let (r, v) = m w in (r, (memo, v))

pub lifted-eq-returned :
    {W A : Type 0} (m : M W A) (memo memo' : Memo) (w w' : W) {a : A}
    → lifted m (memo, w) ≡ (returned a, (memo', w'))
    → m w ≡ (returned a, w')
lifted-eq-returned m memo memo' w w' h = ap (λ x. (x.0, x.1.1)) h

module _ {W : Type 0} (p : Platform W) (fuel : ℕ) where
  stuck : M W Unit
  stuck w = (unfinished, w)

  -- An answer with no addon makes the source panic: the call does not return.
  checked_pre : Text → Option Addon → M W Unit
  unfolding stuck
  checked_pre name none = stuck
  checked_pre name (some a) = gate (pre_update_error name a.status)

  -- `preUpdateHealthCheck`
  unfoldable pub pre_update_health_check : (cluster name : Text) → M W Unit
  unfolding checked_pre
  pre_update_health_check cluster name = do
    a ← λ w.
        map_failure (wrap_with (txt "pre-update health check"))
          (describe_addon_retrying p fuel cluster name w)
    checked_pre name a

  -- Here too the source panics on an answer with no addon.
  unfoldable pub checked_post : Text → Option Addon → M W Unit
  unfolding stuck
  checked_post name none = stuck
  checked_post name (some a) = gate (status_error name a.status a.issues)

  -- `postUpdateHealthCheck`
  unfoldable pub post_update_health_check : (cluster name : Text) → M W Unit
  unfolding checked_post
  post_update_health_check cluster name = do
    a ← λ w.
        map_failure (wrap_with (txt "post-update health check"))
          (describe_addon_retrying p fuel cluster name w)
    checked_post name a

  -- `validateVersionCompatibility`; a version of the cluster that is not known skips the check.
  unfoldable pub validate_version_compatibility : (k8s name target : Text) → M W Unit
  unfolding compatibility
  validate_version_compatibility k8s name target w =
      if text_eq k8s []
      then (returned tt, w)
      else let (r, v) = get_available_versions p fuel name k8s w in
        (compatibility k8s name target r, v)

  found_version : Text → Memo → Outcome (Option Cluster) × W → Outcome Text × (Memo × W)
  found_version name memo (returned (some c), w) =
      (returned c.version, (remember memo name c.version, w))
  found_version name memo (returned none, w) = (returned [], (memo, w))
  found_version name memo (failed e, w) = (returned [], (memo, w))
  found_version name memo (unfinished, w) = (unfinished, (memo, w))

  -- `clusterK8sVersion`
  unfoldable pub cluster_k8s_version : Text → M (Memo × W) Text
  unfolding found_version
  cluster_k8s_version name (memo, w) = elim (memo name) [
    | some version ↦ (returned version, (memo, w))
    | none ↦
        found_version name memo
          (with_retry p.env default_retry_config (p.eks.describe_cluster name) w)
  ]
