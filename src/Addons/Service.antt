-- ===== src/Addons/Service.antt =====
-- internal/services/addons: what the cluster runs, and the versions that it may run
-- (service.go, version_analyzer.go).
pub mod Available
use refresh.Prelude.{ℕ, Bool, false, List, [], ◌∷◌, ◌++◌, Option, none, some, if◌then◌else◌}
use mathlib.Core.List.{map}
use refresh.Text.{Text, txt, concat}
use refresh.Go.{
  GoError, plain, wrapped, error_text, M, Outcome, returned, failed, unfinished, pure, throw, ◌>>=◌,
  map_failure,
}
use refresh.Common.Retry.{default_retry_config, with_retry}
use refresh.Aws.Errors.{format_aws_error}
use refresh.Aws.Pages.{list_all_pages}
use refresh.Eks.{AddonStatus, addon_status_text, Addon, AddonVersion, AddonInfo, Platform}
use refresh.Addons.Versions.{AddonVersionInfo, sort_newest}

pub record AddonSummary : Type 0 where
  pub name : Text
  pub version : Text
  pub status : Text
  pub health : Text

-- `mapAddonHealth`
unfoldable pub map_addon_health : AddonStatus → Text
map_addon_health AddonStatus.active = txt "PASS"
map_addon_health AddonStatus.degraded = txt "FAIL"
map_addon_health AddonStatus.create_failed = txt "FAIL"
map_addon_health AddonStatus.update_failed = txt "FAIL"
map_addon_health AddonStatus.delete_failed = txt "FAIL"
map_addon_health AddonStatus.creating = txt "IN_PROGRESS"
map_addon_health AddonStatus.deleting = txt "IN_PROGRESS"
map_addon_health AddonStatus.updating = txt "IN_PROGRESS"
map_addon_health (AddonStatus.unknown s) = txt "UNKNOWN"

present : List (Option Text) → List Text
present [] = []
present (none ∷ cs) = present cs
present (some c ∷ cs) = c ∷ present cs

version_info : AddonVersion → AddonVersionInfo
unfolding present
version_info v = record {
  version = v.version;
  compatibilities = present v.compatibilities;
  architecture = v.architecture;
  default_version = false;
  requires_iam_policy = v.requires_iam_permissions;
}

-- The versions of all the answers, in order.
unfoldable pub versions_of : List AddonInfo → List AddonVersionInfo
unfolding version_info
versions_of [] = []
versions_of (info ∷ infos) = map version_info info.versions ++ versions_of infos

no_versions : Text → GoError
no_versions name = plain (concat (txt "no versions found for addon " ∷ name ∷ []))

-- An empty list of versions is an error; any other is sorted newest first.
unfoldable pub newest_first :
    {W : Type 0} → Text → List AddonVersionInfo → M W (List AddonVersionInfo)
unfolding no_versions
newest_first name [] = throw (no_versions name)
newest_first name (v ∷ vs) = pure (sort_newest (v ∷ vs))

wrap_describing : GoError → GoError
wrap_describing e = wrapped (concat (txt "describing addon versions: " ∷ error_text e ∷ [])) e

unknown_addon : Text → AddonSummary
unknown_addon name = record {
  name = name;
  version = [];
  status = txt "UNKNOWN";
  health = txt "Unknown";
}

summary : Bool → Addon → AddonSummary
summary show_health a = record {
  name = a.name;
  version = a.version;
  status = addon_status_text a.status;
  health = if show_health then map_addon_health a.status else [];
}

-- The answer of a description that may have failed.
summarize : Bool → Text → Outcome (Option Addon) → Outcome AddonSummary
unfolding unknown_addon summary
summarize show_health name (returned (some a)) = returned (summary show_health a)
summarize show_health name (returned none) = returned (unknown_addon name)
summarize show_health name (failed e) = returned (unknown_addon name)
summarize show_health name unfinished = unfinished

empty_summary : AddonSummary
empty_summary = record { name = []; version = []; status = []; health = [] }

module _ {W : Type 0} (p : Platform W) (fuel : ℕ) where
  -- `GetAvailableVersions`
  unfoldable pub get_available_versions : (name k8s_version : Text) → M W (List AddonVersionInfo)
  unfolding versions_of newest_first wrap_describing list_all_pages
  get_available_versions name k8s_version = do
    infos ← λ w. map_failure wrap_describing (
        list_all_pages p.env fuel (concat (txt "describing versions for addon " ∷ name ∷ []))
          (p.eks.describe_addon_versions name k8s_version) w)
    newest_first name (versions_of infos)

  -- `DescribeAddon` behind the retry loop.
  unfoldable pub describe_addon_retrying : (cluster name : Text) → M W (Option Addon)
  describe_addon_retrying cluster name =
      with_retry p.env default_retry_config (p.eks.describe_addon cluster name)

  -- One item of `List`.
  summarize_addon : Bool → (cluster name : Text) → M W AddonSummary
  unfolding summarize describe_addon_retrying
  summarize_addon show_health cluster name w =
      let (r, v) = describe_addon_retrying cluster name w in (summarize show_health name r, v)

  -- `ForEachParallel` over the names, in the order in which the items are dispatched. Items that
  -- are not dispatched because the context has ended keep the zero value.
  summarize_addons : Bool → Text → List Text → M W (List AddonSummary)
  unfolding summarize_addon empty_summary
  summarize_addons show_health cluster [] w = (returned [], w)
  summarize_addons show_health cluster (name ∷ names) w =
      let later = λ (v : W). summarize_addons show_health cluster names v in
      let next : M W (List AddonSummary) = (do
        s ← summarize_addon show_health cluster name
        rest ← later
        pure (s ∷ rest)) in
      elim (p.env.ctx_err w) [
        | some e ↦ (returned (map (λ _. empty_summary) (name ∷ names)), w)
        | none ↦ next w
      ]

  -- `List`
  unfoldable pub list_addons : Bool → Text → M W (List AddonSummary)
  unfolding summarize_addons list_all_pages
  list_addons show_health cluster = do
    names ←
        list_all_pages p.env fuel (concat (txt "listing add-ons for cluster " ∷ cluster ∷ []))
          (p.eks.list_addons cluster)
    summarize_addons show_health cluster names

  installed : Text → Option Addon → M W (Text × AddonStatus)
  installed name none =
      throw (plain (concat (txt "describing addon " ∷ name ∷ txt ": empty response" ∷ [])))
  installed name (some a) = pure (a.version, a.status)

  -- `AddonStatus`
  unfoldable pub addon_status : (cluster name : Text) → M W (Text × AddonStatus)
  unfolding installed describe_addon_retrying
  addon_status cluster name = do
    a ← λ w.
        map_failure (λ e. format_aws_error e (concat (txt "describing addon " ∷ name ∷ [])))
          (describe_addon_retrying cluster name w)
    installed name a
