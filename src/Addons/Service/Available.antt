-- ===== src/Addons/Service/Available.antt =====
-- What the versions of an addon are that `GetAvailableVersions` returns.
use mathlib.Core.List.{Perm}
use refresh.Prelude.{ℕ, ◌≡◌, sym, ap, ◌∙◌, ◌≢◌, List, [], ◌∷◌, Option, none, some}
use refresh.Text.{Text, txt, concat}
use refresh.Go.{
  Outcome, returned, map_failure, map_failure-eq-returned, and_then-eq-returned, returned-eq,
}
use refresh.Aws.Pages.{list_all_pages}
use refresh.Aws.Errors.{format_aws_error}
use refresh.Eks.{Addon, AddonStatus, AddonInfo, Platform}
use refresh.Addons.Versions.{AddonVersionInfo}
use refresh.Addons.Versions.Sorting.{IsSorted, sort_newest_sorts, sort_newest-nonempty}
use refresh.Addons.Service.{
  versions_of, newest_first, wrap_describing, get_available_versions, describe_addon_retrying,
  installed, addon_status,
}

-- A list of versions of an addon: one at least, the newest first, and those of the answers.
abbrev pub IsNewestFirst : List AddonVersionInfo → List AddonVersionInfo → Type 0
IsNewestFirst found vs = (vs ≢ []) × Perm vs found × IsSorted vs

newest_first-IsNewestFirst :
    {W : Type 0} (name : Text) (found vs : List AddonVersionInfo) (w end : W)
    → newest_first name found w ≡ (returned vs, end)
    → (w ≡ end) × IsNewestFirst found vs
unfolding newest_first
newest_first-IsNewestFirst name [] vs w end h = cc
newest_first-IsNewestFirst name (v ∷ found) vs w end h =
    let e = returned-eq h in
    let (perm, sorted) = sort_newest_sorts (v ∷ found) in
    (ap (λ r. r.1) h, rw (sym e) (sort_newest-nonempty v found, perm, sorted))

module _ {W : Type 0} (p : Platform W) (fuel : ℕ) where
  -- The versions that `GetAvailableVersions` returns are those of all the pages, each as often,
  -- with no version before a newer one, and there is one at least, so that the first is the newest.
  pub get_available_versions-IsNewestFirst :
      (name k8s_version : Text) (w end : W) (vs : List AddonVersionInfo)
      → get_available_versions p fuel name k8s_version w ≡ (returned vs, end)
      → (infos : List AddonInfo) × (list_all_pages p.env fuel
            (concat (txt "describing versions for addon " ∷ name ∷ []))
            (p.eks.describe_addon_versions name k8s_version)
            w
          ≡ (returned infos, end))
        × IsNewestFirst (versions_of infos) vs
  unfolding get_available_versions
  get_available_versions-IsNewestFirst name k8s_version w end vs h =
      let pages =
        list_all_pages p.env fuel (concat (txt "describing versions for addon " ∷ name ∷ []))
          (p.eks.describe_addon_versions name k8s_version) w in
      let (infos, v, h1, h2) =
        and_then-eq-returned (map_failure wrap_describing pages)
          (λ infos. newest_first name (versions_of infos)) h in
      let (same, found) = newest_first-IsNewestFirst name (versions_of infos) vs v end h2 in
      (
        infos,
        map_failure-eq-returned wrap_describing pages h1 ∙ ap (λ (x : W). (returned infos, x)) same,
        found,
      )

  installed-Described :
      (cluster name : Text) (a : Option Addon) (now : Text × AddonStatus) (v w end : W)
      → describe_addon_retrying p fuel cluster name v ≡ (returned a, w)
      → installed p fuel name a w ≡ (returned now, end)
      → (u : W) × (a : Addon) × (describe_addon_retrying p fuel cluster name u
          ≡ (returned (some a), end))
        × (a.version ≡ now.0)
  unfolding installed
  installed-Described cluster name none now v w end d h = cc
  installed-Described cluster name (some a) now v w end d h = (
    v,
    a,
    d ∙ ap (λ (r : Outcome (Text × AddonStatus) × W). (returned (some a), r.1)) h,
    ap (λ (x : Text × AddonStatus). x.0) (returned-eq h),
  )

  -- The version and the status that `AddonStatus` returns are those of its last description.
  pub addon_status-Described :
      (cluster name : Text) (now : Text × AddonStatus) (w end : W)
      → addon_status p fuel cluster name w ≡ (returned now, end)
      → (v : W) × (a : Addon) × (describe_addon_retrying p fuel cluster name v
          ≡ (returned (some a), end))
        × (a.version ≡ now.0)
  unfolding addon_status
  addon_status-Described cluster name now w end h =
      let (a, v, h1, h2) =
        and_then-eq-returned
          (map_failure (λ e. format_aws_error e (concat (txt "describing addon " ∷ name ∷ [])))
            (describe_addon_retrying p fuel cluster name w))
          (installed p fuel name) h in
      installed-Described cluster name a now w v end (map_failure-eq-returned _ _ h1) h2
