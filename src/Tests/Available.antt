-- ===== src/Tests/Available.antt =====
-- The versions of an addon that comes in two.
use refresh.Prelude.{◌≡◌, refl, false, List, [], ◌∷◌, none, some}
use refresh.Text.{Text, txt, concat}
use refresh.Go.{Outcome, returned, failed, unfinished}
use refresh.Common.Retry.{with_retry}
use refresh.Aws.Pages.{list_all_pages}
use refresh.Eks.{AddonVersion, AddonInfo, Platform}
use refresh.Addons.Versions.{AddonVersionInfo}
use refresh.Addons.Service.{versions_of, newest_first, get_available_versions}
use refresh.Addons.Service.Available.{IsNewestFirst, get_available_versions-IsNewestFirst}
use refresh.Tests.Cloud.{Cloud, eks, cloud, at}

abbrev listed : Text → AddonVersion
listed v = record {
  version = v;
  compatibilities = some (txt "1.31") ∷ none ∷ [];
  architecture = txt "arm64" ∷ [];
  requires_iam_permissions = false;
}

abbrev stocked : Platform Cloud
stocked = record cloud {
  eks = record eks {
    describe_addon_versions = λ name version next w. (
      returned (record {
        items = record { versions = listed (txt "v1.9.3") ∷ listed (txt "v1.10.0") ∷ [] } ∷ [];
        next = none;
      }),
      w,
    );
  };
}

abbrev answer : Outcome (List AddonVersionInfo) × Cloud
answer = get_available_versions stocked 9 (txt "coredns") (txt "1.31") (at (txt "1.31"))

abbrev versions_in : Outcome (List AddonVersionInfo) → List AddonVersionInfo
versions_in (returned vs) = vs
versions_in (failed e) = []
versions_in unfinished = []

found : answer ≡ (returned (versions_in answer.0), at (txt "1.31"))
unfolding get_available_versions list_all_pages with_retry newest_first versions_of
found = refl

get_available_versions-IsNewestFirst_example :
    (infos : List AddonInfo) × (list_all_pages stocked.env 9
        (concat (txt "describing versions for addon " ∷ txt "coredns" ∷ []))
        (stocked.eks.describe_addon_versions (txt "coredns") (txt "1.31"))
        (at (txt "1.31"))
      ≡ (returned infos, at (txt "1.31")))
    × IsNewestFirst (versions_of infos) (versions_in answer.0)
get_available_versions-IsNewestFirst_example =
    get_available_versions-IsNewestFirst stocked 9 (txt "coredns") (txt "1.31") (at (txt "1.31"))
      (at (txt "1.31")) (versions_in answer.0) found
