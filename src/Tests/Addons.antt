-- ===== src/Tests/Addons.antt =====
-- Addon versions and the order of updates on small inputs.
use refresh.Prelude.{◌≡◌, refl, List, [], ◌∷◌, some, false}
use refresh.Prelude.Int.{◌+ℤ◌, ◌-ℤ◌, wrap_int}
use refresh.Text.{Text, txt, text_eq, trim_prefix, trim_space}
use refresh.Addons.Service.{AddonSummary}
use refresh.Addons.Versions.{
  AddonVersionInfo, compare_versions, sort_newest, is_newer, compare_segments, segments,
  is_separator, compare_segment, compare_parsed,
}
use refresh.Text.Split.{fields_func}
use refresh.Text.Decimal.{atoi}
use refresh.Addons.Versions.Order.{sign, keys, compare_key, compare_versions-lex}
use refresh.Prelude.Linear.{lex}
use mathlib.Core.List.{Perm}
use refresh.Addons.Dependency.{sort_by_dependency, has_name}
use refresh.Addons.Dependency.Distinct.{Unique}
use refresh.Addons.Dependency.Before.{DepsFirst}
use refresh.Addons.Dependency.Sorted.{sort_by_dependency-DepsFirst}
use refresh.Addons.Dependency.Keeps.{no_name}
use refresh.Addons.Dependency.Ends.{sort_by_dependency_ends}

abbrev addon : Text → AddonSummary
addon name = record { name = name; version = txt "v1.0.0"; status = txt "ACTIVE"; health = [] }

abbrev five_addons : List AddonSummary
five_addons =
    addon (txt "adot")
    ∷ addon (txt "coredns")
    ∷ addon (txt "metrics")
    ∷ addon (txt "aws-ebs-csi-driver")
    ∷ addon (txt "vpc-cni")
    ∷ []

ordered :
    sort_by_dependency five_addons
    ≡ some (
        addon (txt "metrics")
        ∷ addon (txt "vpc-cni")
        ∷ addon (txt "coredns")
        ∷ addon (txt "adot")
        ∷ addon (txt "aws-ebs-csi-driver")
        ∷ [])
unfolding sort_by_dependency text_eq ◌+ℤ◌ ◌-ℤ◌
ordered = refl

compare_versions-lex_example :
    sign (compare_versions (txt "v1.10.0-eksbuild.2") (txt "v1.9.3-eksbuild.7"))
    ≡ lex compare_key (keys (txt "v1.10.0-eksbuild.2")) (keys (txt "v1.9.3-eksbuild.7"))
compare_versions-lex_example =
    compare_versions-lex (txt "v1.10.0-eksbuild.2") (txt "v1.9.3-eksbuild.7")

abbrev of_version : Text → AddonVersionInfo
of_version v = record {
  version = v;
  compatibilities = [];
  architecture = [];
  default_version = false;
  requires_iam_policy = false;
}

abbrev listed : List AddonVersionInfo
listed = of_version (txt "v1.9.3") ∷ of_version (txt "v1.10.0") ∷ of_version (txt "v1.9.10") ∷ []

newest_first :
    sort_newest listed
    ≡ of_version (txt "v1.10.0") ∷ of_version (txt "v1.9.10") ∷ of_version (txt "v1.9.3") ∷ []
unfolding sort_newest is_newer compare_versions compare_segments segments fields_func trim_prefix
    trim_space is_separator compare_segment compare_parsed atoi ◌-ℤ◌ wrap_int
newest_first = refl

sort_by_dependency_ends_example :
    (sorted : List AddonSummary) × (sort_by_dependency five_addons ≡ some sorted)
sort_by_dependency_ends_example = sort_by_dependency_ends five_addons

abbrev last_two : List AddonSummary
last_two = addon (txt "aws-ebs-csi-driver") ∷ addon (txt "vpc-cni") ∷ []

abbrev three_addons : List AddonSummary
three_addons = addon (txt "coredns") ∷ last_two

abbrev four_addons : List AddonSummary
four_addons = addon (txt "adot") ∷ three_addons

four_addons-Unique : Unique four_addons
unfolding has_name text_eq
four_addons-Unique = (
  no_name three_addons (txt "adot") refl,
  (
    no_name last_two (txt "coredns") refl,
    (
      no_name (addon (txt "vpc-cni") ∷ []) (txt "aws-ebs-csi-driver") refl,
      (no_name [] (txt "vpc-cni") refl, tt),
    ),
  ),
)

sort_by_dependency-DepsFirst_example :
    (sorted : List AddonSummary) × (sort_by_dependency four_addons ≡ some sorted)
    × Perm four_addons sorted
    × DepsFirst four_addons [] sorted
sort_by_dependency-DepsFirst_example = sort_by_dependency-DepsFirst four_addons four_addons-Unique
