-- ===== src/Updates.antt =====
-- internal/updatecheck/updatecheck.go: the versions of releases, and the hint that one is newer.
pub mod Releases
pub mod Checker
use refresh.Prelude.{
  ℕ, Bool, true, false, List, [], ◌∷◌, ◌++◌, Option, none, some, ltb, if◌then◌else◌,
}
use refresh.Prelude.Int.{ℤ, pos, negsuc, ltb_ℤ, leb_ℤ}
use refresh.Text.{Text, txt, concat, text_eq, trim_space, trim_prefix}
use refresh.Text.Split.{split}
use refresh.Text.Decimal.{Parsed, parsed, invalid_syntax, out_of_range, atoi}

-- The three numbers of a version.
pub record Semver : Type 0 where
  pub major : ℤ
  pub minor : ℤ
  pub patch : ℤ

-- A component: a number that is not negative.
component : Parsed ℤ → Option ℤ
component (parsed n) = if ltb_ℤ n (pos 0) then none else some n
component invalid_syntax = none
component out_of_range = none

unfoldable pub of_components : Option ℤ → Option ℤ → Option ℤ → Option Semver
of_components (some a) (some b) (some c) = some (record { major = a; minor = b; patch = c })
of_components _ _ _ = none

unfoldable pub of_parts : List Text → Option Semver
unfolding component of_components
of_parts (a ∷ b ∷ c ∷ []) =
    of_components (component (atoi a)) (component (atoi b)) (component (atoi c))
of_parts _ = none

-- `parseSemver`
unfoldable pub parse_semver : Text → Option Semver
unfolding of_parts
parse_semver v =
    let s = trim_prefix (trim_space v) (txt "v") in
    if text_eq s [] then none else of_parts (split b'.' s)

abbrev pub compare_numbers : ℤ → ℤ → ℤ → ℤ
compare_numbers a b rest = if ltb_ℤ a b then negsuc 0 else if ltb_ℤ b a then pos 1 else rest

-- The loop of `compareSemver` over the three numbers.
unfoldable pub compare_parsed_semver : Semver → Semver → ℤ
compare_parsed_semver cur lat =
    compare_numbers cur.major lat.major
      (compare_numbers cur.minor lat.minor (compare_numbers cur.patch lat.patch (pos 0)))

-- `compareSemver`; `none` where one of the versions does not parse.
unfoldable pub compare_semver : Text → Text → Option ℤ
unfolding compare_parsed_semver
compare_semver current latest = elim (parse_semver current) [
  | none ↦ none
  | some cur ↦ elim (parse_semver latest) [
    | none ↦ none
    | some lat ↦ some (compare_parsed_semver cur lat)
  ]
]

-- `normalizeDisplay`
unfoldable pub normalize_display : Text → Text
normalize_display v =
    let s = trim_space v in if text_eq s [] then s else txt "v" ++ trim_prefix s (txt "v")

hint : (current latest : Text) → Text
unfolding normalize_display
hint current latest = concat (
    txt "A newer version ("
    ∷ normalize_display latest
    ∷ txt ") is available (you have "
    ∷ normalize_display current
    ∷ txt "). Upgrade: brew upgrade refresh"
    ∷ [])

-- The empty hint stands for none.
hint_for : (current latest : Text) → Option ℤ → Text
unfolding hint
hint_for current latest none = []
hint_for current latest (some cmp) = if leb_ℤ (pos 0) cmp then [] else hint current latest

-- `UpgradeHint`
unfoldable pub upgrade_hint : (current latest : Text) → Text
unfolding hint_for
upgrade_hint current latest = hint_for current latest (compare_semver current latest)
