-- ===== src/Addons/Versions.antt =====
-- internal/services/addons/version_analyzer.go: the comparison of addon versions such as
-- "v1.18.1-eksbuild.3", and the sort that puts the newest first.
pub mod Order
pub mod Sorting
use refresh.Prelude.{
  ℕ, suc, ◌+◌, ◌≡◌, refl, Bool, true, false, ◌||◌, List, [], ◌∷◌, Option, none, some, length, ◌==◌,
  if◌then◌else◌,
}
use refresh.Prelude.Int.{ℤ, pos, negsuc, ◌-ℤ◌, wrap_int, ltb_ℤ}
use refresh.Text.{Text, txt, trim_space, trim_prefix, compare_text}
use refresh.Text.Split.{fields_func}
use refresh.Text.Decimal.{Parsed, parsed, invalid_syntax, out_of_range, atoi}

unfoldable pub is_separator : ℕ → Bool
is_separator c = c == b'.' || c == b'-' || c == b'+'

-- The segments of a version.
unfoldable pub segments : Text → List Text
segments v = fields_func is_separator (trim_prefix (trim_space v) (txt "v"))

abbrev is_zero : ℤ → Bool
is_zero (pos n) = n == 0
is_zero (negsuc n) = false

-- The comparison of two segments that were read: `none` where they do not decide.
unfoldable pub compare_parsed : Text → Text → Parsed ℤ → Parsed ℤ → Option ℤ
compare_parsed a b (parsed ai) (parsed bi) =
    if is_zero (ai -ℤ bi) then none else some (wrap_int (ai -ℤ bi))
compare_parsed a b (parsed ai) _ = some (pos 1)
compare_parsed a b _ (parsed bi) = some (negsuc 0)
compare_parsed a b _ _ = let c = compare_text a b in if is_zero c then none else some c

unfoldable pub compare_segment : Text → Text → Option ℤ
compare_segment a b = compare_parsed a b (atoi a) (atoi b)

-- The loop over the segments; `len(as) - len(bs)` is the difference of what is left.
unfoldable pub compare_segments : List Text → List Text → ℤ
compare_segments [] bs = pos 0 -ℤ pos (length bs)
compare_segments (a ∷ rest) [] = pos (suc (length rest)) -ℤ pos 0
compare_segments (a ∷ rest) (b ∷ bs) = elim (compare_segment a b) [
  | some c ↦ c
  | none ↦ compare_segments rest bs
]

-- `CompareVersions`
unfoldable pub compare_versions : Text → Text → ℤ
compare_versions a b = compare_segments (segments a) (segments b)

-- What EKS reports of an addon's version.
pub record AddonVersionInfo : Type 0 where
  pub version : Text
  pub compatibilities : List Text
  pub architecture : List Text
  pub default_version : Bool
  pub requires_iam_policy : Bool

-- Does a stand before b, newest first?
unfoldable pub is_newer : AddonVersionInfo → AddonVersionInfo → Bool
is_newer a b = ltb_ℤ (pos 0) (compare_versions a.version b.version)

-- A stable sort: a value goes in front of the first one that does not have to stand before it.
unfoldable pub insert_sorted : AddonVersionInfo → List AddonVersionInfo → List AddonVersionInfo
insert_sorted v [] = v ∷ []
insert_sorted v (u ∷ us) = if is_newer u v then u ∷ insert_sorted v us else v ∷ u ∷ us

-- `sort.SliceStable`
unfoldable pub sort_newest : List AddonVersionInfo → List AddonVersionInfo
unfolding insert_sorted
sort_newest [] = []
sort_newest (v ∷ vs) = insert_sorted v (sort_newest vs)
