-- ===== src/Upgrade/Version.antt =====
-- The Kubernetes versions of internal/services/upgrade/types.go: parsing "1.<minor>", the minor
-- versions between two versions, and the comparison that all planning rests on.
pub mod Hops
pub mod Order
use refresh.Prelude.{
  ℕ, zero, suc, ◌+◌, ◌≡◌, refl, Bool, true, false, not, ◌||◌, List, [], ◌∷◌, ◌++◌, Option, none,
  some, if◌then◌else◌,
}
use refresh.Prelude.Int.{ℤ, pos, negsuc, ◌+ℤ◌, leb_ℤ, ltb_ℤ, wrap_int, pos_part, neg_part}
use refresh.Text.{Text, txt, concat, text_eq, trim_space}
use refresh.Text.Split.{split_n}
use refresh.Text.Decimal.{Parsed, parsed, invalid_syntax, out_of_range, atoi, format_int, quote}
use refresh.Go.{GoError, plain, wrapped, Result, ok, err}

-- The error of `strconv.Atoi` on `part`, behind the version's own text.
not_a_number : Text → Text → Text → Result ℤ
not_a_number v part why =
    let cause = concat (txt "strconv.Atoi: parsing " ∷ quote part ∷ txt ": " ∷ why ∷ []) in
    err (
      wrapped (concat (txt "unrecognized Kubernetes version " ∷ quote v ∷ txt ": " ∷ cause ∷ []))
        (plain cause))

read_minor : Text → Text → Parsed ℤ → Result ℤ
unfolding not_a_number
read_minor v part (parsed n) = ok n
read_minor v part invalid_syntax = not_a_number v part (txt "invalid syntax")
read_minor v part out_of_range = not_a_number v part (txt "value out of range")

unrecognized : Text → Result ℤ
unrecognized v = err (
    plain (
      concat
        (txt "unrecognized Kubernetes version " ∷ quote v ∷ txt " (expected \"1.<minor>\")" ∷ [])))

-- The parts of the version: fewer than two are refused, and so is a major version but 1.
minor_of_parts : Text → List Text → Result ℤ
unfolding read_minor unrecognized text_eq
minor_of_parts v (major ∷ minor ∷ rest) =
    if not (text_eq major (txt "1")) then unrecognized v else read_minor v minor (atoi minor)
minor_of_parts v _ = unrecognized v

unfoldable pub minor_version : Text → Result ℤ
unfolding minor_of_parts
minor_version v = minor_of_parts v (split_n (trim_space v) b'.' 3)

-- `fmt.Sprintf("1.%d", m)`
unfoldable pub hop_name : ℤ → Text
hop_name m = b'1' ∷ b'.' ∷ format_int m

-- `for m := from; m <= to; m++`, where `m++` wraps. `none` means that the fuel ran out.
unfoldable pub hops_from : ℕ → ℤ → ℤ → Option (List Text)
hops_from zero m to = none
hops_from (suc fuel) m to =
    let rest = hops_from fuel (wrap_int (m +ℤ pos 1)) to in
    elim (leb_ℤ m to) [
      | false ↦ some []
      | true ↦ elim rest [ none ↦ none | some hops ↦ some (hop_name m ∷ hops) ]
    ]

older_target : Text → Text → GoError
older_target from to =
    plain (concat (txt "target version " ∷ to ∷ txt " is older than current version " ∷ from ∷ []))

-- The rounds that the loop of `expandHops` has before its counter passes `to`, and one for the test
-- that ends it.
abbrev pub hop_rounds : ℤ → ℤ → ℕ
hop_rounds from to = suc (pos_part to + neg_part from)

-- `none` means that the loop is not at its end when its counter has passed every hop.
unfoldable pub expand_hops : Text → Text → Option (Result (List Text))
unfolding hops_from older_target
expand_hops from to = elim (minor_version from) [
  | err e ↦ some (err e)
  | ok from_minor ↦ elim (minor_version to) [
    | err e ↦ some (err e)
    | ok to_minor ↦
        if ltb_ℤ to_minor from_minor
        then some (err (older_target from to))
        else elim (hops_from (hop_rounds from_minor to_minor) (wrap_int (from_minor +ℤ pos 1))
            to_minor) [ none ↦ none | some hops ↦ some (ok hops) ]
  ]
]

-- Is version a at or past version b? Versions that do not parse are not.
unfoldable pub version_at_least : Text → Text → Bool
version_at_least a b = elim (minor_version a) [
  | err e ↦ false
  | ok am ↦ elim (minor_version b) [ err e ↦ false | ok bm ↦ leb_ℤ bm am ]
]
