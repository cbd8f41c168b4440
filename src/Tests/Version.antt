-- ===== src/Tests/Version.antt =====
-- Versions and hops on small inputs.
use refresh.Prelude.{◌≡◌, refl, List, [], ◌∷◌, true, none, some, arith, length}
use refresh.Prelude.Int.{pos, max_int, wrap_int}
use refresh.Text.{Text, txt, trim_space}
use refresh.Text.Split.{split_n, cut}
use refresh.Text.Decimal.{format_int, format_nat, atoi}
use refresh.Go.{ok}
use refresh.Upgrade.Version.{minor_version, hop_name, hops_from, expand_hops, version_at_least}
use refresh.Upgrade.Version.Hops.{AreHops, expand_hops_lists, hops_from_endless}
use refresh.Upgrade.Version.Order.{version_at_least_trans}

parsing : Unit {0}
unfolding minor_version split_n cut trim_space atoi hop_name format_int format_nat expand_hops
    wrap_int
parsing = tt

minor_31 : minor_version (txt "1.31") ≡ ok (pos 31)
unfolding parsing
minor_31 = refl

minor_33 : minor_version (txt " 1.33.2 ") ≡ ok (pos 33)
unfolding parsing
minor_33 = refl

hops_31_33 : expand_hops (txt "1.31") (txt "1.33") ≡ some (ok (txt "1.32" ∷ txt "1.33" ∷ []))
unfolding parsing
hops_31_33 = refl

expand_hops_lists_example :
    (hops : List Text) × (expand_hops (txt "1.31") (txt " 1.33.2 ") ≡ some (ok hops))
    × (length hops ≡ 2)
    × AreHops 32 hops
expand_hops_lists_example =
    expand_hops_lists (txt "1.31") (txt " 1.33.2 ") 31 33 minor_31 minor_33 (omega arith)
      (omega arith)

hops_from_endless_example : hops_from 40 (pos 9223372036854775800) (pos max_int) ≡ none
hops_from_endless_example = hops_from_endless 40 (pos 9223372036854775800) (omega arith)

at_least_33_31 : version_at_least (txt " 1.33.2 ") (txt "1.31") ≡ true
unfolding version_at_least parsing
at_least_33_31 = refl

at_least_31_30 : version_at_least (txt "1.31") (txt "1.30") ≡ true
unfolding version_at_least parsing
at_least_31_30 = refl

version_at_least_trans_example : version_at_least (txt " 1.33.2 ") (txt "1.30") ≡ true
version_at_least_trans_example =
    version_at_least_trans (txt " 1.33.2 ") (txt "1.31") (txt "1.30") at_least_33_31 at_least_31_30
