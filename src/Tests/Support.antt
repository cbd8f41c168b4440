-- ===== src/Tests/Support.antt =====
-- Support windows on small inputs; the world counts the calls of the API.
use refresh.Prelude.{
  ℕ, ◌+◌, ◌*◌, ◌↔◌, ◌≡◌, refl, arith, true, false, List, [], ◌∷◌, Option, none, some, ◌==◌,
  if◌then◌else◌,
}
use refresh.Text.{Text, txt, text_eq}
use refresh.Go.{M, Outcome, returned, failed, plain}
use refresh.Support.{
  SupportTier, SupportPosture, ClusterVersion, SupportCache, classify_support, in_calendar,
  days_between, dates_in, dates_from, by_dates, cached, keep, support_dates_from_api,
  resolve_support_posture, found, resolve_support, resolve_each,
}
use refresh.Support.Ageing.{may_become, classify_support-ages}
use refresh.Support.Cached.{resolve_support-once}

abbrev now : ℕ → ℕ
now calls = 739777 * 86400 + calls

-- The first call is answered, and the others fail.
abbrev describe : Text → M ℕ (Option (List ClusterVersion))
describe version calls =
    if calls == 0
    then (
      returned (
          some (
            record {
              cluster_version = txt "1.33";
              end_of_standard_support_date = some (739797 * 86400);
              end_of_extended_support_date = none;
            }
            ∷ [])),
      1,
    )
    else (failed (plain (txt "denied")), calls + 1)

abbrev start : SupportCache × ℕ
start = ([], 0)

abbrev first : Outcome SupportPosture × (SupportCache × ℕ)
first = resolve_support (some describe) now (txt "1.33") start

abbrev posture : SupportPosture
posture = record {
  tier = SupportTier.standard;
  standard_until = some (739797 * 86400);
  extended_until = none;
  days_remaining = some 20;
  extra_cost_usd_per_hour = 0;
  fallback = false;
}

first_returns : first ≡ (returned posture, first.1)
unfolding resolve_support found resolve_support_posture support_dates_from_api dates_from dates_in
    by_dates classify_support days_between cached keep text_eq
first_returns = refl

abbrev others : List Text
others = txt "1.32" ∷ txt "1.9" ∷ []

abbrev rest : Outcome (List SupportPosture) × (SupportCache × ℕ)
rest = resolve_each (some describe) now others first.1

abbrev other_postures : List SupportPosture
other_postures =
    record {
      tier = SupportTier.extended;
      standard_until = some (739697 * 86400);
      extended_until = some (740062 * 86400);
      days_remaining = some 284;
      extra_cost_usd_per_hour = 50;
      fallback = true;
    }
    ∷ record {
      tier = SupportTier.unknown;
      standard_until = none;
      extended_until = none;
      days_remaining = none;
      extra_cost_usd_per_hour = 0;
      fallback = false;
    }
    ∷ []

rest_returns : rest ≡ (returned other_postures, rest.1)
unfolding resolve_each resolve_support found resolve_support_posture support_dates_from_api
    dates_from dates_in by_dates classify_support days_between in_calendar cached keep text_eq
rest_returns = refl

resolve_support-once_example :
    resolve_support (some describe) now (txt "1.33") rest.1 ≡ (returned posture, rest.1)
resolve_support-once_example =
    resolve_support-once (some describe) now (txt "1.33") posture others other_postures start
      first.1 rest.1 first_returns rest_returns

classify_support-ages_example :
    (((classify_support 100 200 99 false).tier ≡ SupportTier.unknown)
      ↔ (◌≡◌ {A = ℕ} 100 0 × ◌≡◌ {A = ℕ} 200 0))
    × (may_become (classify_support 100 200 99 false).tier (classify_support 100 200 250 false).tier
        ≡ true)
classify_support-ages_example = classify_support-ages 100 200 99 250 false (omega arith)
