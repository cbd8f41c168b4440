-- ===== src/Support.antt =====
-- internal/services/status/support.go: the support window of a Kubernetes version.
pub mod Cached
pub mod Ageing
use refresh.Prelude.{
  ℕ, ◌+◌, ◌*◌, ◌-◌, ◌/◌, Bool, true, false, not, ◌&&◌, ◌||◌, List, [], ◌∷◌, Option, none, some, ltb,
  ◌==◌, if◌then◌else◌,
}
use refresh.Text.{Text, txt, text_eq}
use refresh.Go.{M, Outcome, returned, failed, unfinished, pure, and_then, ◌>>=◌}

-- A time is the whole seconds since the zero time of Go, midnight of the first day of year 1.
pub data SupportTier : Type 0 where
  standard extended unsupported unknown : SupportTier

-- The cost is in hundredths of a dollar.
pub record SupportPosture : Type 0 where
  pub tier : SupportTier
  pub standard_until : Option ℕ
  pub extended_until : Option ℕ
  pub days_remaining : Option ℕ
  pub extra_cost_usd_per_hour : ℕ
  pub fallback : Bool

abbrev premium : ℕ
premium = 50

pub record Window : Type 0 where
  pub version : Text
  pub standard_end : ℕ
  pub extended_end : ℕ

-- A row of the calendar, its dates as the days since the zero time.
abbrev window : Text → ℕ → ℕ → Window
window version standard_days extended_days = record {
  version = version;
  standard_end = standard_days * 86400;
  extended_end = extended_days * 86400;
}

-- `fallbackCalendar`
abbrev pub fallback_calendar : List Window
fallback_calendar =
    window (txt "1.28") 739215 739580
    ∷ window (txt "1.29") 739332 739697
    ∷ window (txt "1.30") 739454 739819
    ∷ window (txt "1.31") 739580 739945
    ∷ window (txt "1.32") 739697 740062
    ∷ window (txt "1.33") 739819 740184
    ∷ []

unfoldable pub in_calendar : Text → List Window → Option Window
in_calendar version [] = none
in_calendar version (w ∷ rows) =
    let rest = in_calendar version rows in if text_eq w.version version then some w else rest

-- `daysBetween`, where the second time is not before the first: a duration is at most
-- 9223372036 whole seconds.
unfoldable pub days_between : ℕ → ℕ → ℕ
days_between start end =
    let seconds = end - start in (if ltb 9223372036 seconds then 9223372036 else seconds) / 86400

-- The pointer to a time, nil where the time is zero.
abbrev pub non_zero : ℕ → Option ℕ
non_zero t = if t == 0 then none else some t

-- `classifySupport`
unfoldable pub classify_support : ℕ → ℕ → ℕ → Bool → SupportPosture
unfolding days_between
classify_support standard_end extended_end now fallback =
    let posture : SupportPosture = record {
      tier = SupportTier.unknown;
      standard_until = non_zero standard_end;
      extended_until = non_zero extended_end;
      days_remaining = none;
      extra_cost_usd_per_hour = 0;
      fallback = fallback;
    } in
    if not (standard_end == 0) && ltb now standard_end
    then record posture {
      tier = SupportTier.standard;
      days_remaining = some (days_between now standard_end);
    }
    else if not (extended_end == 0) && ltb now extended_end
    then record posture {
      tier = SupportTier.extended;
      days_remaining = some (days_between now extended_end);
      extra_cost_usd_per_hour = premium;
    }
    else if not (standard_end == 0) || not (extended_end == 0)
    then record posture { tier = SupportTier.unsupported }
    else posture

-- A version of the answer of `DescribeClusterVersions`; the text of a pointer that is nil is empty.
pub record ClusterVersion : Type 0 where
  pub cluster_version : Text
  pub end_of_standard_support_date : Option ℕ
  pub end_of_extended_support_date : Option ℕ

-- The loop over the answer.
unfoldable pub dates_in : Text → List ClusterVersion → Option (ℕ × ℕ)
dates_in version [] = none
dates_in version (cv ∷ cvs) =
    let rest = dates_in version cvs in
    if text_eq cv.cluster_version version
    then (elim cv.end_of_standard_support_date [
      | none ↦ none
      | some std ↦ elim cv.end_of_extended_support_date [
        | none ↦ some (std, 0)
        | some ext ↦ some (std, ext)
      ]
    ])
    else rest

unfoldable pub dates_from :
    {W : Type 0} → Text → Outcome (Option (List ClusterVersion)) × W → Outcome (Option (ℕ × ℕ)) × W
unfolding dates_in
dates_from version (returned (some cvs), w) = (returned (dates_in version cvs), w)
dates_from version (returned none, w) = (returned none, w)
dates_from version (failed e, w) = (returned none, w)
dates_from version (unfinished, w) = (unfinished, w)

abbrev pub unknown_posture : SupportPosture
unknown_posture = record {
  tier = SupportTier.unknown;
  standard_until = none;
  extended_until = none;
  days_remaining = none;
  extra_cost_usd_per_hour = 0;
  fallback = false;
}

by_calendar : Option Window → ℕ → SupportPosture
unfolding classify_support
by_calendar none now = unknown_posture
by_calendar (some row) now = classify_support row.standard_end row.extended_end now true

unfoldable pub by_dates : Text → Option (ℕ × ℕ) → ℕ → SupportPosture
unfolding by_calendar in_calendar classify_support
by_dates version none now = by_calendar (in_calendar version fallback_calendar) now
by_dates version (some (std, ext)) now = classify_support std ext now false

-- `supportCache`, the entry that was written last first.
abbrev pub SupportCache : Type 0
SupportCache = List (Text × SupportPosture)

unfoldable pub cached : Text → SupportCache → Option SupportPosture
cached version [] = none
cached version ((v, posture) ∷ cache) =
    let rest = cached version cache in if text_eq v version then some posture else rest

unfoldable pub keep :
    {W : Type 0}
    → Text
    → SupportCache
    → Outcome SupportPosture × W
    → Outcome SupportPosture × (SupportCache × W)
keep version cache (returned posture, w) = (returned posture, ((version, posture) ∷ cache, w))
keep version cache (failed e, w) = (failed e, (cache, w))
keep version cache (unfinished, w) = (unfinished, (cache, w))

-- The client may be nil; the clock shows the time in a world.
module _ {W : Type 0} (api : Option (Text → M W (Option (List ClusterVersion))))
    (clock : W → ℕ) where
  -- `supportDatesFromAPI`
  unfoldable pub support_dates_from_api : Text → M W (Option (ℕ × ℕ))
  unfolding dates_from
  support_dates_from_api version w = elim api [
    | none ↦ (returned none, w)
    | some describe ↦ dates_from version (describe version w)
  ]

  -- `resolveSupportPosture`
  unfoldable pub resolve_support_posture : Text → ℕ → M W SupportPosture
  unfolding support_dates_from_api by_dates
  resolve_support_posture version now w =
      if text_eq version []
      then (returned unknown_posture, w)
      else (support_dates_from_api version >>= λ dates. pure (by_dates version dates now)) w

  unfoldable pub found : Text → Option SupportPosture → M (SupportCache × W) SupportPosture
  unfolding resolve_support_posture keep
  found version (some posture) (cache, w) = (returned posture, (cache, w))
  found version none (cache, w) = keep version cache (resolve_support_posture version (clock w) w)

  -- `resolveSupport`, the calls one after another.
  unfoldable pub resolve_support : Text → M (SupportCache × W) SupportPosture
  unfolding cached found
  resolve_support version (cache, w) =
      if text_eq version []
      then (returned unknown_posture, (cache, w))
      else found version (cached version cache) (cache, w)

  -- Calls of `resolveSupport` for some versions, one after another.
  unfoldable pub resolve_each : List Text → M (SupportCache × W) (List SupportPosture)
  unfolding resolve_support
  resolve_each [] = pure []
  resolve_each (v ∷ versions) =
      let later = resolve_each versions in do p ← resolve_support v; ps ← later; pure (p ∷ ps)
