-- ===== src/Health.antt =====
-- internal/health/checker.go: the results of health checks, and the decision that they lead to.
pub mod Decision
pub mod Score
pub mod Workloads
use refresh.Prelude.{
  ℕ, zero, suc, ◌+◌, ◌/◌, Bool, true, false, ◌&&◌, ◌||◌, not, List, [], ◌∷◌, ◌++◌, ltb, length,
  if◌then◌else◌,
}
use refresh.Text.{Text}

pub data HealthStatus : Type 0 where
  status_pass status_warn status_fail : HealthStatus

pub data Verdict : Type 0 where
  proceed warn block : Verdict

-- A score is one of 0 to 100.
pub record HealthResult : Type 0 where
  pub name : Text
  pub status : HealthStatus
  pub score : ℕ
  pub message : Text
  pub details : List Text
  pub is_blocking : Bool
  pub skipped : Bool

pub record HealthSummary : Type 0 where
  pub results : List HealthResult
  pub overall_score : ℕ
  pub decision : Verdict
  pub warnings : List Text
  pub errors : List Text

-- What the loop of `aggregateResults` has gathered.
pub record Tally : Type 0 where
  pub warnings : List Text
  pub errors : List Text
  pub total_score : ℕ
  pub measured_count : ℕ
  pub has_blocking : Bool
  pub has_warnings : Bool

abbrev pub no_tally : Tally
no_tally = record {
  warnings = [];
  errors = [];
  total_score = 0;
  measured_count = 0;
  has_blocking = false;
  has_warnings = false;
}

-- What a measured result adds to the flags and the messages.
unfoldable pub judge : HealthStatus → (is_blocking : Bool) → Text → Tally → Tally
judge status_fail true message t = record t {
  has_blocking = true;
  errors = t.errors ++ message ∷ [];
}
judge status_warn is_blocking message t = record t {
  has_warnings = true;
  warnings = t.warnings ++ message ∷ [];
}
judge status_fail false message t = record t {
  errors = t.errors ++ message ∷ [];
  has_warnings = true;
}
judge status_pass is_blocking message t = t

-- One round of the loop.
unfoldable pub tally_result : Tally → HealthResult → Tally
unfolding judge
tally_result t r =
    if r.skipped
    then t
    else judge r.status r.is_blocking r.message
        (record t { total_score = t.total_score + r.score; measured_count = suc t.measured_count })

unfoldable pub tally_results : Tally → List HealthResult → Tally
unfolding tally_result
tally_results t [] = t
tally_results t (r ∷ rs) = tally_results (tally_result t r) rs

-- `totalScore / measuredCount`, for a count that is not zero.
unfoldable pub mean : (total count : ℕ) → ℕ
mean total zero = 0
mean total (suc n) = total / suc n

unfoldable pub decide : Tally → Verdict
decide t =
    if t.has_blocking
    then block
    else if t.has_warnings || ltb 0 (length t.errors)
    then warn
    else proceed

-- `aggregateResults`
unfoldable pub aggregate_results : List HealthResult → HealthSummary
unfolding tally_results mean decide
aggregate_results results =
    let t = tally_results no_tally results in
    record {
      results = results;
      overall_score = mean t.total_score t.measured_count;
      decision = decide t;
      warnings = t.warnings;
      errors = t.errors;
    }
