-- ===== src/Health/Score.antt =====
-- The range of the overall score.
use native.Mathlib.Nat.{le-div_iff_mul-le, div-le_of_le-mul}
use refresh.Prelude.{
  ℕ, zero, suc, ◌+◌, ◌*◌, ◌≤◌, ◌<◌, ◌≡◌, refl, sym, ap, ◌∙◌, ◌⊎◌, inl, inr, Bool, true, false,
  Bool-cases, List, [], ◌∷◌, arith,
}
use mathlib.Core.Path.{subst, subst₂}
use refresh.Text.{Text}
use refresh.Health.{
  HealthStatus, status_pass, status_warn, status_fail, HealthResult, Tally, no_tally, judge,
  tally_result, tally_results, mean, aggregate_results,
}
use refresh.Health.Decision.{measured, tally_result-skipped, tally_result-measured}

-- Every result is skipped or has a score from `lo` to `hi`.
abbrev pub InRange : (lo hi : ℕ) → List HealthResult → Type 0
InRange lo hi [] = Unit
InRange lo hi (r ∷ rs) = ((r.skipped ≡ true) ⊎ ((lo ≤ r.score) × (r.score ≤ hi))) × InRange lo hi rs

-- Some result is not skipped.
abbrev pub IsMeasured : List HealthResult → Type 0
IsMeasured [] = ⊥
IsMeasured (r ∷ rs) = (r.skipped ≡ false) ⊎ IsMeasured rs

-- The total of n scores from `lo` to `hi`.
abbrev Between : (lo hi n total : ℕ) → Type 0
Between lo hi n total = (lo * n ≤ total) × (total ≤ n * hi)

Between-more :
    (lo hi n total score : ℕ)
    → Between lo hi n total
    → lo ≤ score
    → score ≤ hi
    → Between lo hi (suc n) (total + score)
Between-more lo hi n total score (above, below) h k = (omega arith, omega arith)

judge-total :
    (s : HealthStatus) (b : Bool) (m : Text) (t : Tally)
    → ((judge s b m t).total_score ≡ t.total_score)
      × ((judge s b m t).measured_count ≡ t.measured_count)
unfolding judge
judge-total status_pass b m t = (refl, refl)
judge-total status_warn b m t = (refl, refl)
judge-total status_fail true m t = (refl, refl)
judge-total status_fail false m t = (refl, refl)

abbrev Keeps : (lo hi : ℕ) → Tally → Type 0
Keeps lo hi t = Between lo hi t.measured_count t.total_score

tally_result-Keeps :
    (lo hi : ℕ) (t : Tally) (r : HealthResult)
    → (r.skipped ≡ true) ⊎ ((lo ≤ r.score) × (r.score ≤ hi))
    → Keeps lo hi t
    → Keeps lo hi (tally_result t r)
tally_result-Keeps lo hi t r scored h = elim (Bool-cases r.skipped) [
  | inl skip ↦ subst (Keeps lo hi) (sym (tally_result-skipped t r skip)) h
  | inr kept ↦
      subst (Keeps lo hi) (sym (tally_result-measured t r kept))
        (measured-Keeps (scored_range kept scored))
]
  where
    scored_range :
        r.skipped ≡ false
        → (r.skipped ≡ true) ⊎ ((lo ≤ r.score) × (r.score ≤ hi))
        → (lo ≤ r.score) × (r.score ≤ hi)
    scored_range kept (inl skip) = absurd (false_true (sym kept ∙ skip))
      where
        false_true : false ≡ true → ⊥
        false_true k = cc
    scored_range kept (inr range) = range

    measured-Keeps : (lo ≤ r.score) × (r.score ≤ hi) → Keeps lo hi (measured t r)
    measured-Keeps (above, below) =
        let (total, count) = judge-total r.status r.is_blocking r.message (record t {
          total_score = t.total_score + r.score;
          measured_count = suc t.measured_count;
        }) in
        subst₂ (Between lo hi) (sym count) (sym total)
          (Between-more lo hi t.measured_count t.total_score r.score h above below)

tally_results-Keeps :
    (lo hi : ℕ) (t : Tally) (rs : List HealthResult)
    → InRange lo hi rs
    → Keeps lo hi t
    → Keeps lo hi (tally_results t rs)
unfolding tally_results
tally_results-Keeps lo hi t [] range h = h
tally_results-Keeps lo hi t (r ∷ rs) (here, range) h =
    tally_results-Keeps lo hi (tally_result t r) rs range (tally_result-Keeps lo hi t r here h)

tally_result-count :
    (t : Tally) (r : HealthResult)
    → (t.measured_count ≤ (tally_result t r).measured_count)
      × (r.skipped ≡ false → t.measured_count < (tally_result t r).measured_count)
tally_result-count t r = elim (Bool-cases r.skipped) [
  | inl skip ↦
      let same = ap (λ (x : Tally). x.measured_count) (tally_result-skipped t r skip) in
      (omega arith, λ kept. absurd (true_false (sym skip ∙ kept)))
  | inr kept ↦
      let more =
        ap (λ (x : Tally). x.measured_count) (tally_result-measured t r kept)
        ∙ (judge-total r.status r.is_blocking r.message _).1 in
      (omega arith, λ _. omega arith)
]
  where
    true_false : true ≡ false → ⊥
    true_false k = cc

tally_results-count :
    (t : Tally) (rs : List HealthResult)
    → (t.measured_count ≤ (tally_results t rs).measured_count)
      × (IsMeasured rs → t.measured_count < (tally_results t rs).measured_count)
unfolding tally_results
tally_results-count t [] = (omega arith, λ none_measured. elim none_measured [ ])
tally_results-count t (r ∷ rs) =
    let (le, lt) = tally_result-count t r in
    let (le', lt') = tally_results-count (tally_result t r) rs in
    (
      omega arith,
      λ h. elim h [
        | inl kept ↦ (let first = lt kept in omega arith)
        | inr later ↦ (let last = lt' later in omega arith)
      ],
    )

mean-Between :
    (lo hi n total : ℕ) → 0 < n → Between lo hi n total → (lo ≤ mean total n) × (mean total n ≤ hi)
unfolding mean
mean-Between lo hi zero total some_measured (above, below) = elim some_measured [ ]
mean-Between lo hi (suc n) total some_measured (above, below) =
    ((le-div_iff_mul-le some_measured).1 above, div-le_of_le-mul (suc n) below)

-- Where every measured check has a score from one bound to another, and some check was measured,
-- the overall score is in that range.
pub aggregate_results_score :
    (lo hi : ℕ) (results : List HealthResult)
    → InRange lo hi results
    → IsMeasured results
    → (lo ≤ (aggregate_results results).overall_score)
      × ((aggregate_results results).overall_score ≤ hi)
unfolding aggregate_results
aggregate_results_score lo hi results range some_measured =
    let t = tally_results no_tally results in
    mean-Between lo hi t.measured_count t.total_score
      ((tally_results-count no_tally results).1 some_measured)
      (tally_results-Keeps lo hi no_tally results range (omega arith, omega arith))
