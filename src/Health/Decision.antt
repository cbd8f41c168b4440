-- ===== src/Health/Decision.antt =====
-- The decision over health results, and the range of the overall score.
use refresh.Prelude.{
  suc, ◌+◌, ◌≡◌, refl, sym, ap, ◌∙◌, inl, inr, Bool, true, false, Bool-cases, not, ◌&&◌, ◌||◌, List,
  [], ◌∷◌, ◌++◌, arith, ltb, length, if◌then◌else◌,
}
use refresh.Text.{Text}
use refresh.Health.{
  HealthStatus, status_pass, status_warn, status_fail, Verdict, proceed, warn, block, HealthResult,
  Tally, no_tally, judge, tally_result, tally_results, decide, aggregate_results,
}

-- A measured check that fails and blocks.
abbrev pub is_block : HealthResult → Bool
is_block r = elim r.status [ status_fail ↦ not r.skipped && r.is_blocking | _ ↦ false ]

-- A measured check that does not pass.
abbrev pub is_issue : HealthResult → Bool
is_issue r = elim r.status [ status_pass ↦ false | _ ↦ not r.skipped ]

abbrev pub any : (HealthResult → Bool) → List HealthResult → Bool
any test [] = false
any test (r ∷ rs) = test r || any test rs

-- Block where a measured check fails and blocks, else warn where one does not pass, else proceed.
abbrev pub verdict_of : List HealthResult → Verdict
verdict_of results =
    if any is_block results then block else if any is_issue results then warn else proceed

abbrev is_loud : Tally → Bool
is_loud t = t.has_warnings || ltb 0 (length t.errors)

||-true : (a : Bool) → (a || true) ≡ true
||-true true = refl
||-true false = refl

||-false : (a : Bool) → (a || false) ≡ a
||-false true = refl
||-false false = refl

||-assoc : (a b c : Bool) → ((a || b) || c) ≡ (a || (b || c))
||-assoc true b c = refl
||-assoc false b c = refl

snoc-loud : (es : List Text) (m : Text) → ltb 0 (length (es ++ m ∷ [])) ≡ true
snoc-loud [] m = refl
snoc-loud (e ∷ es) m = ground arith

-- As `is_block` and `is_issue`, where the check is measured.
abbrev blocking_with : HealthStatus → Bool → Bool
blocking_with s b = elim s [ status_fail ↦ b | _ ↦ false ]

abbrev issue_with : HealthStatus → Bool
issue_with s = elim s [ status_pass ↦ false | _ ↦ true ]

judge-blocking :
    (s : HealthStatus) (b : Bool) (m : Text) (t : Tally)
    → (judge s b m t).has_blocking ≡ (t.has_blocking || blocking_with s b)
unfolding judge
judge-blocking status_pass b m t = sym (||-false t.has_blocking)
judge-blocking status_warn b m t = sym (||-false t.has_blocking)
judge-blocking status_fail true m t = sym (||-true t.has_blocking)
judge-blocking status_fail false m t = sym (||-false t.has_blocking)

judge-loud :
    (s : HealthStatus) (b : Bool) (m : Text) (t : Tally)
    → is_loud (judge s b m t) ≡ (is_loud t || issue_with s)
unfolding judge
judge-loud status_pass b m t = sym (||-false (is_loud t))
judge-loud status_warn b m t = sym (||-true (is_loud t))
judge-loud status_fail true m t =
    ap (λ x. t.has_warnings || x) (snoc-loud t.errors m)
    ∙ ||-true t.has_warnings
    ∙ sym (||-true (is_loud t))
judge-loud status_fail false m t = sym (||-true (is_loud t))

measured-block :
    (r : HealthResult) → r.skipped ≡ false → is_block r ≡ blocking_with r.status r.is_blocking
measured-block r h = go r.status
  where
    go :
        (s : HealthStatus)
        → (elim s [ status_fail ↦ not r.skipped && r.is_blocking | _ ↦ false ])
          ≡ blocking_with s r.is_blocking
    go status_pass = refl
    go status_warn = refl
    go status_fail = rw h refl

skipped-block : (r : HealthResult) → r.skipped ≡ true → is_block r ≡ false
skipped-block r h = go r.status
  where
    go :
        (s : HealthStatus)
        → (elim s [ status_fail ↦ not r.skipped && r.is_blocking | _ ↦ false ]) ≡ false
    go status_pass = refl
    go status_warn = refl
    go status_fail = rw h refl

measured-issue : (r : HealthResult) → r.skipped ≡ false → is_issue r ≡ issue_with r.status
measured-issue r h = go r.status
  where
    go : (s : HealthStatus) → (elim s [ status_pass ↦ false | _ ↦ not r.skipped ]) ≡ issue_with s
    go status_pass = refl
    go status_warn = rw h refl
    go status_fail = rw h refl

skipped-issue : (r : HealthResult) → r.skipped ≡ true → is_issue r ≡ false
skipped-issue r h = go r.status
  where
    go : (s : HealthStatus) → (elim s [ status_pass ↦ false | _ ↦ not r.skipped ]) ≡ false
    go status_pass = refl
    go status_warn = rw h refl
    go status_fail = rw h refl

-- A measured result, with its score.
abbrev pub measured : Tally → HealthResult → Tally
measured t r =
    judge r.status r.is_blocking r.message
      (record t { total_score = t.total_score + r.score; measured_count = suc t.measured_count })

pub tally_result-skipped : (t : Tally) (r : HealthResult) → r.skipped ≡ true → tally_result t r ≡ t
unfolding tally_result
tally_result-skipped t r h = ap (λ b. if b then t else measured t r) h

pub tally_result-measured :
    (t : Tally) (r : HealthResult) → r.skipped ≡ false → tally_result t r ≡ measured t r
unfolding tally_result
tally_result-measured t r h = ap (λ b. if b then t else measured t r) h

tally_result-blocking :
    (t : Tally) (r : HealthResult)
    → (tally_result t r).has_blocking ≡ (t.has_blocking || is_block r)
tally_result-blocking t r = elim (Bool-cases r.skipped) [
  | inl skip ↦
      ap (λ (x : Tally). x.has_blocking) (tally_result-skipped t r skip)
      ∙ sym (ap (λ x. t.has_blocking || x) (skipped-block r skip) ∙ ||-false t.has_blocking)
  | inr kept ↦
      ap (λ (x : Tally). x.has_blocking) (tally_result-measured t r kept)
      ∙ (judge-blocking r.status r.is_blocking r.message _
          ∙ ap (λ x. t.has_blocking || x) (sym (measured-block r kept)))
]

tally_result-loud :
    (t : Tally) (r : HealthResult) → is_loud (tally_result t r) ≡ (is_loud t || is_issue r)
tally_result-loud t r = elim (Bool-cases r.skipped) [
  | inl skip ↦
      ap is_loud (tally_result-skipped t r skip)
      ∙ sym (ap (λ x. is_loud t || x) (skipped-issue r skip) ∙ ||-false (is_loud t))
  | inr kept ↦
      ap is_loud (tally_result-measured t r kept)
      ∙ (judge-loud r.status r.is_blocking r.message _
          ∙ ap (λ x. is_loud t || x) (sym (measured-issue r kept)))
]

tally_results-blocking :
    (t : Tally) (rs : List HealthResult)
    → (tally_results t rs).has_blocking ≡ (t.has_blocking || any is_block rs)
unfolding tally_results
tally_results-blocking t [] = sym (||-false t.has_blocking)
tally_results-blocking t (r ∷ rs) =
    tally_results-blocking (tally_result t r) rs
    ∙ ap (λ x. x || any is_block rs) (tally_result-blocking t r)
    ∙ ||-assoc t.has_blocking (is_block r) (any is_block rs)

tally_results-loud :
    (t : Tally) (rs : List HealthResult)
    → is_loud (tally_results t rs) ≡ (is_loud t || any is_issue rs)
unfolding tally_results
tally_results-loud t [] = sym (||-false (is_loud t))
tally_results-loud t (r ∷ rs) =
    tally_results-loud (tally_result t r) rs
    ∙ ap (λ x. x || any is_issue rs) (tally_result-loud t r)
    ∙ ||-assoc (is_loud t) (is_issue r) (any is_issue rs)

-- The decision is to block where some measured check fails and blocks, else to warn where some
-- measured check does not pass, and else to proceed.
pub aggregate_results-verdict :
    (results : List HealthResult) → (aggregate_results results).decision ≡ verdict_of results
unfolding aggregate_results decide
aggregate_results-verdict results =
    ap
      (λ b. if b then block else if is_loud (tally_results no_tally results) then warn else proceed)
      (tally_results-blocking no_tally results)
    ∙ ap (λ b. if any is_block results then block else if b then warn else proceed)
        (tally_results-loud no_tally results)
