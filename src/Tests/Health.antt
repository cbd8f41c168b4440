-- ===== src/Tests/Health.antt =====
-- Health results, and a cluster with a few system pods.
use refresh.Prelude.{ℕ, ◌≤◌, ◌≡◌, refl, inl, inr, Bool, true, false, List, [], ◌∷◌, length, arith}
use refresh.Text.{Text, txt}
use refresh.Go.{Result, ok}
use refresh.Health.{
  HealthStatus, status_pass, status_warn, status_fail, HealthResult, aggregate_results,
}
use refresh.Health.Decision.{verdict_of, aggregate_results-verdict}
use refresh.Health.Score.{aggregate_results_score}
use refresh.Health.Workloads.{SystemPod, critical_namespaces, check_critical_workloads}
use refresh.Health.Workloads.Live.{live, running, status_for, listed, check_critical_workloads-live}

abbrev scored : HealthStatus → ℕ → (skipped : Bool) → HealthResult
scored status score skipped = record {
  name = txt "check";
  status = status;
  score = score;
  message = txt "message";
  details = [];
  is_blocking = true;
  skipped = skipped;
}

abbrev mixed : List HealthResult
mixed = scored status_pass 95 false ∷ scored status_warn 70 true ∷ scored status_fail 40 false ∷ []

aggregate_results-verdict_example : (aggregate_results mixed).decision ≡ verdict_of mixed
aggregate_results-verdict_example = aggregate_results-verdict mixed

aggregate_results_score_example :
    (40 ≤ (aggregate_results mixed).overall_score) × ((aggregate_results mixed).overall_score ≤ 100)
aggregate_results_score_example =
    aggregate_results_score 40 100 mixed
      (inr (omega arith, omega arith), (inl refl, (inr (omega arith, omega arith), tt))) (inl refl)

abbrev system_pod : Text → SystemPod
system_pod phase = record { name = txt "coredns"; phase = phase; reason = []; ready = true ∷ [] }

abbrev list_pods : Text → Unit {0} → Result (List SystemPod) × Unit {0}
list_pods ns w = (
  ok (system_pod (txt "Running") ∷ system_pod (txt "Pending") ∷ system_pod (txt "Succeeded") ∷ []),
  w,
)

check_critical_workloads-live_example :
    (check_critical_workloads list_pods true tt).0.status
    ≡ status_for
        (running (live (listed list_pods critical_namespaces tt)))
        (length (live (listed list_pods critical_namespaces tt)))
check_critical_workloads-live_example = check_critical_workloads-live list_pods tt
