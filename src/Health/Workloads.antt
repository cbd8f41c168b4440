-- ===== src/Health/Workloads.antt =====
-- internal/health/workloads.go: whether the pods of the system namespaces are running.
pub mod Live
use refresh.Prelude.{
  ℕ, zero, suc, ◌+◌, ◌-◌, ◌*◌, ◌/◌, Bool, true, false, ◌&&◌, ◌||◌, List, [], ◌∷◌, ◌++◌, Option,
  none, some, leb, length, if◌then◌else◌,
}
use refresh.Text.{Text, txt, concat, join, text_eq}
use refresh.Text.Decimal.{format_nat}
use refresh.Go.{GoError, error_text, Result, ok, err}
use refresh.Health.{HealthStatus, status_pass, status_warn, status_fail, HealthResult}

-- The fields of a pod that the check reads: `ready` holds the flags of its containers.
pub record SystemPod : Type 0 where
  pub name : Text
  pub phase : Text
  pub reason : Text
  pub ready : List Bool

-- What the loops have gathered.
pub record Workloads : Type 0 where
  pub total_pods : ℕ
  pub running_pods : ℕ
  pub problem_pods : List Text
  pub details : List Text

abbrev pub critical_namespaces : List Text
critical_namespaces = txt "kube-system" ∷ txt "kube-public" ∷ txt "kube-node-lease" ∷ []

-- A completed pod, or a failed one that an eviction or a shutdown left behind.
unfoldable pub is_over : SystemPod → Bool
is_over p =
    text_eq p.phase (txt "Succeeded")
    || text_eq p.phase (txt "Failed")
      && (text_eq p.reason (txt "Evicted")
          || text_eq p.reason (txt "Shutdown")
          || text_eq p.reason (txt "NodeShutdown"))

abbrev pub all_ready : List Bool → Bool
all_ready [] = true
all_ready (b ∷ bs) = b && all_ready bs

unfoldable pub is_running : SystemPod → Bool
is_running p = text_eq p.phase (txt "Running") && all_ready p.ready

-- What is wrong with a pod that is not over and does not run with all its containers.
problem : (namespace : Text) → SystemPod → Text
problem namespace p = concat (
    namespace
    ∷ txt "/"
    ∷ p.name
    ∷ txt " ("
    ∷ (if text_eq p.phase (txt "Running") then txt "containers not ready" else p.phase)
    ∷ txt ")"
    ∷ [])

-- One round of the loop over the pods.
unfoldable pub add_pod : (namespace : Text) → Workloads → SystemPod → Workloads
unfolding problem
add_pod namespace w p =
    if is_over p
    then w
    else if is_running p
    then record w { total_pods = suc w.total_pods; running_pods = suc w.running_pods }
    else record w {
      total_pods = suc w.total_pods;
      problem_pods = w.problem_pods ++ problem namespace p ∷ [];
    }

unfoldable pub add_pods : (namespace : Text) → Workloads → List SystemPod → Workloads
unfolding add_pod
add_pods namespace w [] = w
add_pods namespace w (p ∷ ps) = add_pods namespace (add_pod namespace w p) ps

with_detail : Workloads → Text → Workloads
with_detail w line = record w { details = w.details ++ line ∷ [] }

-- The line about a namespace, with the pods that it has added to the counts before it.
namespace_line : (namespace : Text) → (before after : Workloads) → Text
namespace_line namespace before after = concat (
    namespace
    ∷ txt ": "
    ∷ format_nat (after.running_pods - before.running_pods)
    ∷ txt "/"
    ∷ format_nat (after.total_pods - before.total_pods)
    ∷ txt " pods running"
    ∷ [])

unfoldable pub add_namespace : (namespace : Text) → Workloads → Result (List SystemPod) → Workloads
unfolding add_pods with_detail namespace_line
add_namespace namespace w (err e) =
    with_detail w
      (concat (txt "Failed to list pods in " ∷ namespace ∷ txt ": " ∷ error_text e ∷ []))
add_namespace namespace w (ok pods) =
    let after = add_pods namespace w pods in with_detail after (namespace_line namespace w after)

-- `%v` of a slice of texts
bracketed : List Text → Text
bracketed ss = concat (txt "[" ∷ join (txt " ") ss ∷ txt "]" ∷ [])

workload_result :
    HealthStatus → (score : ℕ) → (message : Text) → (details : List Text) → HealthResult
workload_result status score message details = record {
  name = txt "Critical Workloads";
  status = status;
  score = score;
  message = message;
  details = details;
  is_blocking = true;
  skipped = false;
}

unfoldable pub percentage : (running total : ℕ) → ℕ
percentage running zero = 0
percentage running (suc n) = running * 100 / suc n

running_line : Workloads → Text
running_line w = concat (
    format_nat w.running_pods
    ∷ txt "/"
    ∷ format_nat w.total_pods
    ∷ txt " critical pods running"
    ∷ [])

issues_result : HealthStatus → Workloads → HealthResult
unfolding workload_result running_line bracketed
issues_result status w =
    workload_result status (percentage w.running_pods w.total_pods)
      (concat (running_line w ∷ txt ", " ∷ format_nat (length w.problem_pods) ∷ txt " issues" ∷ []))
      (w.details ++ concat (txt "Problem pods: " ∷ bracketed w.problem_pods ∷ []) ∷ [])

-- The score and the status, behind the loops.
unfoldable pub judge_workloads : Workloads → HealthResult
unfolding workload_result running_line issues_result
judge_workloads w = elim w.total_pods [
  | zero ↦ workload_result status_warn 70 (txt "No critical pods found") w.details
  | suc n ↦ elim w.problem_pods [
    | [] ↦
        workload_result status_pass (percentage w.running_pods w.total_pods) (running_line w)
          w.details
    | _ ∷ _ ↦
        if leb 90 (percentage w.running_pods w.total_pods)
        then issues_result status_warn w
        else issues_result status_fail w
  ]
]

no_client : HealthResult
no_client = record {
  name = txt "Critical Workloads";
  status = status_warn;
  score = 70;
  message = txt "Kubernetes client not available, skipping workload check";
  details = txt "Install kubectl and configure cluster access to enable this check" ∷ [];
  is_blocking = false;
  skipped = true;
}

abbrev pub no_workloads : Workloads
no_workloads = record { total_pods = 0; running_pods = 0; problem_pods = []; details = [] }

module _ {W : Type 0} (list_pods : (namespace : Text) → W → Result (List SystemPod) × W) where
  -- The loop over the namespaces.
  unfoldable pub gather : List Text → Workloads → W → Workloads × W
  unfolding add_namespace
  gather [] found w = (found, w)
  gather (namespace ∷ namespaces) found w =
      let (r, v) = list_pods namespace w in gather namespaces (add_namespace namespace found r) v

  checked_workloads : Workloads × W → HealthResult × W
  unfolding judge_workloads
  checked_workloads (found, w) = (judge_workloads found, w)

  -- `CheckCriticalWorkloads`, with or without a client.
  unfoldable pub check_critical_workloads : (has_client : Bool) → W → HealthResult × W
  unfolding gather checked_workloads no_client
  check_critical_workloads has_client w =
      let checked = checked_workloads (gather critical_namespaces no_workloads w) in
      if has_client then checked else (no_client, w)
