-- ===== src/Health/Workloads/Live.antt =====
-- The check of the workloads judges the live pods that it has listed.
use refresh.Prelude.{
  ℕ, zero, suc, ◌+◌, ◌*◌, ◌/◌, ◌≡◌, refl, ap, ◌∙◌, inl, inr, true, false, Bool-cases, List, [], ◌∷◌,
  ◌++◌, arith, leb, ◌==◌, length, if◌then◌else◌,
}
use mathlib.Core.Path.{ap₂}
use refresh.Text.{Text}
use refresh.Go.{Result, ok, err}
use refresh.Health.{HealthStatus, status_pass, status_warn, status_fail}
use refresh.Health.Workloads.{
  SystemPod, Workloads, critical_namespaces, is_over, is_running, add_pod, add_pods, with_detail,
  add_namespace, percentage, issues_result, judge_workloads, no_workloads, gather,
  checked_workloads, check_critical_workloads,
}

-- The pods that are not over, and those of them that run.
abbrev pub live : List SystemPod → List SystemPod
live [] = []
live (p ∷ ps) = if is_over p then live ps else p ∷ live ps

abbrev pub running : List SystemPod → ℕ
running [] = 0
running (p ∷ ps) = if is_running p then suc (running ps) else running ps

-- No live pod is a warning; all of them running is a pass; nine in ten of them running is a
-- warning, and fewer are a failure.
abbrev pub status_for : (running total : ℕ) → HealthStatus
status_for r zero = status_warn
status_for r (suc n) =
    if r == suc n
    then status_pass
    else if leb 90 (r * 100 / suc n)
    then status_warn
    else status_fail

-- Every pod that counts runs or is a problem.
abbrev Exact : Workloads → Type 0
Exact w = length w.problem_pods + w.running_pods ≡ w.total_pods

-- What the pods add to the counts.
abbrev Grows : Workloads → Workloads → List SystemPod → Type 0
Grows w v ps =
    (v.total_pods ≡ w.total_pods + length (live ps))
    × (v.running_pods ≡ w.running_pods + running (live ps))
    × (Exact w → Exact v)

length-snoc : (ss : List Text) (s : Text) → length (ss ++ s ∷ []) ≡ suc (length ss)
length-snoc [] s = refl
length-snoc (t ∷ ss) s = ap suc (length-snoc ss s)

add_pod-Grows : (ns : Text) (w : Workloads) (p : SystemPod) → Grows w (add_pod ns w p) (p ∷ [])
unfolding add_pod
add_pod-Grows ns w p = elim (Bool-cases (is_over p)) [
  | inl over ↦ rw over (omega arith, omega arith, λ h. h)
  | inr lives ↦ elim (Bool-cases (is_running p)) [
    | inl runs ↦ rw (lives, runs) (omega arith, omega arith, λ h. omega arith)
    | inr stuck ↦
        let more = length-snoc w.problem_pods in
        rw (lives, stuck, more) (omega arith, omega arith, λ h. omega arith)
  ]
]

length-live :
    (ps qs : List SystemPod) → length (live (ps ++ qs)) ≡ length (live ps) + length (live qs)
length-live [] qs = omega arith
length-live (p ∷ ps) qs =
    let rest = length-live ps qs in
    elim (Bool-cases (is_over p)) [ inl over ↦ rw over rest | inr lives ↦ rw lives (omega arith) ]

running-live :
    (ps qs : List SystemPod) → running (live (ps ++ qs)) ≡ running (live ps) + running (live qs)
running-live [] qs = omega arith
running-live (p ∷ ps) qs =
    let rest = running-live ps qs in
    elim (Bool-cases (is_over p)) [
      | inl over ↦ rw over rest
      | inr lives ↦ elim (Bool-cases (is_running p)) [
        | inl runs ↦ rw (lives, runs) (omega arith)
        | inr stuck ↦ rw (lives, stuck) rest
      ]
    ]

add_pods-Grows : (ns : Text) (w : Workloads) (ps : List SystemPod) → Grows w (add_pods ns w ps) ps
unfolding add_pods
add_pods-Grows ns w [] = (omega arith, omega arith, λ h. h)
add_pods-Grows ns w (p ∷ ps) =
    let (total, runs, exact) = add_pod-Grows ns w p in
    let (total', runs', exact') = add_pods-Grows ns (add_pod ns w p) ps in
    let more = length-live (p ∷ []) ps in
    let more_run = running-live (p ∷ []) ps in (omega arith, omega arith, λ h. exact' (exact h))

judge_counts-status :
    (total running_pods : ℕ) (problems details : List Text)
    → length problems + running_pods ≡ total
    → (judge_workloads (record {
      total_pods = total;
      running_pods = running_pods;
      problem_pods = problems;
      details = details;
    })).status
      ≡ status_for running_pods total
unfolding judge_workloads issues_result percentage
judge_counts-status zero r problems details h = refl
judge_counts-status (suc n) r [] details h =
    let all_run : (r == suc n) ≡ true = ground arith in rw all_run refl
judge_counts-status (suc n) r (q ∷ qs) details h =
    let not_all : (r == suc n) ≡ false = ground arith in
    elim (Bool-cases (leb 90 (r * 100 / suc n))) [
      | inl enough ↦ rw (not_all, enough) refl
      | inr few ↦ rw (not_all, few) refl
    ]

abbrev pods_of : Result (List SystemPod) → List SystemPod
pods_of (ok ps) = ps
pods_of (err e) = []

add_namespace-Grows :
    (ns : Text) (w : Workloads) (r : Result (List SystemPod))
    → Grows w (add_namespace ns w r) (pods_of r)
unfolding add_namespace with_detail
add_namespace-Grows ns w (err e) = (omega arith, omega arith, λ h. h)
add_namespace-Grows ns w (ok ps) = add_pods-Grows ns w ps

module _ {W : Type 0} (list_pods : (namespace : Text) → W → Result (List SystemPod) × W) where
  -- The pods of the namespaces, one listing behind the other; one that fails gives none.
  abbrev pub listed : List Text → W → List SystemPod
  listed [] w = []
  listed (ns ∷ nss) w = pods_of (list_pods ns w).0 ++ listed nss (list_pods ns w).1

  gather-Grows :
      (nss : List Text) (found : Workloads) (w : W)
      → Grows found (gather list_pods nss found w).0 (listed nss w)
  unfolding gather
  gather-Grows [] found w = (omega arith, omega arith, λ h. h)
  gather-Grows (ns ∷ nss) found w =
      let r = (list_pods ns w).0 in
      let rest = listed nss (list_pods ns w).1 in
      let (total, runs, exact) = add_namespace-Grows ns found r in
      let (total', runs', exact') =
        gather-Grows nss (add_namespace ns found r) (list_pods ns w).1 in
      let more = length-live (pods_of r) rest in
      let more_run = running-live (pods_of r) rest in
      (omega arith, omega arith, λ h. exact' (exact h))

  -- With a client, the status of the check is that of the live pods that it has listed: a warning
  -- without any, a pass where all of them run with all their containers, and else a warning from
  -- nine in ten on, and a failure below.
  pub check_critical_workloads-live :
      (w : W)
      → (check_critical_workloads list_pods true w).0.status
        ≡ status_for
            (running (live (listed critical_namespaces w)))
            (length (live (listed critical_namespaces w)))
  unfolding check_critical_workloads checked_workloads
  check_critical_workloads-live w =
      let (total, runs, exact) = gather-Grows critical_namespaces no_workloads w in
      let found = (gather list_pods critical_namespaces no_workloads w).0 in
      let pods = live (listed critical_namespaces w) in
      let same_running : found.running_pods ≡ running pods = omega arith in
      let same_total : found.total_pods ≡ length pods = omega arith in
      judge_counts-status found.total_pods found.running_pods found.problem_pods found.details
        (exact (omega arith))
      ∙ ap₂ status_for same_running same_total
