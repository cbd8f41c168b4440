-- ===== src/Addons/Dependency.antt =====
-- internal/services/addons/addon_dependencies.go: the order in which addons are updated.
pub mod Waiting
pub mod Distinct
pub mod Joining
pub mod Rounds
pub mod Start
pub mod Counting
pub mod Precedence
pub mod Before
pub mod First
pub mod Table
pub mod Sorted
pub mod Keeps
pub mod Ends
use refresh.Prelude.{
  ℕ, zero, suc, ◌+◌, Bool, true, false, ◌||◌, List, [], ◌∷◌, ◌++◌, Option, none, some, length, ◌==◌,
  ltb, if◌then◌else◌,
}
use refresh.Prelude.Int.{ℤ, pos, negsuc, ◌+ℤ◌, ◌-ℤ◌}
use refresh.Text.{Text, txt, text_eq}
use refresh.Addons.Service.{AddonSummary}

-- `addonDependencies`: an addon, and those that are updated before it.
unfoldable pub addon_dependencies : List (Text × List Text)
addon_dependencies =
    (txt "kube-proxy", txt "vpc-cni" ∷ [])
    ∷ (txt "coredns", txt "vpc-cni" ∷ [])
    ∷ (txt "aws-ebs-csi-driver", txt "vpc-cni" ∷ txt "coredns" ∷ [])
    ∷ (txt "aws-efs-csi-driver", txt "vpc-cni" ∷ txt "coredns" ∷ [])
    ∷ (txt "aws-fsx-csi-driver", txt "vpc-cni" ∷ txt "coredns" ∷ [])
    ∷ (txt "amazon-cloudwatch-observability", txt "coredns" ∷ [])
    ∷ (txt "adot", txt "coredns" ∷ [])
    ∷ (txt "aws-guardduty-agent", txt "vpc-cni" ∷ [])
    ∷ []

unfoldable pub dependencies_in : List (Text × List Text) → Text → List Text
dependencies_in [] name = []
dependencies_in ((key, deps) ∷ table) name =
    if text_eq key name then deps else dependencies_in table name

-- `addonDependencies[name]`
unfoldable pub dependencies : Text → List Text
unfolding dependencies_in addon_dependencies
dependencies name = dependencies_in addon_dependencies name

-- `nameToAddon`: the last addon of the name.
unfoldable pub find_addon : List AddonSummary → Text → Option AddonSummary
find_addon [] name = none
find_addon (a ∷ addons) name = elim (find_addon addons name) [
  | some b ↦ some b
  | none ↦ if text_eq a.name name then some a else none
]

abbrev pub is_some {ℓ} : {A : Type ℓ} → Option A → Bool
is_some none = false
is_some (some a) = true

-- The maps of the algorithm: the dependencies that an addon still waits for, and the addons that
-- wait for an addon, in order.
pub record Graph : Type 0 where
  pub in_degree : Text → ℤ
  pub dependents : Text → List Text

abbrev pub update {ℓ} : {A : Type ℓ} → (Text → A) → Text → A → Text → A
update f key v name = if text_eq key name then v else f name

pub add_edge : Graph → (name dep : Text) → Graph
add_edge g name dep = record {
  in_degree = update g.in_degree name (g.in_degree name +ℤ pos 1);
  dependents = update g.dependents dep (g.dependents dep ++ name ∷ []);
}

-- The loop over the dependencies of one addon; one that is not installed gives no edge.
pub add_edges : List AddonSummary → Text → List Text → Graph → Graph
unfolding add_edge find_addon
add_edges addons name [] g = g
add_edges addons name (dep ∷ deps) g =
    add_edges addons name deps (if is_some (find_addon addons dep) then add_edge g name dep else g)

pub build_graph : List AddonSummary → List AddonSummary → Graph → Graph
unfolding add_edges
build_graph addons [] g = g
build_graph addons (a ∷ rest) g =
    build_graph addons rest (add_edges addons a.name (dependencies a.name) g)

pub empty_graph : Graph
empty_graph = record { in_degree = λ name. pos 0; dependents = λ name. [] }

pub is_ready : ℤ → Bool
is_ready (pos n) = n == 0
is_ready (negsuc n) = false

-- The queue before the first round: the addons that wait for none.
pub ready_names : Graph → List AddonSummary → List Text
unfolding is_ready
ready_names g [] = []
ready_names g (a ∷ addons) =
    let rest = ready_names g addons in if is_ready (g.in_degree a.name) then a.name ∷ rest else rest

-- The loop over the dependents of the addon that was taken: each waits for one addon less, and
-- joins the queue when it waits for none.
pub release : List Text → Graph → List Text → Graph × List Text
unfolding is_ready
release [] g queue = (g, queue)
release (d ∷ ds) g queue =
    let g' = record g { in_degree = update g.in_degree d (g.in_degree d -ℤ pos 1) } in
    release ds g' (if is_ready (g'.in_degree d) then queue ++ d ∷ [] else queue)

-- `nameToAddon[name]`, with the zero value for a missing name.
pub addon_named : List AddonSummary → Text → AddonSummary
addon_named addons name = elim (find_addon addons name) [
  | some a ↦ a
  | none ↦ record { name = []; version = []; status = []; health = [] }
]

-- The loop over the queue. `none` means that `fuel` rounds did not empty it.
pub kahn :
    List AddonSummary
    → (fuel : ℕ) → Graph
    → List Text
    → List AddonSummary
    → Option (List AddonSummary)
unfolding release addon_named
kahn addons fuel g [] ordered = some ordered
kahn addons zero g (name ∷ queue) ordered = none
kahn addons (suc fuel) g (name ∷ queue) ordered =
    let (g', queue') = release (g.dependents name) g queue in
    kahn addons fuel g' queue' (ordered ++ addon_named addons name ∷ [])

unfoldable pub has_name : List AddonSummary → Text → Bool
has_name [] name = false
has_name (a ∷ addons) name = text_eq a.name name || has_name addons name

pub missing : List AddonSummary → List AddonSummary → List AddonSummary
unfolding has_name
missing seen [] = []
missing seen (a ∷ addons) =
    let rest = missing seen addons in if has_name seen a.name then rest else a ∷ rest

-- The addons that a cycle has left out come last.
pub complete : List AddonSummary → List AddonSummary → List AddonSummary
unfolding missing
complete addons ordered =
    if ltb (length ordered) (length addons) then ordered ++ missing ordered addons else ordered

-- `SortByDependency`. An addon joins the queue at the start, or when its last dependency is taken.
unfoldable pub sort_by_dependency : List AddonSummary → Option (List AddonSummary)
unfolding kahn complete build_graph ready_names empty_graph dependencies
sort_by_dependency addons =
    let g = build_graph addons addons empty_graph in
    elim (kahn addons (length addons + length addons) g (ready_names g addons) []) [
      | none ↦ none
      | some ordered ↦ some (complete addons ordered)
    ]
