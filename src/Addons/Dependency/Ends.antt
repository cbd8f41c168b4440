-- ===== src/Addons/Dependency/Ends.antt =====
-- The rounds that the sort is given empty its queue.
use refresh.Prelude.{
  ℕ, zero, suc, ◌+◌, ◌≤◌, ◌≡◌, refl, sym, ap, ◌∙◌, inl, inr, Bool, true, Bool-cases, List, [], ◌∷◌,
  ◌++◌, Option, none, some, arith, length, if◌then◌else◌,
}
use refresh.Prelude.Int.{ℤ}
use mathlib.Core.Path.{subst}
use refresh.Text.{Text, text_eq}
use refresh.Addons.Service.{AddonSummary}
use refresh.Addons.Dependency.{
  Graph, add_edge, add_edges, build_graph, empty_graph, is_ready, ready_names, release, addon_named,
  kahn, complete, sort_by_dependency, dependencies, find_addon, is_some,
}
use refresh.Addons.Dependency.Waiting.{
  Names, AllNamed, Closed, waiting, one_less, one_less-at, waiting-one_less, is_ready-last,
  waiting-released, add_if,
}

length-snoc : (ns : List Text) (n : Text) → length (ns ++ n ∷ []) ≡ suc (length ns)
length-snoc [] n = refl
length-snoc (m ∷ ns) n = ap suc (length-snoc ns n)

-- The addons in the queue and those that wait.
abbrev pub open_rounds : List AddonSummary → Graph → List Text → ℕ
open_rounds addons g queue = length queue + waiting g.in_degree addons

-- What a release leaves has no more rounds to go than there were.
abbrev pub Shrinks : List AddonSummary → (before after : Graph × List Text) → Type 0
Shrinks addons (g, queue) (g', queue') =
    (open_rounds addons g' queue' ≤ open_rounds addons g queue) × (g'.dependents ≡ g.dependents)

pub release-rounds :
    (addons : List AddonSummary) (ds : List Text) (g : Graph) (queue : List Text)
    → AllNamed addons ds
    → Shrinks addons (g, queue) (release ds g queue)
unfolding release
release-rounds addons [] g queue named = (omega arith, refl)
release-rounds addons (d ∷ ds) g queue (here, named) =
    let g1 : Graph = record g { in_degree = one_less g.in_degree d } in
    let joined = λ (b : Bool). if b then queue ++ d ∷ [] else queue in
    elim (Bool-cases (is_ready (one_less g.in_degree d d))) [
      | inl freed ↦
          let (le, same) = release-rounds addons ds g1 (queue ++ d ∷ []) named in
          let last =
            is_ready-last (g.in_degree d) (ap is_ready (sym (one_less-at g.in_degree d)) ∙ freed) in
          let lt = waiting-released g.in_degree d addons last here in
          let longer = length-snoc queue d in
          subst (λ b. Shrinks addons (g, queue) (release ds g1 (joined b))) (sym freed)
            (omega arith, same)
      | inr waits ↦
          let (le, same) = release-rounds addons ds g1 queue named in
          let fewer = waiting-one_less g.in_degree d addons in
          subst (λ b. Shrinks addons (g, queue) (release ds g1 (joined b))) (sym waits)
            (omega arith, same)
    ]

kahn-ends :
    (addons : List AddonSummary) (fuel : ℕ) (g : Graph) (queue : List Text)
    (ordered : List AddonSummary)
    → Closed addons g
    → open_rounds addons g queue ≤ fuel
    → (result : List AddonSummary) × (kahn addons fuel g queue ordered ≡ some result)
unfolding kahn
kahn-ends addons fuel g [] ordered closed enough = (ordered, refl)
kahn-ends addons zero g (name ∷ queue) ordered closed enough = absurd (omega arith)
kahn-ends addons (suc fuel) g (name ∷ queue) ordered closed enough =
    let (le, same) = release-rounds addons (g.dependents name) g queue (closed name) in
    let g1 = (release (g.dependents name) g queue).0 in
    kahn-ends addons fuel g1 (release (g.dependents name) g queue).1
      (ordered ++ addon_named addons name ∷ [])
      (λ n. subst (λ (ds : Text → List Text). AllNamed addons (ds n)) (sym same) (closed n))
      (omega arith)

pub AllNamed-snoc :
    (addons : List AddonSummary) (ns : List Text) (n : Text)
    → AllNamed addons ns
    → Names addons n
    → AllNamed addons (ns ++ n ∷ [])
AllNamed-snoc addons [] n named here = (here, tt)
AllNamed-snoc addons (m ∷ ns) n (first, named) here = (first, AllNamed-snoc addons ns n named here)

add_edge-Closed :
    (addons : List AddonSummary) (g : Graph) (name dep : Text)
    → Names addons name
    → Closed addons g
    → Closed addons (add_edge g name dep)
unfolding add_edge
add_edge-Closed addons g name dep here closed n = elim (Bool-cases (text_eq dep n)) [
  | inl same ↦ rw same (AllNamed-snoc addons (g.dependents dep) name (closed dep) here)
  | inr other ↦ rw other (closed n)
]

add_edges-Closed :
    (addons : List AddonSummary) (name : Text) (deps : List Text) (g : Graph)
    → Names addons name
    → Closed addons g
    → Closed addons (add_edges addons name deps g)
unfolding add_edges
add_edges-Closed addons name [] g here closed = closed
add_edges-Closed addons name (dep ∷ deps) g here closed =
    elim (Bool-cases (is_some (find_addon addons dep))) [
      | inl there ↦ subst kept (sym there) (
          add_edges-Closed addons name deps (add_edge g name dep) here
            (add_edge-Closed addons g name dep here closed))
      | inr missing ↦ subst kept (sym missing) (add_edges-Closed addons name deps g here closed)
    ]
  where
    kept : Bool → Type 0
    kept b = Closed addons (add_edges addons name deps (if b then add_edge g name dep else g))

-- Each of the addons has its name.
abbrev Within : List AddonSummary → List AddonSummary → Type 0
Within addons [] = Unit
Within addons (a ∷ rest) = Names addons a.name × Within addons rest

Within-cons :
    (a : AddonSummary) (addons rest : List AddonSummary)
    → Within addons rest
    → Within (a ∷ addons) rest
Within-cons a addons [] h = tt
Within-cons a addons (b ∷ rest) (here, h) = (inr here, Within-cons a addons rest h)

Within-refl : (addons : List AddonSummary) → Within addons addons
Within-refl [] = tt
Within-refl (a ∷ addons) = (inl refl, Within-cons a addons addons (Within-refl addons))

build_graph-Closed :
    (addons rest : List AddonSummary) (g : Graph)
    → Within addons rest
    → Closed addons g
    → Closed addons (build_graph addons rest g)
unfolding build_graph
build_graph-Closed addons [] g within closed = closed
build_graph-Closed addons (a ∷ rest) g (here, within) closed =
    build_graph-Closed addons rest (add_edges addons a.name (dependencies a.name) g) within
      (add_edges-Closed addons a.name (dependencies a.name) g here closed)

ready-few : (g : Graph) (addons : List AddonSummary) → length (ready_names g addons) ≤ length addons
unfolding ready_names
ready-few g [] = omega arith
ready-few g (a ∷ addons) =
    let few = ready-few g addons in
    elim (Bool-cases (is_ready (g.in_degree a.name))) [
      | inl free ↦ rw free (omega arith)
      | inr waits ↦ rw waits (omega arith)
    ]

waiting-few :
    (degree : Text → ℤ) (addons : List AddonSummary) → waiting degree addons ≤ length addons
waiting-few degree [] = omega arith
waiting-few degree (a ∷ addons) = add_if _ true _ _ (λ h. refl) (waiting-few degree addons)

pub all_Closed :
    (addons : List AddonSummary) → Closed addons (build_graph addons addons empty_graph)
unfolding empty_graph
all_Closed addons = build_graph-Closed addons addons empty_graph (Within-refl addons) (λ n. tt)

-- The loop of the sort ends within two rounds for each addon.
pub kahn_returns :
    (addons : List AddonSummary)
    → (ordered : List AddonSummary) × (kahn addons
          (length addons + length addons)
          (build_graph addons addons empty_graph)
          (ready_names (build_graph addons addons empty_graph) addons)
          []
        ≡ some ordered)
kahn_returns addons =
    let g = build_graph addons addons empty_graph in
    let ready = ready-few g addons in
    let waits = waiting-few g.in_degree addons in
    kahn-ends addons (length addons + length addons) g (ready_names g addons) [] (all_Closed addons)
      (omega arith)

-- The sort of the addons ends within two rounds for each of them.
pub sort_by_dependency_ends :
    (addons : List AddonSummary)
    → (sorted : List AddonSummary) × (sort_by_dependency addons ≡ some sorted)
unfolding sort_by_dependency
sort_by_dependency_ends addons =
    let (ordered, ends) = kahn_returns addons in
    (
      complete addons ordered,
      ap
          (λ (o : Option (List AddonSummary)). elim o [
            | none ↦ none
            | some ns ↦ some (complete addons ns)
          ])
          ends,
    )
