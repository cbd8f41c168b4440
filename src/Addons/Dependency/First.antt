-- ===== src/Addons/Dependency/First.antt =====
-- The loop of the sort puts addons behind their dependencies.
use mathlib.Core.Path.{subst}
use refresh.Prelude.{
  ℕ, zero, suc, ◌+◌, ◌≡◌, refl, sym, ap, ◌∙◌, ◌⊎◌, inl, inr, true, false, Bool-cases, List, [], ◌∷◌,
  ◌++◌, some, arith,
}
use refresh.Prelude.Int.{pos, ltb_ℤ}
use refresh.Text.{Text}
use refresh.Addons.Service.{AddonSummary}
use refresh.Addons.Dependency.{
  Graph, build_graph, empty_graph, ready_names, release, is_ready, find_addon, is_some,
  dependencies, has_name, addon_named, kahn,
}
use refresh.Addons.Dependency.Waiting.{Names, AllNamed, Closed}
use refresh.Addons.Dependency.Distinct.{In, Unique}
use refresh.Addons.Dependency.Ends.{release-rounds}
use refresh.Addons.Dependency.Joining.{addon_named-In}
use refresh.Addons.Dependency.Rounds.{Joined, Joined-take, release-Joined}
use refresh.Addons.Dependency.Start.{ready_names-In}
use refresh.Addons.Dependency.Counting.{times, edges, graph-Counts}
use refresh.Addons.Dependency.Precedence.{pending_edges, Waits, release-Waits}
use refresh.Addons.Dependency.Before.{DepsFirst, DepsFirst-snoc, none_pending, Edged, Waits-take}

pending_edges-none :
    (addons : List AddonSummary) (deps : List Text)
    → edges addons deps ≡ pending_edges addons [] deps + 0
unfolding has_name
pending_edges-none addons [] = refl
pending_edges-none addons (d ∷ deps) =
    let rest = pending_edges-none addons deps in
    elim (Bool-cases (is_some (find_addon addons d))) [
      | inl there ↦ rw there (omega arith)
      | inr gone ↦ rw gone (omega arith)
    ]

In-ready_names :
    (g : Graph) (addons : List AddonSummary) (n : Text)
    → Names addons n
    → is_ready (g.in_degree n) ≡ true
    → In (ready_names g addons) n
unfolding ready_names
In-ready_names g [] n h ready = h
In-ready_names g (a ∷ addons) n (inl e) ready =
    rw (ap (λ m. is_ready (g.in_degree m)) e ∙ ready) (inl e)
In-ready_names g (a ∷ addons) n (inr h) ready =
    let later = In-ready_names g addons n h ready in
    elim (Bool-cases (is_ready (g.in_degree a.name))) [
      | inl free ↦ rw free (inr later)
      | inr waits ↦ rw waits later
    ]

module _ (addons : List AddonSummary) (u : Unique addons) where
  abbrev pub first_graph : Graph
  first_graph = build_graph addons addons empty_graph

  pub first-Waits : Waits addons [] (ready_names first_graph addons) [] first_graph
  first-Waits = record {
    degree = degree_first;
    done = λ n i.
        let (h, free) = ready_names-In first_graph addons n i in
        zero_free (ap (ltb_ℤ (pos 0)) (sym (degree_first n h)) ∙ free);
    left = λ n h. still n h;
  }
    where
      degree_first :
          (n : Text)
          → Names addons n
          → first_graph.in_degree n ≡ pos (pending_edges addons [] (dependencies n) + times [] n)
      degree_first n h =
          (graph-Counts addons n u h).degree ∙ ap pos (pending_edges-none addons (dependencies n))

      zero_free : {k : ℕ} → ltb_ℤ (pos 0) (pos (k + 0)) ≡ false → k ≡ 0
      zero_free h = ground arith

      still :
          (n : Text)
          → Names addons n
          → (In (ready_names first_graph addons) n ⊎ Names [] n)
            ⊎ (is_ready (first_graph.in_degree n) ≡ false)
      still n h = elim (Bool-cases (is_ready (first_graph.in_degree n))) [
        | inl ready ↦ inl (inl (In-ready_names first_graph addons n h ready))
        | inr waits ↦ inr waits
      ]

  -- The loop has put every addon behind its dependencies, and what it has not taken still waits.
  abbrev pub Finished : List AddonSummary → Type 0
  Finished result =
      DepsFirst addons [] result
      × ((n : Text)
          → Names addons n
          → Names result n
            ⊎ (is_ready (pos (pending_edges addons result (dependencies n))) ≡ false))

  pub kahn-Finished :
      (fuel : ℕ) (g : Graph) (queue : List Text) (taken result : List AddonSummary)
      → Closed addons g
      → Edged addons g
      → Joined addons taken g queue
      → Waits addons taken queue [] g
      → DepsFirst addons [] taken
      → kahn addons fuel g queue taken ≡ some result
      → Finished result
  unfolding kahn
  kahn-Finished fuel g [] taken result closed edged j w first h =
      subst Finished (some_eq h) (first, λ n k. settled n k)
    where
      some_eq : {A : Type 0} {a b : A} → some a ≡ some b → a ≡ b
      some_eq k = cc

      plus_zero : (k : ℕ) → k ≡ k + 0
      plus_zero k = omega arith

      settled :
          (n : Text)
          → Names addons n
          → Names taken n ⊎ (is_ready (pos (pending_edges addons taken (dependencies n))) ≡ false)
      settled n k = elim (w.left n k) [
        | inl (inl i) ↦ elim i [ ]
        | inl (inr done) ↦ inl done
        | inr waits ↦ inr (ap is_ready (ap pos (plus_zero _) ∙ sym (w.degree n k)) ∙ waits)
      ]
  kahn-Finished zero g (name ∷ queue) taken result closed edged j w first h = cc
  kahn-Finished (suc fuel) g (name ∷ queue) taken result closed edged j w first h =
      let next = release (g.dependents name) g queue in
      let a = addon_named addons name in
      let (inside, same) = addon_named-In addons name j.named.0 in
      let (_, kept) = release-rounds addons (g.dependents name) g queue (closed name) in
      kahn-Finished fuel next.0 next.1 (taken ++ a ∷ []) result
        (λ n. subst (λ (ds : Text → List Text). AllNamed addons (ds n)) (sym kept) (closed n))
        (λ n m k. ap (λ (ds : Text → List Text). times (ds m) n) kept ∙ edged n m k)
        (release-Joined addons (taken ++ a ∷ []) (g.dependents name) g queue (closed name)
          (Joined-take addons taken g name queue j))
        (release-Waits addons (taken ++ a ∷ []) (g.dependents name) g queue (closed name)
          (Waits-take addons taken g name queue a same j.named.0 (j.apart name (inl refl)) edged w))
        (DepsFirst-snoc addons [] taken a first (λ d i n.
          none_pending addons taken (dependencies a.name) d
            (ap (λ x. pending_edges addons taken (dependencies x)) same ∙ w.done name (inl refl)) i
            n))
        h
