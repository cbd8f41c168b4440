-- ===== src/Addons/Dependency/Sorted.antt =====
-- The finished sort has every addon, behind its dependencies.
use mathlib.Core.Path.{subst}
use mathlib.Core.List.{append-nil}
use refresh.Prelude.{
  ◌+◌, ◌≡◌, refl, sym, ap, ◌∙◌, inl, inr, Bool-cases, List, [], ◌∷◌, ◌++◌, Option, none, some,
  length, ltb,
}
use refresh.Text.{Text, txt}
use refresh.Addons.Service.{AddonSummary}
use refresh.Addons.Dependency.{
  build_graph, empty_graph, ready_names, dependencies, missing, complete, sort_by_dependency,
}
use refresh.Addons.Dependency.Waiting.{Names}
use refresh.Addons.Dependency.Distinct.{In, In-Names, Unique}
use refresh.Addons.Dependency.Ends.{all_Closed, kahn_returns}
use refresh.Addons.Dependency.Joining.{true_false}
use refresh.Addons.Dependency.Start.{first-Joined}
use mathlib.Core.List.{Perm}
use refresh.Addons.Dependency.Keeps.{sort_by_dependency-Perm, has_name-Names, missing-In}
use refresh.Addons.Dependency.Counting.{graph-Counts}
use refresh.Addons.Dependency.Before.{DepsFirst, some_pending}
use refresh.Addons.Dependency.Table.{Base, dependencies-Base, coredns_needs, vpc_cni_needs}
use refresh.Addons.Dependency.First.{first-Waits, Finished, kahn-Finished}

module _ (addons : List AddonSummary) (u : Unique addons) where
  module _ (result : List AddonSummary) (f : Finished addons u result) where
    -- An addon is taken when its dependencies are.
    taken_after :
        (n : Text)
        → ((d : Text) → In (dependencies n) d → Names addons d → Names result d)
        → Names addons n
        → Names result n
    taken_after n before h = elim (f.1 n h) [
      | inl done ↦ done
      | inr waits ↦
          let (d, i, k, new) = some_pending addons result (dependencies n) waits in
          true_false (sym ((has_name-Names result d).1 (before d i k)) ∙ new)
    ]

    taken_vpc_cni : Names addons (txt "vpc-cni") → Names result (txt "vpc-cni")
    taken_vpc_cni =
        taken_after (txt "vpc-cni") (λ d i k. elim (subst (λ ds. In ds d) vpc_cni_needs i) [ ])

    taken_coredns : Names addons (txt "coredns") → Names result (txt "coredns")
    taken_coredns =
        taken_after (txt "coredns") (λ d i k. only d (subst (λ ds. In ds d) coredns_needs i) k)
      where
        only : (d : Text) → In (txt "vpc-cni" ∷ []) d → Names addons d → Names result d
        only d (inl e) k = subst (Names result) e (taken_vpc_cni (subst (Names addons) (sym e) k))
        only d (inr i) k = elim i [ ]

    all_taken : (n : Text) → Names addons n → Names result n
    all_taken n = taken_after n (λ d i k. base d (dependencies-Base n d i) k)
      where
        base : (d : Text) → Base d → Names addons d → Names result d
        base d (inl e) k = subst (Names result) (sym e) (taken_vpc_cni (subst (Names addons) e k))
        base d (inr e) k = subst (Names result) (sym e) (taken_coredns (subst (Names addons) e k))

    none_missing : missing result addons ≡ []
    none_missing = empty (missing result addons) (λ a i.
        let (h, new) = missing-In result addons a i in
        true_false
          (sym ((has_name-Names result a.name).1 (all_taken a.name (In-Names addons a h))) ∙ new))
      where
        empty : (xs : List AddonSummary) → ((a : AddonSummary) → In xs a → ⊥) → xs ≡ []
        empty [] h = refl
        empty (x ∷ xs) h = absurd (h x (inl refl))

    complete_as_taken : complete addons result ≡ result
    unfolding complete
    complete_as_taken = elim (Bool-cases (ltb (length result) (length addons))) [
      | inl fewer ↦ rw fewer (ap (λ xs. result ++ xs) none_missing ∙ append-nil result)
      | inr enough ↦ rw enough refl
    ]

sort_by_dependency_ordered :
    (addons : List AddonSummary)
    → Unique addons
    → (sorted : List AddonSummary) × (sort_by_dependency addons ≡ some sorted)
      × DepsFirst addons [] sorted
unfolding sort_by_dependency empty_graph
sort_by_dependency_ordered addons u =
    let (ordered, ends) = kahn_returns addons in
    let g = build_graph addons addons empty_graph in
    let f =
      kahn-Finished addons u (length addons + length addons) g (ready_names g addons) [] ordered
        (all_Closed addons) (λ n m h. (graph-Counts addons n u h).into m) (first-Joined addons g u)
        (first-Waits addons u) tt ends in
    (
      ordered,
      ap
            (λ (o : Option (List AddonSummary)). elim o [
              | none ↦ none
              | some ns ↦ some (complete addons ns)
            ])
            ends
          ∙ ap some (complete_as_taken addons u ordered f),
      f.0,
    )

-- Where the addons have different names, the sort by their dependencies ends with the same addons,
-- each once, and every addon stands behind those of its dependencies that are in the list.
pub sort_by_dependency-DepsFirst :
    (addons : List AddonSummary)
    → Unique addons
    → (sorted : List AddonSummary) × (sort_by_dependency addons ≡ some sorted)
      × Perm addons sorted
      × DepsFirst addons [] sorted
sort_by_dependency-DepsFirst addons u =
    let (sorted, ends, same) = sort_by_dependency-Perm addons u in
    let (ordered, ends', first) = sort_by_dependency_ordered addons u in
    (sorted, ends, same, subst (DepsFirst addons []) (some_eq (sym ends' ∙ ends)) first)
  where
    some_eq : {A : Type 0} {a b : A} → some a ≡ some b → a ≡ b
    some_eq k = cc
