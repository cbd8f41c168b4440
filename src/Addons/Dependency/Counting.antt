-- ===== src/Addons/Dependency/Counting.antt =====
-- What the graph of the sort counts.
use mathlib.Core.Path.{subst}
use refresh.Prelude.{
  ℕ, suc, ◌+◌, ◌≡◌, refl, sym, ap, ◌∙◌, inl, inr, true, false, Bool-cases, List, [], ◌∷◌, ◌++◌,
  arith, if◌then◌else◌,
}
use refresh.Prelude.Int.{ℤ, pos, ◌+ℤ◌, +ℤ_parts, eq_of_parts}
use refresh.Text.{Text, text_eq, text_eq_iff}
use refresh.Addons.Service.{AddonSummary}
use refresh.Addons.Dependency.{
  Graph, update, add_edge, add_edges, build_graph, empty_graph, find_addon, is_some, dependencies,
}
use refresh.Addons.Dependency.Waiting.{Names}
use refresh.Addons.Dependency.Distinct.{Unique}

-- How often a name stands in a list.
abbrev pub times : List Text → Text → ℕ
times [] n = 0
times (m ∷ ns) n = if text_eq m n then suc (times ns n) else times ns n

-- The dependencies that are installed.
abbrev pub edges : List AddonSummary → List Text → ℕ
edges addons [] = 0
edges addons (d ∷ deps) =
    if is_some (find_addon addons d) then suc (edges addons deps) else edges addons deps

abbrev pub edges_to : List AddonSummary → List Text → Text → ℕ
edges_to addons deps m = if is_some (find_addon addons m) then times deps m else 0

pub times-append : (ns ms : List Text) (n : Text) → times (ns ++ ms) n ≡ times ns n + times ms n
times-append [] ms n = omega arith
times-append (k ∷ ns) ms n = elim (Bool-cases (text_eq k n)) [
  | inl e ↦ rw e (omega (arith, times-append ns ms n))
  | inr e ↦ rw e (omega (arith, times-append ns ms n))
]

pub same_text : (s : Text) → text_eq s s ≡ true
same_text s = (text_eq_iff s s).1 refl

add_one : (z : ℤ) (k : ℕ) → z ≡ pos k → z +ℤ pos 1 ≡ pos (k + 1)
add_one z k h = subst (λ y. y +ℤ pos 1 ≡ pos (k + 1)) (sym h) sum
  where
    sum : pos k +ℤ pos 1 ≡ pos (k + 1)
    sum =
        let parts = +ℤ_parts (pos k) (pos 1) in
        eq_of_parts (pos k +ℤ pos 1) (pos (k + 1)) (omega arith)

add_edge-degree :
    (g : Graph) (name dep : Text) (k : ℕ)
    → g.in_degree name ≡ pos k
    → (add_edge g name dep).in_degree name ≡ pos (k + 1)
unfolding add_edge
add_edge-degree g name dep k h = rw (same_text name) (add_one (g.in_degree name) k h)

add_edge-times :
    (g : Graph) (name dep m : Text)
    → times ((add_edge g name dep).dependents m) name
      ≡ times (g.dependents m) name + (if text_eq dep m then 1 else 0)
unfolding add_edge
add_edge-times g name dep m = elim (Bool-cases (text_eq dep m)) [
  | inl e ↦ rw e (
      times-append (g.dependents dep) (name ∷ []) name
      ∙ ap (λ b. times (g.dependents dep) name + (if b then 1 else 0)) (same_text name)
      ∙ ap (λ d. times (g.dependents d) name + 1) ((text_eq_iff dep m).0 e))
  | inr e ↦ rw e (omega arith)
]

add_edge-apart :
    (g : Graph) (name dep n : Text)
    → text_eq name n ≡ false
    → ((add_edge g name dep).in_degree n ≡ g.in_degree n)
      × ((m : Text) → times ((add_edge g name dep).dependents m) n ≡ times (g.dependents m) n)
unfolding add_edge
add_edge-apart g name dep n h = (rw h refl, (λ m. into m))
  where
    plus_zero : (k : ℕ) → k + 0 ≡ k
    plus_zero k = omega arith

    into :
        (m : Text)
        → times (update g.dependents dep (g.dependents dep ++ name ∷ []) m) n
          ≡ times (g.dependents m) n
    into m = elim (Bool-cases (text_eq dep m)) [
      | inl e ↦ rw e (
          times-append (g.dependents dep) (name ∷ []) n
          ∙ ap (λ b. times (g.dependents dep) n + (if b then 1 else 0)) h
          ∙ plus_zero (times (g.dependents dep) n)
          ∙ ap (λ d. times (g.dependents d) n) ((text_eq_iff dep m).0 e))
      | inr e ↦ rw e refl
    ]

-- The graph counts so many edges of an addon, and so many from each dependency.
pub record Counts (n : Text) (k : ℕ) (f : Text → ℕ) (g : Graph) : Type 0 where
  pub degree : g.in_degree n ≡ pos k
  pub into : (m : Text) → times (g.dependents m) n ≡ f m

Counts-eq :
    (n : Text) (k l : ℕ) (f h : Text → ℕ) (g : Graph)
    → k ≡ l
    → ((m : Text) → f m ≡ h m)
    → Counts n k f g
    → Counts n l h g
Counts-eq n k l f h g e p c = record { degree = c.degree ∙ ap pos e; into = λ m. c.into m ∙ p m }

edges_to-cons :
    (addons : List AddonSummary) (d : Text) (deps : List Text) (m : Text)
    → edges_to addons (d ∷ deps) m
      ≡ (if is_some (find_addon addons d) then (if text_eq d m then 1 else 0) else 0)
        + edges_to addons deps m
edges_to-cons addons d deps m = elim (Bool-cases (text_eq d m)) [
  | inr e ↦ rw e (ground arith)
  | inl e ↦ rw (ap (λ x. is_some (find_addon addons x)) ((text_eq_iff d m).0 e), e) (ground arith)
]

add_edges-Counts :
    (addons : List AddonSummary) (name : Text) (deps : List Text) (k : ℕ) (f : Text → ℕ) (g : Graph)
    → Counts name k f g
    → Counts name
        (k + edges addons deps)
        (λ m. f m + edges_to addons deps m)
        (add_edges addons name deps g)
unfolding add_edges
add_edges-Counts addons name [] k f g c =
    Counts-eq name k (k + 0) f (λ m. f m + edges_to addons [] m) g (omega arith) (λ m. ground arith)
      c
add_edges-Counts addons name (d ∷ deps) k f g c =
    elim (Bool-cases (is_some (find_addon addons d))) [
      | inl there ↦
          let next =
            add_edges-Counts addons name deps (k + 1) (λ m. f m + (if text_eq d m then 1 else 0))
              (add_edge g name d)
              (record {
                degree = add_edge-degree g name d k c.degree;
                into = λ m.
                    add_edge-times g name d m
                    ∙ ap (λ x. x + (if text_eq d m then 1 else 0)) (c.into m);
              }) in
          subst
            (λ b.
              Counts name (k + edges addons (d ∷ deps)) (λ m. f m + edges_to addons (d ∷ deps) m)
                (add_edges addons name deps (if b then add_edge g name d else g)))
            (sym there)
            (Counts-eq name _ _ _ _ _ (rw there (omega arith))
              (λ m. let split = (rw there at (edges_to-cons addons d deps m)) in omega arith) next)
      | inr gone ↦
          let next = add_edges-Counts addons name deps k f g c in
          subst
            (λ b.
              Counts name (k + edges addons (d ∷ deps)) (λ m. f m + edges_to addons (d ∷ deps) m)
                (add_edges addons name deps (if b then add_edge g name d else g)))
            (sym gone)
            (Counts-eq name _ _ _ _ _ (rw gone refl)
              (λ m. let split = (rw gone at (edges_to-cons addons d deps m)) in omega arith) next)
    ]

add_edges-apart :
    (addons : List AddonSummary) (name n : Text) (deps : List Text) (k : ℕ) (f : Text → ℕ)
    (g : Graph)
    → text_eq name n ≡ false
    → Counts n k f g
    → Counts n k f (add_edges addons name deps g)
unfolding add_edges
add_edges-apart addons name n [] k f g other c = c
add_edges-apart addons name n (d ∷ deps) k f g other c =
    elim (Bool-cases (is_some (find_addon addons d))) [
      | inl there ↦
          let (degree, into) = add_edge-apart g name d n other in
          rw there (
            add_edges-apart addons name n deps k f (add_edge g name d) other
              (record { degree = degree ∙ c.degree; into = λ m. into m ∙ c.into m }))
      | inr gone ↦ rw gone (add_edges-apart addons name n deps k f g other c)
    ]

pub apart_text : (s t : Text) → (s ≡ t → ⊥) → text_eq s t ≡ false
apart_text s t h = elim (Bool-cases (text_eq s t)) [
  | inl e ↦ absurd (h ((text_eq_iff s t).0 e))
  | inr e ↦ e
]

build_graph-apart :
    (addons rest : List AddonSummary) (n : Text) (k : ℕ) (f : Text → ℕ) (g : Graph)
    → (Names rest n → ⊥)
    → Counts n k f g
    → Counts n k f (build_graph addons rest g)
unfolding build_graph
build_graph-apart addons [] n k f g none_named c = c
build_graph-apart addons (a ∷ rest) n k f g none_named c =
    build_graph-apart addons rest n k f (add_edges addons a.name (dependencies a.name) g)
      (λ h. none_named (inr h))
      (add_edges-apart addons a.name n (dependencies a.name) k f g
        (apart_text a.name n (λ e. none_named (inl e))) c)

build_graph-Counts :
    (addons rest : List AddonSummary) (n : Text) (g : Graph)
    → Unique rest
    → Names rest n
    → Counts n 0 (λ m. 0) g
    → Counts n
        (0 + edges addons (dependencies n))
        (λ m. 0 + edges_to addons (dependencies n) m)
        (build_graph addons rest g)
unfolding build_graph
build_graph-Counts addons [] n g u h c = elim h [ ]
build_graph-Counts addons (a ∷ rest) n g (new, u) (inl e) c =
    build_graph-apart addons rest n _ _ (add_edges addons a.name (dependencies a.name) g)
      (λ h. new (subst (Names rest) (sym e) h))
      (subst
        (λ x.
          Counts n (0 + edges addons (dependencies n)) (λ m. 0 + edges_to addons (dependencies n) m)
            (add_edges addons x (dependencies x) g))
        (sym e) (add_edges-Counts addons n (dependencies n) 0 (λ m. 0) g c))
build_graph-Counts addons (a ∷ rest) n g (new, u) (inr h) c =
    build_graph-Counts addons rest n (add_edges addons a.name (dependencies a.name) g) u h (
      add_edges-apart addons a.name n (dependencies a.name) 0 (λ m. 0) g
        (apart_text a.name n (λ e. new (subst (Names rest) (sym e) h))) c)

-- The finished graph counts, for each addon of the list, its dependencies that are installed.
pub graph-Counts :
    (addons : List AddonSummary) (n : Text)
    → Unique addons
    → Names addons n
    → Counts n
        (edges addons (dependencies n))
        (edges_to addons (dependencies n))
        (build_graph addons addons empty_graph)
unfolding empty_graph
graph-Counts addons n u h =
    Counts-eq n _ _ _ _ _ (omega arith) (λ m. omega arith)
      (build_graph-Counts addons addons n empty_graph u h
        (record { degree = refl; into = λ m. refl }))
