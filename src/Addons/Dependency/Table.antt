-- ===== src/Addons/Dependency/Table.antt =====
-- Which addons stand in the table of the dependencies.
use mathlib.Core.Path.{subst}
use refresh.Prelude.{◌≡◌, refl, ◌⊎◌, inl, inr, Bool-cases, List, [], ◌∷◌}
use refresh.Text.{Text, txt, text_eq}
use refresh.Addons.Dependency.{dependencies_in, addon_dependencies, dependencies}
use refresh.Addons.Dependency.Distinct.{In}

abbrev AllIn : (Text → Type 0) → List Text → Type 0
AllIn P [] = Unit
AllIn P (d ∷ deps) = P d × AllIn P deps

abbrev AllDependencies : (Text → Type 0) → List (Text × List Text) → Type 0
AllDependencies P [] = Unit
AllDependencies P ((key, deps) ∷ table) = AllIn P deps × AllDependencies P table

AllIn-In : (P : Text → Type 0) (deps : List Text) (d : Text) → AllIn P deps → In deps d → P d
AllIn-In P [] d h i = elim i [ ]
AllIn-In P (e ∷ deps) d (h, hs) (inl k) = subst P k h
AllIn-In P (e ∷ deps) d (h, hs) (inr i) = AllIn-In P deps d hs i

AllDependencies-In :
    (P : Text → Type 0) (table : List (Text × List Text)) (n d : Text)
    → AllDependencies P table
    → In (dependencies_in table n) d
    → P d
unfolding dependencies_in
AllDependencies-In P [] n d h i = elim i [ ]
AllDependencies-In P ((key, deps) ∷ table) n d (h, hs) i = elim (Bool-cases (text_eq key n)) [
  | inl e ↦ AllIn-In P deps d h (rw e at i)
  | inr e ↦ AllDependencies-In P table n d hs (rw e at i)
]

-- The dependencies of the table are two addons, of which the second one needs the first one.
abbrev pub Base : Text → Type 0
Base d = (d ≡ txt "vpc-cni") ⊎ (d ≡ txt "coredns")

pub dependencies-Base : (n d : Text) → In (dependencies n) d → Base d
unfolding dependencies addon_dependencies
dependencies-Base n d i =
    AllDependencies-In Base addon_dependencies n d
      (
        (inl refl, tt),
        (
          (inl refl, tt),
          (
            (inl refl, (inr refl, tt)),
            (
              (inl refl, (inr refl, tt)),
              (
                (inl refl, (inr refl, tt)),
                ((inr refl, tt), ((inr refl, tt), ((inl refl, tt), tt))),
              ),
            ),
          ),
        ),
      )
      i

pub coredns_needs : dependencies (txt "coredns") ≡ txt "vpc-cni" ∷ []
unfolding dependencies dependencies_in addon_dependencies text_eq
coredns_needs = refl

pub vpc_cni_needs : dependencies (txt "vpc-cni") ≡ []
unfolding dependencies dependencies_in addon_dependencies text_eq
vpc_cni_needs = refl
