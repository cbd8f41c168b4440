-- ===== src/Addons/Dependency/Keeps.antt =====
-- The sort keeps the addons.
use mathlib.Core.Path.{subst}
use mathlib.Core.List.{Perm}
use refresh.Prelude.{
  ℕ, ◌+◌, ◌≤◌, ◌≡◌, refl, sym, ap, ◌∙◌, ◌↔◌, inl, inr, true, false, Bool-cases, List, [], ◌∷◌, ◌++◌,
  Option, none, some, arith, length, ltb,
}
use refresh.Text.{Text, text_eq, text_eq_iff}
use refresh.Addons.Service.{AddonSummary}
use refresh.Addons.Dependency.{
  build_graph, empty_graph, ready_names, has_name, missing, complete, sort_by_dependency,
}
use refresh.Addons.Dependency.Waiting.{Names}
use refresh.Addons.Dependency.Ends.{all_Closed, kahn_returns}
use refresh.Addons.Dependency.Distinct.{In, Subset, Unique, In-Names, pigeonhole, same_addons}
use refresh.Addons.Dependency.Joining.{
  true_false, Unique-append, In-append, In-left, In-right, Names-In,
}
use refresh.Addons.Dependency.Rounds.{kahn-Unique}
use refresh.Addons.Dependency.Start.{first-Joined}

pub has_name-Names : (xs : List AddonSummary) (n : Text) → (has_name xs n ≡ true) ↔ Names xs n
unfolding has_name
has_name-Names [] n = ((λ h. true_false (sym h)), (λ h. elim h [ ]))
has_name-Names (x ∷ xs) n = elim (Bool-cases (text_eq x.name n)) [
  | inl e ↦ ((λ h. inl ((text_eq_iff x.name n).0 e)), (λ h. rw e refl))
  | inr e ↦ (
    (λ h. inr ((has_name-Names xs n).0 (rw e at h))),
    (λ h. rw e (other (has_name-Names xs n).1 e h)),
  )
]
  where
    other :
        (Names xs n → has_name xs n ≡ true)
        → text_eq x.name n ≡ false
        → Names (x ∷ xs) n
        → has_name xs n ≡ true
    other f e (inl k) = true_false (sym ((text_eq_iff x.name n).1 k) ∙ e)
    other f e (inr k) = f k

pub no_name : (xs : List AddonSummary) (n : Text) → has_name xs n ≡ false → Names xs n → ⊥
no_name xs n new h = true_false (sym ((has_name-Names xs n).1 h) ∙ new)

-- The addons that were left out are addons of the list, with names that were not seen.
pub missing-In :
    (seen addons : List AddonSummary) (a : AddonSummary)
    → In (missing seen addons) a
    → In addons a × (has_name seen a.name ≡ false)
unfolding missing
missing-In seen [] a h = elim h [ ]
missing-In seen (b ∷ addons) a h = elim (Bool-cases (has_name seen b.name)) [
  | inl known ↦ let (i, e) = missing-In seen addons a (rw known at h) in (inr i, e)
  | inr new ↦ first (missing-In seen addons a) new (rw new at h)
]
  where
    first :
        (In (missing seen addons) a → In addons a × (has_name seen a.name ≡ false))
        → has_name seen b.name ≡ false
        → In (b ∷ missing seen addons) a
        → In (b ∷ addons) a × (has_name seen a.name ≡ false)
    first rest new (inl e) =
        (inl e, subst (λ (c : AddonSummary). has_name seen c.name ≡ false) e new)
    first rest new (inr k) = let (i, e) = rest k in (inr i, e)

In-missing :
    (seen addons : List AddonSummary) (a : AddonSummary)
    → In addons a
    → has_name seen a.name ≡ false
    → In (missing seen addons) a
unfolding missing
In-missing seen [] a h new = h
In-missing seen (b ∷ addons) a (inl e) new =
    rw (subst (λ (c : AddonSummary). has_name seen c.name ≡ false) (sym e) new) (inl e)
In-missing seen (b ∷ addons) a (inr h) new =
    let later = In-missing seen addons a h new in
    elim (Bool-cases (has_name seen b.name)) [
      | inl known ↦ rw known later
      | inr fresh ↦ rw fresh (inr later)
    ]

missing-Unique : (seen addons : List AddonSummary) → Unique addons → Unique (missing seen addons)
unfolding missing
missing-Unique seen [] u = tt
missing-Unique seen (b ∷ addons) (new, u) = elim (Bool-cases (has_name seen b.name)) [
  | inl known ↦ rw known (missing-Unique seen addons u)
  | inr fresh ↦ rw fresh (still_new, missing-Unique seen addons u)
]
  where
    still_new : Names (missing seen addons) b.name → ⊥
    still_new h =
        let (a, i, e) = Names-In (missing seen addons) b.name h in
        new (subst (Names addons) e (In-Names addons a (missing-In seen addons a i).0))

one_name :
    (addons : List AddonSummary) (a b : AddonSummary)
    → Unique addons
    → In addons a
    → In addons b
    → a.name ≡ b.name
    → a ≡ b
one_name (x ∷ addons) a b (new, u) (inl e) (inl f) same = sym e ∙ f
one_name (x ∷ addons) a b (new, u) (inl e) (inr k) same = absurd (
    new (
      subst (Names addons) (sym same ∙ ap (λ (c : AddonSummary). c.name) (sym e))
        (In-Names addons b k)))
one_name (x ∷ addons) a b (new, u) (inr h) (inl f) same = absurd (
    new (
      subst (Names addons) (same ∙ ap (λ (c : AddonSummary). c.name) (sym f))
        (In-Names addons a h)))
one_name (x ∷ addons) a b (new, u) (inr h) (inr k) same = one_name addons a b u h k same
one_name [] a b u h k same = elim h [ ]

completed-Perm :
    (addons ordered : List AddonSummary)
    → Unique addons
    → Unique ordered
    → Subset ordered addons
    → Perm addons (ordered ++ missing ordered addons)
completed-Perm addons ordered u v sub =
    same_addons (ordered ++ missing ordered addons) addons
      (Unique-append ordered (missing ordered addons) v (missing-Unique ordered addons u) apart) u
      inside all
  where
    apart : (n : Text) → Names ordered n → Names (missing ordered addons) n → ⊥
    apart n h k =
        let (a, i, e) = Names-In (missing ordered addons) n k in
        true_false (
          sym ((has_name-Names ordered a.name).1 (subst (Names ordered) (sym e) h))
          ∙ (missing-In ordered addons a i).1)

    inside : Subset (ordered ++ missing ordered addons) addons
    inside a h = elim (In-append ordered (missing ordered addons) a h) [
      | inl k ↦ sub a k
      | inr k ↦ (missing-In ordered addons a k).0
    ]

    all : Subset addons (ordered ++ missing ordered addons)
    all a h = elim (Bool-cases (has_name ordered a.name)) [
      | inl known ↦
          let (b, i, e) = Names-In ordered a.name ((has_name-Names ordered a.name).0 known) in
          subst (In (ordered ++ missing ordered addons)) (one_name addons b a u (sub b i) h e)
            (In-left ordered (missing ordered addons) b i)
      | inr new ↦ In-right ordered (missing ordered addons) a (In-missing ordered addons a h new)
    ]

complete-Perm :
    (addons ordered : List AddonSummary)
    → Unique addons
    → Unique ordered
    → Subset ordered addons
    → Perm addons (complete addons ordered)
unfolding complete
complete-Perm addons ordered u v sub = elim (Bool-cases (ltb (length ordered) (length addons))) [
  | inl fewer ↦ rw fewer (completed-Perm addons ordered u v sub)
  | inr enough ↦ rw enough (pigeonhole ordered addons v sub (ltb_false enough))
]
  where
    ltb_false : {m n : ℕ} → ltb m n ≡ false → n ≤ m
    ltb_false h = ground arith

-- Where the addons have different names, the sort by their dependencies ends with the same addons,
-- each once.
pub sort_by_dependency-Perm :
    (addons : List AddonSummary)
    → Unique addons
    → (sorted : List AddonSummary) × (sort_by_dependency addons ≡ some sorted) × Perm addons sorted
unfolding sort_by_dependency
sort_by_dependency-Perm addons u =
    let (ordered, ends) = kahn_returns addons in
    let g = build_graph addons addons empty_graph in
    let (v, sub) =
      kahn-Unique addons (length addons + length addons) g (ready_names g addons) [] ordered
        (all_Closed addons) (first-Joined addons g u) ends in
    (
      complete addons ordered,
      ap
          (λ (o : Option (List AddonSummary)). elim o [
            | none ↦ none
            | some ns ↦ some (complete addons ns)
          ])
          ends,
      complete-Perm addons ordered u v sub,
    )
