-- ===== src/Addons/Dependency/Before.antt =====
-- The sort puts the dependencies of an addon before it.
use mathlib.Core.Path.{subst}
use mathlib.Core.List.{append_assoc, append-nil}
use refresh.Prelude.{
  ℕ, suc, ◌+◌, ◌≡◌, refl, sym, ap, ◌∙◌, ◌⊎◌, inl, inr, Bool, true, false, not, ◌&&◌, Bool-cases,
  List, [], ◌∷◌, ◌++◌, arith, if◌then◌else◌,
}
use refresh.Prelude.Int.{pos}
use refresh.Text.{Text}
use refresh.Addons.Service.{AddonSummary}
use refresh.Addons.Dependency.{Graph, is_ready, find_addon, is_some, dependencies, has_name}
use refresh.Addons.Dependency.Waiting.{Names}
use refresh.Addons.Dependency.Distinct.{In, In-Names}
use refresh.Addons.Dependency.Joining.{true_false, find_addon-cases}
use refresh.Addons.Dependency.Keeps.{has_name-Names}
use refresh.Addons.Dependency.Counting.{times, edges_to}
use refresh.Addons.Dependency.Precedence.{pending_edges, pending_edges-snoc, Waits}

-- Every addon of the list stands behind its dependencies that are installed, which are among those
-- seen before.
abbrev pub DepsFirst : (addons seen : List AddonSummary) → List AddonSummary → Type 0
DepsFirst addons seen [] = Unit
DepsFirst addons seen (a ∷ rest) =
    ((d : Text) → In (dependencies a.name) d → Names addons d → Names seen d)
    × DepsFirst addons (seen ++ a ∷ []) rest

pub DepsFirst-snoc :
    (addons seen xs : List AddonSummary) (a : AddonSummary)
    → DepsFirst addons seen xs
    → ((d : Text) → In (dependencies a.name) d → Names addons d → Names (seen ++ xs) d)
    → DepsFirst addons seen (xs ++ a ∷ [])
DepsFirst-snoc addons seen [] a h k =
    ((λ d i n. subst (λ s. Names s d) (append-nil seen) (k d i n)), tt)
DepsFirst-snoc addons seen (x ∷ xs) a (first, h) k = (
  first,
  DepsFirst-snoc addons (seen ++ x ∷ []) xs a h
      (λ d i n. subst (λ s. Names s d) (sym (append_assoc seen (x ∷ []) xs)) (k d i n)),
)

Names-snoc :
    (xs : List AddonSummary) (a : AddonSummary) (n : Text)
    → Names xs n ⊎ (a.name ≡ n)
    → Names (xs ++ a ∷ []) n
Names-snoc [] a n (inl h) = elim h [ ]
Names-snoc [] a n (inr e) = inl e
Names-snoc (x ∷ xs) a n (inl (inl e)) = inl e
Names-snoc (x ∷ xs) a n (inl (inr h)) = inr (Names-snoc xs a n (inl h))
Names-snoc (x ∷ xs) a n (inr e) = inr (Names-snoc xs a n (inr e))

pub installed :
    (addons : List AddonSummary) (n : Text) → Names addons n → is_some (find_addon addons n) ≡ true
installed addons n h = elim (find_addon-cases addons n) [
  | inl (a, e, i, same) ↦ rw e refl
  | inr (e, none_named) ↦ absurd (none_named h)
]

installed-Names :
    (addons : List AddonSummary) (n : Text) → is_some (find_addon addons n) ≡ true → Names addons n
installed-Names addons n h = elim (find_addon-cases addons n) [
  | inl (a, e, i, same) ↦ subst (Names addons) same (In-Names addons a i)
  | inr (e, none_named) ↦ true_false (sym h ∙ rw e refl)
]

not_named : (xs : List AddonSummary) (n : Text) → (Names xs n → ⊥) → has_name xs n ≡ false
not_named xs n h = elim (Bool-cases (has_name xs n)) [
  | inl e ↦ absurd (h ((has_name-Names xs n).0 e))
  | inr e ↦ e
]

-- Without pending edges every installed dependency was taken.
pub none_pending :
    (addons taken : List AddonSummary) (deps : List Text) (d : Text)
    → pending_edges addons taken deps ≡ 0
    → In deps d
    → Names addons d
    → Names taken d
none_pending addons taken [] d h i n = elim i [ ]
none_pending addons taken (e ∷ deps) d h i n =
    elim (Bool-cases (is_some (find_addon addons e) && not (has_name taken e))) [
      | inl waits ↦ absurd (suc_zero (rw waits at h))
      | inr settled ↦ first settled i (none_pending addons taken deps d (rw settled at h))
    ]
  where
    suc_zero : {k : ℕ} → suc k ≡ 0 → ⊥
    suc_zero k = omega arith

    seen : (b c : Bool) → b ≡ true → (b && not c) ≡ false → c ≡ true
    seen b c h k = ground arith

    first :
        (is_some (find_addon addons e) && not (has_name taken e)) ≡ false
        → In (e ∷ deps) d
        → (In deps d → Names addons d → Names taken d)
        → Names taken d
    first settled (inr k) rest = rest k n
    first settled (inl same) rest = subst (Names taken) same (
        (has_name-Names taken e).0
          (seen _ _ (installed addons e (subst (Names addons) (sym same) n)) settled))

-- With pending edges an installed dependency was not taken.
pub some_pending :
    (addons taken : List AddonSummary) (deps : List Text)
    → is_ready (pos (pending_edges addons taken deps)) ≡ false
    → (d : Text) × In deps d × Names addons d × (has_name taken d ≡ false)
unfolding is_ready
some_pending addons taken [] h = true_false h
some_pending addons taken (e ∷ deps) h =
    elim (Bool-cases (is_some (find_addon addons e) && not (has_name taken e))) [
      | inl waits ↦
          let (there, new) = both _ _ waits in (e, inl refl, installed-Names addons e there, new)
      | inr settled ↦
          let (d, i, n, new) = some_pending addons taken deps (rw settled at h) in
          (d, inr i, n, new)
    ]
  where
    both : (b c : Bool) → (b && not c) ≡ true → (b ≡ true) × (c ≡ false)
    both b c h = ground arith

abbrev pub Edged : List AddonSummary → Graph → Type 0
Edged addons g =
    (n m : Text) → Names addons n → times (g.dependents m) n ≡ edges_to addons (dependencies n) m

pub Waits-take :
    (addons taken : List AddonSummary) (g : Graph) (name : Text) (queue : List Text)
    (a : AddonSummary)
    → a.name ≡ name
    → Names addons name
    → (Names taken name → ⊥)
    → Edged addons g
    → Waits addons taken (name ∷ queue) [] g
    → Waits addons (taken ++ a ∷ []) queue (g.dependents name) g
Waits-take addons taken g name queue a same here new edged w = record {
  degree = λ n h. w.degree n h ∙ ap pos (moved n h);
  done = λ n i. let eq = w.done n (inr i) in let less = taken_out n in omega arith;
  left = λ n h. still n h;
}
  where
    there : is_some (find_addon addons a.name) ≡ true
    there = installed addons a.name (subst (Names addons) (sym same) here)

    taken_out :
        (n : Text)
        → pending_edges addons taken (dependencies n)
          ≡ pending_edges addons (taken ++ a ∷ []) (dependencies n) + times (dependencies n) a.name
    taken_out n =
        pending_edges-snoc addons taken a (dependencies n) there
          (not_named taken a.name (λ h. new (subst (Names taken) same h)))

    out_of :
        (n : Text) → Names addons n → times (g.dependents name) n ≡ times (dependencies n) a.name
    out_of n h =
        edged n name h
        ∙ ap (λ b. if b then times (dependencies n) name else 0) (installed addons name here)
        ∙ ap (times (dependencies n)) (sym same)

    moved :
        (n : Text)
        → Names addons n
        → pending_edges addons taken (dependencies n) + times [] n
          ≡ pending_edges addons (taken ++ a ∷ []) (dependencies n) + times (g.dependents name) n
    moved n h = let less = taken_out n in let out = out_of n h in omega arith

    still :
        (n : Text)
        → Names addons n
        → (In queue n ⊎ Names (taken ++ a ∷ []) n) ⊎ (is_ready (g.in_degree n) ≡ false)
    still n h = elim (w.left n h) [
      | inl (inl (inl e)) ↦ inl (inr (Names-snoc taken a n (inr (same ∙ e))))
      | inl (inl (inr i)) ↦ inl (inl i)
      | inl (inr k) ↦ inl (inr (Names-snoc taken a n (inl k)))
      | inr waits ↦ inr waits
    ]
