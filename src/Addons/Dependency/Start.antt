-- ===== src/Addons/Dependency/Start.antt =====
-- The queue of the sort before its first round.
use mathlib.Core.Path.{subst}
use refresh.Prelude.{◌≡◌, refl, ap, ◌⊎◌, inl, inr, true, false, Bool-cases, List, [], ◌∷◌}
use refresh.Prelude.Int.{pos, ltb_ℤ}
use refresh.Text.{Text}
use refresh.Addons.Service.{AddonSummary}
use refresh.Addons.Dependency.{Graph, is_ready, ready_names}
use refresh.Addons.Dependency.Waiting.{Names, AllNamed, is_ready-zero}
use refresh.Addons.Dependency.Distinct.{In, Unique}
use refresh.Addons.Dependency.Joining.{Distinct}
use refresh.Addons.Dependency.Rounds.{Joined}

-- What `ready_names` takes are names of the list, different where those of the list are, and wait
-- for nothing.
pub ready_names-In :
    (g : Graph) (addons : List AddonSummary) (n : Text)
    → In (ready_names g addons) n
    → Names addons n × (ltb_ℤ (pos 0) (g.in_degree n) ≡ false)
unfolding ready_names
ready_names-In g [] n h = elim h [ ]
ready_names-In g (a ∷ addons) n h = elim (Bool-cases (is_ready (g.in_degree a.name))) [
  | inl free ↦ first (ready_names-In g addons n) free (rw free at h)
  | inr waits ↦ later (ready_names-In g addons n (rw waits at h))
]
  where
    later :
        Names addons n × (ltb_ℤ (pos 0) (g.in_degree n) ≡ false)
        → Names (a ∷ addons) n × (ltb_ℤ (pos 0) (g.in_degree n) ≡ false)
    later (k, z) = (inr k, z)

    first :
        (In (ready_names g addons) n → Names addons n × (ltb_ℤ (pos 0) (g.in_degree n) ≡ false))
        → is_ready (g.in_degree a.name) ≡ true
        → In (a.name ∷ ready_names g addons) n
        → Names (a ∷ addons) n × (ltb_ℤ (pos 0) (g.in_degree n) ≡ false)
    first rest free (inl e) = (
      inl e,
      subst (λ m. ltb_ℤ (pos 0) (g.in_degree m) ≡ false) e
          (ap (ltb_ℤ (pos 0)) (is_ready-zero (g.in_degree a.name) free)),
    )
    first rest free (inr k) = later (rest k)

ready_names-Distinct :
    (g : Graph) (addons : List AddonSummary) → Unique addons → Distinct (ready_names g addons)
unfolding ready_names
ready_names-Distinct g [] u = tt
ready_names-Distinct g (a ∷ addons) (new, u) = elim (Bool-cases (is_ready (g.in_degree a.name))) [
  | inl free ↦
      rw free ((λ h. new (ready_names-In g addons a.name h).0), ready_names-Distinct g addons u)
  | inr waits ↦ rw waits (ready_names-Distinct g addons u)
]

AllNamed-all :
    (addons : List AddonSummary) (ns : List Text)
    → ((n : Text) → In ns n → Names addons n)
    → AllNamed addons ns
AllNamed-all addons [] h = tt
AllNamed-all addons (n ∷ ns) h = (h n (inl refl), AllNamed-all addons ns (λ m k. h m (inr k)))

pub first-Joined :
    (addons : List AddonSummary) (g : Graph)
    → Unique addons
    → Joined addons [] g (ready_names g addons)
first-Joined addons g u = record {
  unique = tt;
  distinct = ready_names-Distinct g addons u;
  apart = λ n h k. k;
  free = λ n h. free_first n h;
  inside = λ a h. elim h [ ];
  named = AllNamed-all addons (ready_names g addons) (λ n h. (ready_names-In g addons n h).0);
}
  where
    free_first :
        (n : Text)
        → In (ready_names g addons) n ⊎ Names [] n
        → ltb_ℤ (pos 0) (g.in_degree n) ≡ false
    free_first n (inl h) = (ready_names-In g addons n h).1
    free_first n (inr h) = elim h [ ]
