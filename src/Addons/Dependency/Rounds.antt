-- ===== src/Addons/Dependency/Rounds.antt =====
-- The rounds of the sort take addons with different names.
use mathlib.Core.Path.{subst}
use refresh.Prelude.{
  ℕ, zero, suc, ◌≡◌, refl, sym, ap, ◌∙◌, ◌⊎◌, inl, inr, Bool, false, Bool-cases, List, [], ◌∷◌,
  ◌++◌, some, if◌then◌else◌,
}
use refresh.Prelude.Int.{ℤ, pos, ◌-ℤ◌, ltb_ℤ}
use refresh.Text.{Text}
use refresh.Addons.Service.{AddonSummary}
use refresh.Addons.Dependency.{Graph, is_ready, release, addon_named, kahn}
use refresh.Addons.Dependency.Waiting.{
  Names, AllNamed, Closed, one_less, one_less-at, one_less-waits_still, is_ready-last, zero_waits,
}
use refresh.Addons.Dependency.Ends.{AllNamed-snoc, release-rounds}
use refresh.Addons.Dependency.Distinct.{In, Subset, Unique}
use refresh.Addons.Dependency.Joining.{
  true_false, one_waits, Distinct, In-snoc, Distinct-snoc, Names-append, Unique-append, In-append,
  addon_named-In,
}

-- The names that have joined the queue, those that were taken and those that still stand there,
-- are different names of addons, and none of them waits any more.
pub record Joined (addons taken : List AddonSummary) (g : Graph) (queue : List Text) : Type 0 where
  pub unique : Unique taken
  pub distinct : Distinct queue
  pub apart : (n : Text) → In queue n → Names taken n → ⊥
  pub free : (n : Text) → In queue n ⊎ Names taken n → ltb_ℤ (pos 0) (g.in_degree n) ≡ false
  pub inside : Subset taken addons
  pub named : AllNamed addons queue

one_less-free :
    (degree : Text → ℤ) (d n : Text)
    → ltb_ℤ (pos 0) (degree n) ≡ false
    → ltb_ℤ (pos 0) (one_less degree d n) ≡ false
one_less-free degree d n h = elim (Bool-cases (ltb_ℤ (pos 0) (one_less degree d n))) [
  | inl waits ↦ absurd (true_false (sym (one_less-waits_still degree d n waits) ∙ h))
  | inr free ↦ free
]

module _ (addons taken : List AddonSummary) where
  Joined-waits :
      (g : Graph) (queue : List Text) (d : Text)
      → Joined addons taken g queue
      → Joined addons taken (record g { in_degree = one_less g.in_degree d }) queue
  Joined-waits g queue d j = record {
    unique = j.unique;
    distinct = j.distinct;
    apart = j.apart;
    free = λ n h. one_less-free g.in_degree d n (j.free n h);
    inside = j.inside;
    named = j.named;
  }

  Joined-freed :
      (g : Graph) (queue : List Text) (d : Text)
      → Names addons d
      → g.in_degree d ≡ pos 1
      → Joined addons taken g queue
      → Joined addons taken (record g { in_degree = one_less g.in_degree d }) (queue ++ d ∷ [])
  Joined-freed g queue d here last j = record {
    unique = j.unique;
    distinct = Distinct-snoc queue d j.distinct (λ h. new (inl h));
    apart = λ n h k. elim (In-snoc queue d n h) [
      | inl i ↦ j.apart n i k
      | inr e ↦ new (inr (subst (Names taken) (sym e) k))
    ];
    free = λ n h. free_now n h;
    inside = j.inside;
    named = AllNamed-snoc addons queue d j.named here;
  }
    where
      new : In queue d ⊎ Names taken d → ⊥
      new h = true_false (sym (one_waits) ∙ sym (ap (ltb_ℤ (pos 0)) last) ∙ j.free d h)

      freed : ltb_ℤ (pos 0) (one_less g.in_degree d d) ≡ false
      freed =
          ap (ltb_ℤ (pos 0)) (one_less-at g.in_degree d ∙ ap (λ z. z -ℤ pos 1) last) ∙ zero_waits

      free_now :
          (n : Text)
          → In (queue ++ d ∷ []) n ⊎ Names taken n
          → ltb_ℤ (pos 0) (one_less g.in_degree d n) ≡ false
      free_now n (inr k) = one_less-free g.in_degree d n (j.free n (inr k))
      free_now n (inl h) = elim (In-snoc queue d n h) [
        | inl i ↦ one_less-free g.in_degree d n (j.free n (inl i))
        | inr e ↦ subst (λ m. ltb_ℤ (pos 0) (one_less g.in_degree d m) ≡ false) e freed
      ]

  pub release-Joined :
      (ds : List Text) (g : Graph) (queue : List Text)
      → AllNamed addons ds
      → Joined addons taken g queue
      → Joined addons taken (release ds g queue).0 (release ds g queue).1
  unfolding release
  release-Joined [] g queue named j = j
  release-Joined (d ∷ ds) g queue (here, named) j =
      let g1 : Graph = record g { in_degree = one_less g.in_degree d } in
      let queue_with = λ (b : Bool). if b then queue ++ d ∷ [] else queue in
      let Kept = λ (b : Bool).
        Joined addons taken (release ds g1 (queue_with b)).0 (release ds g1 (queue_with b)).1 in
      elim (Bool-cases (is_ready (one_less g.in_degree d d))) [
        | inl freed ↦
            let last =
              is_ready-last (g.in_degree d)
                (ap is_ready (sym (one_less-at g.in_degree d)) ∙ freed) in
            subst Kept (sym freed)
              (release-Joined ds g1 (queue ++ d ∷ []) named (Joined-freed g queue d here last j))
        | inr waits ↦
            subst Kept (sym waits) (release-Joined ds g1 queue named (Joined-waits g queue d j))
      ]

pub Joined-take :
    (addons taken : List AddonSummary) (g : Graph) (name : Text) (queue : List Text)
    → Joined addons taken g (name ∷ queue)
    → Joined addons (taken ++ addon_named addons name ∷ []) g queue
Joined-take addons taken g name queue j = record {
  unique =
      Unique-append taken (addon_named addons name ∷ []) j.unique ((λ h. h), tt)
        (λ n h k. j.apart name (inl refl) (subst (Names taken) (sym (only n k)) h));
  distinct = j.distinct.1;
  apart = λ n h k. elim (named_now n k) [
    | inl old ↦ j.apart n (inr h) old
    | inr e ↦ j.distinct.0 (subst (In queue) (sym e) h)
  ];
  free = λ n h. free_now n h;
  inside = inside_now;
  named = j.named.1;
}
  where
    found : In addons (addon_named addons name) × ((addon_named addons name).name ≡ name)
    found = addon_named-In addons name j.named.0

    only : (n : Text) → Names (addon_named addons name ∷ []) n → name ≡ n
    only n (inl e) = sym found.1 ∙ e
    only n (inr h) = elim h [ ]

    named_now :
        (n : Text) → Names (taken ++ addon_named addons name ∷ []) n → Names taken n ⊎ (name ≡ n)
    named_now n h = elim (Names-append taken (addon_named addons name ∷ []) n h) [
      | inl k ↦ inl k
      | inr k ↦ inr (only n k)
    ]

    free_now :
        (n : Text)
        → In queue n ⊎ Names (taken ++ addon_named addons name ∷ []) n
        → ltb_ℤ (pos 0) (g.in_degree n) ≡ false
    free_now n (inl h) = j.free n (inl (inr h))
    free_now n (inr h) = elim (named_now n h) [
      | inl k ↦ j.free n (inr k)
      | inr e ↦ j.free n (inl (inl e))
    ]

    inside_now : Subset (taken ++ addon_named addons name ∷ []) addons
    inside_now a h = elim (In-append taken (addon_named addons name ∷ []) a h) [
      | inl k ↦ j.inside a k
      | inr (inl e) ↦ subst (In addons) e found.0
      | inr (inr k) ↦ elim k [ ]
    ]

pub kahn-Unique :
    (addons : List AddonSummary) (fuel : ℕ) (g : Graph) (queue : List Text)
    (taken result : List AddonSummary)
    → Closed addons g
    → Joined addons taken g queue
    → kahn addons fuel g queue taken ≡ some result
    → Unique result × Subset result addons
unfolding kahn
kahn-Unique addons fuel g [] taken result closed j h =
    subst (λ r. Unique r × Subset r addons) (some_eq h) (j.unique, j.inside)
  where
    some_eq : {A : Type 0} {a b : A} → some a ≡ some b → a ≡ b
    some_eq k = cc
kahn-Unique addons zero g (name ∷ queue) taken result closed j h = cc
kahn-Unique addons (suc fuel) g (name ∷ queue) taken result closed j h =
    let next = release (g.dependents name) g queue in
    let (_, same) = release-rounds addons (g.dependents name) g queue (closed name) in
    kahn-Unique addons fuel next.0 next.1 (taken ++ addon_named addons name ∷ []) result
      (λ n. subst (λ (ds : Text → List Text). AllNamed addons (ds n)) (sym same) (closed n))
      (release-Joined addons (taken ++ addon_named addons name ∷ []) (g.dependents name) g queue
        (closed name) (Joined-take addons taken g name queue j))
      h
