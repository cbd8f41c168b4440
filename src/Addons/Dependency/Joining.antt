-- ===== src/Addons/Dependency/Joining.antt =====
-- Lists of addons and of names that are put together, and the addon of a name.
use mathlib.Core.Path.{subst}
use refresh.Prelude.{
  ◌≡◌, refl, sym, ◌∙◌, ◌⊎◌, inl, inr, true, false, Bool-cases, List, [], ◌∷◌, ◌++◌, none, some,
}
use refresh.Prelude.Int.{pos, ltb_ℤ}
use refresh.Text.{Text, text_eq, text_eq_iff}
use refresh.Addons.Service.{AddonSummary}
use refresh.Addons.Dependency.{addon_named, find_addon}
use refresh.Addons.Dependency.Waiting.{Names, AllNamed}
use refresh.Addons.Dependency.Distinct.{In, Unique}

pub true_false : {A : Type 0} → true ≡ false → A
true_false h = cc

pub one_waits : ltb_ℤ (pos 0) (pos 1) ≡ true
one_waits = refl

abbrev pub Distinct : List Text → Type 0
Distinct [] = Unit
Distinct (n ∷ ns) = (In ns n → ⊥) × Distinct ns

pub In-snoc : (ns : List Text) (m n : Text) → In (ns ++ m ∷ []) n → In ns n ⊎ (m ≡ n)
In-snoc [] m n (inl e) = inr e
In-snoc [] m n (inr h) = elim h [ ]
In-snoc (k ∷ ns) m n (inl e) = inl (inl e)
In-snoc (k ∷ ns) m n (inr h) = elim (In-snoc ns m n h) [ inl i ↦ inl (inr i) | inr e ↦ inr e ]

pub Distinct-snoc :
    (ns : List Text) (m : Text) → Distinct ns → (In ns m → ⊥) → Distinct (ns ++ m ∷ [])
Distinct-snoc [] m d new = ((λ h. h), tt)
Distinct-snoc (n ∷ ns) m (first, d) new = (not_last, Distinct-snoc ns m d (λ h. new (inr h)))
  where
    not_last : In (ns ++ m ∷ []) n → ⊥
    not_last h = elim (In-snoc ns m n h) [ inl i ↦ first i | inr e ↦ new (inl (sym e)) ]

pub Names-append :
    (xs ys : List AddonSummary) (n : Text) → Names (xs ++ ys) n → Names xs n ⊎ Names ys n
Names-append [] ys n h = inr h
Names-append (x ∷ xs) ys n (inl e) = inl (inl e)
Names-append (x ∷ xs) ys n (inr h) = elim (Names-append xs ys n h) [
  | inl k ↦ inl (inr k)
  | inr k ↦ inr k
]

pub Unique-append :
    (xs ys : List AddonSummary)
    → Unique xs
    → Unique ys
    → ((n : Text) → Names xs n → Names ys n → ⊥)
    → Unique (xs ++ ys)
Unique-append [] ys u v apart = v
Unique-append (x ∷ xs) ys (new, u) v apart =
    (still_new, Unique-append xs ys u v (λ n h. apart n (inr h)))
  where
    still_new : Names (xs ++ ys) x.name → ⊥
    still_new h = elim (Names-append xs ys x.name h) [
      | inl k ↦ new k
      | inr k ↦ apart x.name (inl refl) k
    ]

pub In-append : (xs ys : List AddonSummary) (a : AddonSummary) → In (xs ++ ys) a → In xs a ⊎ In ys a
In-append [] ys a h = inr h
In-append (x ∷ xs) ys a (inl e) = inl (inl e)
In-append (x ∷ xs) ys a (inr h) = elim (In-append xs ys a h) [ inl k ↦ inl (inr k) | inr k ↦ inr k ]

pub In-left : (xs ys : List AddonSummary) (a : AddonSummary) → In xs a → In (xs ++ ys) a
In-left [] ys a h = elim h [ ]
In-left (x ∷ xs) ys a (inl e) = inl e
In-left (x ∷ xs) ys a (inr h) = inr (In-left xs ys a h)

pub In-right : (xs ys : List AddonSummary) (a : AddonSummary) → In ys a → In (xs ++ ys) a
In-right [] ys a h = h
In-right (x ∷ xs) ys a h = inr (In-right xs ys a h)

pub Names-In :
    (xs : List AddonSummary) (n : Text) → Names xs n → (a : AddonSummary) × In xs a × (a.name ≡ n)
Names-In [] n h = elim h [ ]
Names-In (x ∷ xs) n (inl e) = (x, inl refl, e)
Names-In (x ∷ xs) n (inr h) = let (a, i, e) = Names-In xs n h in (a, inr i, e)

pub AllNamed-In :
    (addons : List AddonSummary) (ns : List Text) (n : Text)
    → AllNamed addons ns
    → In ns n
    → Names addons n
AllNamed-In addons [] n named h = elim h [ ]
AllNamed-In addons (m ∷ ns) n (first, named) (inl e) = subst (Names addons) e first
AllNamed-In addons (m ∷ ns) n (first, named) (inr h) = AllNamed-In addons ns n named h

-- `nameToAddon` has an addon of the list under each name of the list, and only under those.
pub find_addon-cases :
    (addons : List AddonSummary) (n : Text)
    → ((a : AddonSummary) × (find_addon addons n ≡ some a) × In addons a × (a.name ≡ n))
      ⊎ ((find_addon addons n ≡ none) × (Names addons n → ⊥))
unfolding find_addon
find_addon-cases [] n = inr (refl, (λ h. h))
find_addon-cases (b ∷ addons) n = elim (find_addon-cases addons n) [
  | inl (a, e, i, same) ↦ inl (a, rw e refl, inr i, same)
  | inr (e, none_named) ↦ elim (Bool-cases (text_eq b.name n)) [
    | inl h ↦ inl (b, rw (e, h) refl, inl refl, (text_eq_iff b.name n).0 h)
    | inr h ↦ inr (rw (e, h) refl, other none_named h)
  ]
]
  where
    other : (Names addons n → ⊥) → text_eq b.name n ≡ false → Names (b ∷ addons) n → ⊥
    other none_named h (inl e) = true_false (sym ((text_eq_iff b.name n).1 e) ∙ h)
    other none_named h (inr k) = none_named k

pub addon_named-In :
    (addons : List AddonSummary) (n : Text)
    → Names addons n
    → In addons (addon_named addons n) × ((addon_named addons n).name ≡ n)
unfolding addon_named
addon_named-In addons n h = elim (find_addon-cases addons n) [
  | inl (a, e, i, same) ↦ rw (e, addon_named) (i, same)
  | inr (e, none_named) ↦ absurd (none_named h)
]
