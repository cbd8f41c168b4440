-- ===== src/Addons/Dependency/Distinct.antt =====
-- Lists of addons whose names differ.
use mathlib.Core.Path.{subst}
use mathlib.Core.List.Perm
use mathlib.Core.List.{Perm}
use refresh.Prelude.{suc, ◌≤◌, ◌≡◌, refl, sym, ap, ◌⊎◌, inl, inr, List, [], ◌∷◌, arith, length}
use refresh.Text.{Text}
use refresh.Addons.Service.{AddonSummary}
use refresh.Addons.Dependency.Waiting.{Names}

abbrev pub In : {A : Type 0} → List A → A → Type 0
In [] a = ⊥
In (b ∷ bs) a = (b ≡ a) ⊎ In bs a

abbrev pub Subset : List AddonSummary → List AddonSummary → Type 0
Subset xs ys = (a : AddonSummary) → In xs a → In ys a

-- No two of the addons have one name.
abbrev pub Unique : List AddonSummary → Type 0
Unique [] = Unit
Unique (a ∷ addons) = (Names addons a.name → ⊥) × Unique addons

pub In-Names : (xs : List AddonSummary) (a : AddonSummary) → In xs a → Names xs a.name
In-Names (b ∷ xs) a (inl e) = inl (ap (λ (c : AddonSummary). c.name) e)
In-Names (b ∷ xs) a (inr h) = inr (In-Names xs a h)
In-Names [] a h = elim h [ ]

-- The first list with one occurrence of the addon taken out is the second one.
data Splits (x : AddonSummary) : List AddonSummary → List AddonSummary → Type 0 where
  here : (ys : List AddonSummary) → Splits x (x ∷ ys) ys
  there :
      (y : AddonSummary) {ys zs : List AddonSummary} → Splits x ys zs → Splits x (y ∷ ys) (y ∷ zs)

split :
    (x : AddonSummary) (ys : List AddonSummary)
    → In ys x
    → (zs : List AddonSummary) × Splits x ys zs
split x [] h = elim h [ ]
split x (y ∷ ys) (inl e) = (ys, subst (λ z. Splits x (z ∷ ys) ys) (sym e) (here ys))
split x (y ∷ ys) (inr h) = let (zs, s) = split x ys h in (y ∷ zs, there y s)

Splits-Perm : {x : AddonSummary} {ys zs : List AddonSummary} → Splits x ys zs → Perm ys (x ∷ zs)
Splits-Perm {x} (Splits.here ys) = Perm.refl (x ∷ ys)
Splits-Perm {x} (Splits.there y {zs} s) =
    Perm.trans (Perm.cons y (Splits-Perm s)) (Perm.swap x y zs)

Splits-length :
    {x : AddonSummary} {ys zs : List AddonSummary} → Splits x ys zs → length ys ≡ suc (length zs)
Splits-length (Splits.here ys) = refl
Splits-length (Splits.there y s) = ap suc (Splits-length s)

Splits-In :
    {x : AddonSummary} {ys zs : List AddonSummary} (a : AddonSummary)
    → Splits x ys zs
    → In ys a
    → (x ≡ a) ⊎ In zs a
Splits-In a (Splits.here ys) h = h
Splits-In a (Splits.there y s) (inl e) = inr (inl e)
Splits-In a (Splits.there y s) (inr h) = elim (Splits-In a s h) [
  | inl e ↦ inl e
  | inr k ↦ inr (inr k)
]

Splits-back :
    {x : AddonSummary} {ys zs : List AddonSummary} (a : AddonSummary)
    → Splits x ys zs
    → In zs a
    → In ys a
Splits-back a (Splits.here ys) h = inr h
Splits-back a (Splits.there y s) (inl e) = inl e
Splits-back a (Splits.there y s) (inr h) = inr (Splits-back a s h)

Splits-Names :
    {x : AddonSummary} {ys zs : List AddonSummary} (n : Text)
    → Splits x ys zs
    → (x.name ≡ n) ⊎ Names zs n
    → Names ys n
Splits-Names n (Splits.here ys) h = h
Splits-Names n (Splits.there y s) (inl e) = inr (Splits-Names n s (inl e))
Splits-Names n (Splits.there y s) (inr (inl e)) = inl e
Splits-Names n (Splits.there y s) (inr (inr h)) = inr (Splits-Names n s (inr h))

Splits-Unique :
    {x : AddonSummary} {ys zs : List AddonSummary}
    → Splits x ys zs
    → Unique ys
    → (Names zs x.name → ⊥) × Unique zs
Splits-Unique (Splits.here ys) u = u
Splits-Unique {x} (Splits.there y {ys} {zs} s) (new, u) =
    let (apart, v) = Splits-Unique s u in
    (apart_from apart, ((λ h. new (Splits-Names y.name s (inr h))), v))
  where
    apart_from : (Names zs x.name → ⊥) → Names (y ∷ zs) x.name → ⊥
    apart_from apart (inl e) = new (Splits-Names y.name s (inl (sym e)))
    apart_from apart (inr h) = apart h

-- What is left of a list without an addon that is in both has what is left of the other.
Subset-rest :
    {x : AddonSummary} (xs : List AddonSummary) {ys zs : List AddonSummary}
    → Unique (x ∷ xs)
    → Splits x ys zs
    → Subset (x ∷ xs) ys
    → Subset xs zs
Subset-rest {x} xs {ys} {zs} (new, u) s sub a h = elim (Splits-In a s (sub a (inr h))) [
  | inl e ↦
      absurd (new (subst (Names xs) (ap (λ (c : AddonSummary). c.name) (sym e)) (In-Names xs a h)))
  | inr k ↦ k
]

-- Addons with different names that are all in a list which is no longer are that list.
pub pigeonhole :
    (xs ys : List AddonSummary) → Unique xs → Subset xs ys → length ys ≤ length xs → Perm ys xs
pigeonhole [] [] u sub le = Perm.refl []
pigeonhole [] (y ∷ ys) u sub le = absurd (omega arith)
pigeonhole (x ∷ xs) ys u sub le =
    let (zs, s) = split x ys (sub x (inl refl)) in
    let shorter = Splits-length s in
    Perm.trans (Splits-Perm s)
      (Perm.cons x (pigeonhole xs zs u.1 (Subset-rest xs u s sub) (omega arith)))

pub same_addons :
    (xs ys : List AddonSummary) → Unique xs → Unique ys → Subset xs ys → Subset ys xs → Perm ys xs
same_addons [] [] u v sub bus = Perm.refl []
same_addons [] (y ∷ ys) u v sub bus = elim (bus y (inl refl)) [ ]
same_addons (x ∷ xs) ys u v sub bus =
    let (zs, s) = split x ys (sub x (inl refl)) in
    let (apart, v') = Splits-Unique s v in
    let back = back_in zs s apart in
    Perm.trans (Splits-Perm s)
      (Perm.cons x (same_addons xs zs u.1 v' (Subset-rest xs u s sub) back))
  where
    back_in : (zs : List AddonSummary) → Splits x ys zs → (Names zs x.name → ⊥) → Subset zs xs
    back_in zs s apart a h = elim (bus a (Splits-back a s h)) [
      | inl e ↦
          absurd
            (apart (subst (Names zs) (ap (λ (c : AddonSummary). c.name) (sym e)) (In-Names zs a h)))
      | inr k ↦ k
    ]
