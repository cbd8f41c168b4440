-- ===== src/Addons/Versions/Sorting.antt =====
-- The sort puts the newest version first, and neither drops nor repeats a version.
use Prim.Native.Nat.{Ordering}
use mathlib.Core.List.Perm
use mathlib.Core.List.{Perm}
use refresh.Prelude.{
  ℕ, zero, suc, ◌≡◌, refl, ◌≢◌, ◌↔◌, inl, inr, true, false, List, [], ◌∷◌, arith, Bool-cases,
}
use refresh.Prelude.Int.{ℤ, pos, negsuc, ltb_ℤ}
use refresh.Prelude.Linear.{flip}
use refresh.Addons.Versions.{
  AddonVersionInfo, compare_versions, is_newer, insert_sorted, sort_newest,
}
use refresh.Addons.Versions.Order.{sign, compare_versions-flip, compare_versions_trans}

positive_iff : (c : ℤ) → (ltb_ℤ (pos 0) c ≡ false) ↔ (flip (sign c) ≢ Ordering.lt)
positive_iff (pos zero) = (λ h e. cc, λ h. refl)
positive_iff (pos (suc n)) = (λ h. absurd (pos_true n h), λ h. absurd (h refl))
  where
    pos_true : (n : ℕ) → ltb_ℤ (pos 0) (pos (suc n)) ≡ false → ⊥
    pos_true n h = ground arith
positive_iff (negsuc n) = (λ h e. cc, λ h. ground arith)

-- b is not newer than a exactly if a is not older than b.
not_newer_iff :
    (a b : AddonVersionInfo)
    → (is_newer b a ≡ false) ↔ (sign (compare_versions a.version b.version) ≢ Ordering.lt)
unfolding is_newer
not_newer_iff a b =
    rw (compare_versions-flip b.version a.version)
      (positive_iff (compare_versions b.version a.version))

newer_asym : (a b : AddonVersionInfo) → is_newer a b ≡ true → is_newer b a ≡ false
unfolding is_newer
newer_asym a b h = ground (
  arith,
  compare_versions-flip a.version b.version,
  positive_iff (compare_versions b.version a.version),
  positive_iff (compare_versions a.version b.version),
)

not_newer_trans :
    (a b c : AddonVersionInfo) → is_newer b a ≡ false → is_newer c b ≡ false → is_newer c a ≡ false
not_newer_trans a b c h k = (not_newer_iff a c).1 (
    compare_versions_trans a.version b.version c.version ((not_newer_iff a b).0 h)
      ((not_newer_iff b c).0 k))

-- None of the versions is newer than this one.
abbrev pub NoneNewer : AddonVersionInfo → List AddonVersionInfo → Type 0
NoneNewer v [] = Unit
NoneNewer v (u ∷ us) = (is_newer u v ≡ false) × NoneNewer v us

-- Newest first.
abbrev pub IsSorted : List AddonVersionInfo → Type 0
IsSorted [] = Unit
IsSorted (v ∷ vs) = NoneNewer v vs × IsSorted vs

NoneNewer-trans :
    (v u : AddonVersionInfo) (us : List AddonVersionInfo)
    → is_newer u v ≡ false
    → NoneNewer u us
    → NoneNewer v us
NoneNewer-trans v u [] h k = tt
NoneNewer-trans v u (x ∷ us) h k = (not_newer_trans v u x h k.0, NoneNewer-trans v u us h k.1)

insert_sorted-NoneNewer :
    (w v : AddonVersionInfo) (us : List AddonVersionInfo)
    → is_newer v w ≡ false
    → NoneNewer w us
    → NoneNewer w (insert_sorted v us)
unfolding insert_sorted
insert_sorted-NoneNewer w v [] h k = (h, tt)
insert_sorted-NoneNewer w v (u ∷ us) h k = elim (Bool-cases (is_newer u v)) [
  | inl newer ↦ rw (newer, insert_sorted) (k.0, insert_sorted-NoneNewer w v us h k.1)
  | inr older ↦ rw (older, insert_sorted) (h, k)
]

insert_sorted-IsSorted :
    (v : AddonVersionInfo) (us : List AddonVersionInfo)
    → IsSorted us
    → IsSorted (insert_sorted v us)
unfolding insert_sorted
insert_sorted-IsSorted v [] h = (tt, tt)
insert_sorted-IsSorted v (u ∷ us) h = elim (Bool-cases (is_newer u v)) [
  | inl newer ↦
      rw (newer, insert_sorted)
        (insert_sorted-NoneNewer u v us (newer_asym u v newer) h.0, insert_sorted-IsSorted v us h.1)
  | inr older ↦ rw (older, insert_sorted) ((older, NoneNewer-trans v u us older h.0), h)
]

insert_sorted-perm :
    (v : AddonVersionInfo) (us : List AddonVersionInfo) → Perm (insert_sorted v us) (v ∷ us)
unfolding insert_sorted
insert_sorted-perm v [] = Perm.refl (v ∷ [])
insert_sorted-perm v (u ∷ us) = elim (Bool-cases (is_newer u v)) [
  | inl newer ↦
      rw (newer, insert_sorted)
        (Perm.trans (Perm.cons u (insert_sorted-perm v us)) (Perm.swap v u us))
  | inr older ↦ rw (older, insert_sorted) (Perm.refl (v ∷ u ∷ us))
]

sort_newest-IsSorted : (vs : List AddonVersionInfo) → IsSorted (sort_newest vs)
unfolding sort_newest
sort_newest-IsSorted [] = tt
sort_newest-IsSorted (v ∷ vs) = insert_sorted-IsSorted v (sort_newest vs) (sort_newest-IsSorted vs)

sort_newest-perm : (vs : List AddonVersionInfo) → Perm (sort_newest vs) vs
unfolding sort_newest
sort_newest-perm [] = Perm.refl []
sort_newest-perm (v ∷ vs) =
    Perm.trans (insert_sorted-perm v (sort_newest vs)) (Perm.cons v (sort_newest-perm vs))

-- The sort of the available versions holds the same versions, each as often, and no version in it
-- is newer than one that stands before it.
pub sort_newest_sorts :
    (vs : List AddonVersionInfo) → Perm (sort_newest vs) vs × IsSorted (sort_newest vs)
sort_newest_sorts vs = (sort_newest-perm vs, sort_newest-IsSorted vs)

insert_sorted-nonempty :
    (v : AddonVersionInfo) (vs : List AddonVersionInfo) → insert_sorted v vs ≢ []
unfolding insert_sorted
insert_sorted-nonempty v [] h = cc
insert_sorted-nonempty v (u ∷ us) h = elim (Bool-cases (is_newer u v)) [
  | inl newer ↦ cons_nil (rw newer at h)
  | inr older ↦ cons_nil (rw older at h)
]
  where
    cons_nil : {x : AddonVersionInfo} {xs : List AddonVersionInfo} → x ∷ xs ≡ [] → ⊥
    cons_nil e = cc

pub sort_newest-nonempty :
    (v : AddonVersionInfo) (vs : List AddonVersionInfo) → sort_newest (v ∷ vs) ≢ []
unfolding sort_newest
sort_newest-nonempty v vs = insert_sorted-nonempty v (sort_newest vs)
