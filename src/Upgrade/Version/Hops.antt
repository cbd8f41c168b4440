-- ===== src/Upgrade/Version/Hops.antt =====
-- The loop of `expandHops`: the hops that it lists, and when it ends.
use refresh.Prelude.{
  ℕ, zero, suc, ◌+◌, ◌-◌, ◌≤◌, ◌<◌, ◌≡◌, refl, ap, ◌∙◌, List, [], ◌∷◌, none, some, arith, length,
  get_elem?,
}
use refresh.Prelude.Int.{ℤ, pos, ◌+ℤ◌, wrap_int, max_int, IsInt, wrap_int-IsInt}
use refresh.Text.{Text}
use refresh.Text.Split.{split_n, cut-append, cut-Lacks, split_n-cut-some, split_n-cut-none}
use refresh.Text.Trim.{trim_space-Graphic}
use refresh.Text.Decimal.{parsed, format_int, format_nat, atoi}
use refresh.Text.Decimal.RoundTrip.{
  AllDigits, AllDigits-Lacks, AllDigits-Graphic, format_nat-AllDigits, atoi-format_nat,
}
use refresh.Go.{ok}
use refresh.Upgrade.Version.{minor_version, hop_name, hops_from, expand_hops, hop_rounds}

split_n-hop_name :
    (s : Text) → AllDigits s → split_n (b'1' ∷ b'.' ∷ s) b'.' 3 ≡ (b'1' ∷ []) ∷ s ∷ []
split_n-hop_name s h =
    split_n-cut-some (b'1' ∷ b'.' ∷ s) b'.' 1 (cut-append b'.' (b'1' ∷ []) s (omega arith))
    ∙ ap (λ (l : List Text). (b'1' ∷ []) ∷ l)
        (split_n-cut-none s b'.' 0 (cut-Lacks b'.' s (AllDigits-Lacks s b'.' (omega arith) h)))

minor_version-digits :
    (s : Text) {z : ℤ} → AllDigits s → atoi s ≡ parsed z → minor_version (b'1' ∷ b'.' ∷ s) ≡ ok z
unfolding minor_version
minor_version-digits s h e =
    rw
      (trim_space-Graphic (b'1' ∷ b'.' ∷ s)
        (omega arith, omega arith, (omega arith, omega arith, AllDigits-Graphic s h)))
      (rw (split_n-hop_name s h) (rw e))

-- The name of a hop parses back to its minor version.
minor_version-hop_name : (n : ℕ) → n ≤ max_int → minor_version (hop_name (pos n)) ≡ ok (pos n)
unfolding hop_name format_int
minor_version-hop_name n h =
    minor_version-digits (format_nat n) (format_nat-AllDigits n) (atoi-format_nat n h)

wrap_suc : (m : ℕ) → m < max_int → wrap_int (pos m +ℤ pos 1) ≡ pos (suc m)
unfolding wrap_int
wrap_suc m h = ground arith

hops_from-next :
    (fuel m to : ℕ) {hops : List Text}
    → m ≤ to
    → to < max_int
    → hops_from fuel (pos (suc m)) (pos to) ≡ some hops
    → hops_from (suc fuel) (pos m) (pos to) ≡ some (hop_name (pos m) ∷ hops)
unfolding hops_from
hops_from-next fuel m to h b e = ground (arith, wrap_suc m (omega arith))

hops_from-end : (fuel m to : ℕ) → to < m → hops_from (suc fuel) (pos m) (pos to) ≡ some []
unfolding hops_from
hops_from-end fuel m to h = ground arith

-- The hops are the versions behind `m`, k of them, in order.
abbrev pub AreHops : ℕ → List Text → Type 0
AreHops m hops =
    (i : ℕ)
    → i < length hops
    → (h : Text) × (get_elem? hops i ≡ some h) × (minor_version h ≡ ok (pos (m + i)))

AreHops-cons :
    (m : ℕ) (hops : List Text)
    → m ≤ max_int
    → AreHops (suc m) hops
    → AreHops m (hop_name (pos m) ∷ hops)
AreHops-cons m hops b h zero lt =
    (hop_name (pos m), refl, minor_version-hop_name m b ∙ ap (λ n. ok (pos n)) (omega arith))
AreHops-cons m hops b h (suc i) lt =
    let (v, at, e) = h i (omega arith) in (v, at, e ∙ ap (λ n. ok (pos n)) (omega arith))

-- The loop from `m` with `k` hops to go and fuel to spare ends, and lists them.
hops_from_lem :
    (fuel m k to : ℕ)
    → k < fuel
    → m + k ≡ suc to
    → to < max_int
    → (hops : List Text) × (hops_from fuel (pos m) (pos to) ≡ some hops)
      × (length hops ≡ k)
      × AreHops m hops
hops_from_lem zero m k to h e b = elim h [ ]
hops_from_lem (suc fuel) m zero to h e b =
    ([], hops_from-end fuel m to (omega arith), refl, λ i lt. elim lt [ ])
hops_from_lem (suc fuel) m (suc k) to h e b =
    let (hops, runs, len, are) = hops_from_lem fuel (suc m) k to (omega arith) (omega arith) b in
    (
      hop_name (pos m) ∷ hops,
      hops_from-next fuel m to (omega arith) b runs,
      ap suc len,
      AreHops-cons m hops (omega arith) are,
    )

expand_hops-runs :
    (from to : Text) (f t : ℕ) {hops : List Text}
    → minor_version from ≡ ok (pos f)
    → minor_version to ≡ ok (pos t)
    → f ≤ t
    → t < max_int
    → hops_from (hop_rounds (pos f) (pos t)) (pos (suc f)) (pos t) ≡ some hops
    → expand_hops from to ≡ some (ok hops)
unfolding expand_hops
expand_hops-runs from to f t ef et h b runs = ground (arith, wrap_suc f (omega arith))

-- Between two versions "1.f" and "1.t" with f ≤ t, t below the largest `int`, `expandHops` ends and
-- lists t - f versions, of which the one at i has the minor version f + 1 + i.
pub expand_hops_lists :
    (from to : Text) (f t : ℕ)
    → minor_version from ≡ ok (pos f)
    → minor_version to ≡ ok (pos t)
    → f ≤ t
    → t < max_int
    → (hops : List Text) × (expand_hops from to ≡ some (ok hops))
      × (length hops ≡ t - f)
      × AreHops (suc f) hops
expand_hops_lists from to f t ef et h b =
    let (hops, runs, len, are) =
      hops_from_lem (hop_rounds (pos f) (pos t)) (suc f) (t - f) t (omega arith) (omega arith) b in
    (hops, expand_hops-runs from to f t ef et h b runs, len, are)

-- With the largest `int` for its bound the loop of `expandHops` never ends: `m++` wraps.
pub hops_from_endless : (fuel : ℕ) (m : ℤ) → IsInt m → hops_from fuel m (pos max_int) ≡ none
unfolding hops_from
hops_from_endless zero m h = refl
hops_from_endless (suc fuel) m h = ground (
  arith,
  hops_from_endless fuel (wrap_int (m +ℤ pos 1)) (wrap_int-IsInt m (pos 1) h (ground arith)).0,
)
