-- ===== src/Upgrade/Version/Order.antt =====
-- `versionAtLeast` is a total preorder on the versions that parse.
use refresh.Prelude.{◌≡◌, true, ◌↔◌, ◌⊎◌, inl, inr, arith}
use refresh.Prelude.Int.{ℤ, ◌≤ℤ◌}
use refresh.Text.{Text}
use refresh.Go.{ok, Result-cases}
use refresh.Upgrade.Version.{minor_version, version_at_least}

version_at_least-ok :
    (a b : Text) (m n : ℤ)
    → minor_version a ≡ ok m
    → minor_version b ≡ ok n
    → (version_at_least a b ≡ true) ↔ (n ≤ℤ m)
unfolding version_at_least
version_at_least-ok a b m n p q = ground arith

version_at_least-parses :
    (a b : Text)
    → version_at_least a b ≡ true
    → ((m : ℤ) × (minor_version a ≡ ok m)) × ((n : ℤ) × (minor_version b ≡ ok n))
unfolding version_at_least
version_at_least-parses a b h = elim (Result-cases (minor_version a)) [
  | inl (m, p) ↦ elim (Result-cases (minor_version b)) [
    | inl (n, q) ↦ ((m, p), (n, q))
    | inr (e, q) ↦ ground arith
  ]
  | inr (e, p) ↦ ground arith
]

-- `versionAtLeast(a, b)` says exactly that both parse and that a's minor version is not below b's.
pub version_at_least_iff :
    (a b : Text)
    → (version_at_least a b ≡ true)
      ↔ ((m : ℤ) × (n : ℤ) × (minor_version a ≡ ok m) × (minor_version b ≡ ok n) × (n ≤ℤ m))
version_at_least_iff a b = (
  λ h.
      let ((m, p), (n, q)) = version_at_least-parses a b h in
      (m, n, p, q, (version_at_least-ok a b m n p q).0 h),
  λ (m, n, p, q, h). (version_at_least-ok a b m n p q).1 h,
)

pub version_at_least_trans :
    (a b c : Text)
    → version_at_least a b ≡ true
    → version_at_least b c ≡ true
    → version_at_least a c ≡ true
unfolding version_at_least
version_at_least_trans a b c h k = ground arith

-- Two versions that parse are comparable.
pub version_at_least_total :
    (a b : Text) (m n : ℤ)
    → minor_version a ≡ ok m
    → minor_version b ≡ ok n
    → (version_at_least a b ≡ true) ⊎ (version_at_least b a ≡ true)
unfolding version_at_least
version_at_least_total a b m n p q = ground arith
