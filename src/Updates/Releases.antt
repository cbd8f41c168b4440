-- ===== src/Updates/Releases.antt =====
-- What `parseSemver` reads, and when a release is hinted at.
use refresh.Prelude.{
  ℕ, ◌≤◌, ◌<◌, ◌+◌, ◌≡◌, refl, ap, ◌∙◌, ◌≢◌, ◌↔◌, ◌⊎◌, inl, inr, Bool, true, false, List, [], ◌∷◌,
  ◌++◌, none, some, Option-cases, arith, if◌then◌else◌,
}
use refresh.Prelude.Int.{ℤ, pos, max_int, pos_part, neg_part, eq_of_parts, leb_ℤ}
use refresh.Text.{Text, text_eq, trim_prefix, concat}
use refresh.Text.Trim.{Graphic, Graphic-append, trim_space-Graphic}
use refresh.Text.Split.{Lacks, split, split-append, split-Lacks}
use refresh.Text.Decimal.{parsed, format_nat}
use refresh.Text.Decimal.RoundTrip.{
  AllDigits-Lacks, AllDigits-Graphic, format_nat-AllDigits, atoi-format_nat,
}
use refresh.Updates.{
  Semver, component, of_components, of_parts, parse_semver, compare_parsed_semver, compare_semver,
  hint, hint_for, upgrade_hint,
}

-- The name of a release.
abbrev pub release_name : ℕ → ℕ → ℕ → Text
release_name a b c = b'v' ∷ (format_nat a ++ (b'.' ∷ (format_nat b ++ (b'.' ∷ format_nat c))))

abbrev pub semver : ℕ → ℕ → ℕ → Semver
semver a b c = record { major = pos a; minor = pos b; patch = pos c }

split-release_name :
    (a b c : ℕ)
    → split b'.' (format_nat a ++ (b'.' ∷ (format_nat b ++ (b'.' ∷ format_nat c))))
      ≡ format_nat a ∷ format_nat b ∷ format_nat c ∷ []
split-release_name a b c =
    split-append b'.' (format_nat a) _ (lacks a)
    ∙ ap (λ (l : List Text). format_nat a ∷ l)
        (split-append b'.' (format_nat b) _ (lacks b)
          ∙ ap (λ (l : List Text). format_nat b ∷ l) (split-Lacks b'.' (format_nat c) (lacks c)))
  where
    lacks : (n : ℕ) → Lacks b'.' (format_nat n)
    lacks n = AllDigits-Lacks (format_nat n) b'.' (omega arith) (format_nat-AllDigits n)

release_name-Graphic : (a b c : ℕ) → Graphic (release_name a b c)
release_name-Graphic a b c = (
  omega arith,
  omega arith,
  Graphic-append (format_nat a) _ (graphic a) (
    omega arith,
    omega arith,
    Graphic-append (format_nat b) _ (graphic b) (omega arith, omega arith, graphic c),
  ),
)
  where
    graphic : (n : ℕ) → Graphic (format_nat n)
    graphic n = AllDigits-Graphic (format_nat n) (format_nat-AllDigits n)

append-ne-nil : (s t : Text) (c : ℕ) → text_eq (s ++ c ∷ t) [] ≡ false
unfolding text_eq
append-ne-nil [] t c = refl
append-ne-nil (d ∷ s) t c = refl

component-pos : (n : ℕ) → component (parsed (pos n)) ≡ some (pos n)
unfolding component
component-pos n = ground arith

-- The name of a release parses to its numbers, which are `int`s.
pub parse_semver-release_name :
    (a b c : ℕ)
    → a ≤ max_int
    → b ≤ max_int
    → c ≤ max_int
    → parse_semver (release_name a b c) ≡ some (semver a b c)
unfolding parse_semver trim_prefix of_parts of_components
parse_semver-release_name a b c ha hb hc =
    rw (trim_space-Graphic (release_name a b c) (release_name-Graphic a b c)) (
      rw
        (
          append-ne-nil (format_nat a) (format_nat b ++ (b'.' ∷ format_nat c)) b'.',
          split-release_name a b c,
          atoi-format_nat a ha,
          atoi-format_nat b hb,
          atoi-format_nat c hc,
          component-pos a,
          component-pos b,
          component-pos c,
        )
        refl)

infix 40 ◌<ℤ◌
abbrev pub ◌<ℤ◌ : ℤ → ℤ → Type 0
a <ℤ b = pos_part a + neg_part b < pos_part b + neg_part a

-- The later version in the order of the numbers, the first one first.
abbrev pub Newer : (latest current : Semver) → Type 0
Newer y x =
    (x.major <ℤ y.major)
    ⊎ ((x.major ≡ y.major) × ((x.minor <ℤ y.minor) ⊎ ((x.minor ≡ y.minor) × (x.patch <ℤ y.patch))))

compare_parsed_semver_iff :
    (x y : Semver) → (leb_ℤ (pos 0) (compare_parsed_semver x y) ≡ false) ↔ Newer y x
unfolding compare_parsed_semver
compare_parsed_semver_iff x y =
    ground
      (arith, eq_of_parts x.major y.major, eq_of_parts x.minor y.minor, eq_of_parts x.patch y.patch)

hint-ne-nil : (current latest : Text) → hint current latest ≢ []
unfolding hint concat
hint-ne-nil current latest = λ e. cc

unless_iff : (b : Bool) (t : Text) → t ≢ [] → ((if b then [] else t) ≢ []) ↔ (b ≡ false)
unless_iff true t h = (λ k. absurd (k refl), λ e. cc)
unless_iff false t h = (λ k. refl, λ e. h)

upgrade_hint-parsed :
    (current latest : Text) (x y : Semver)
    → parse_semver current ≡ some x
    → parse_semver latest ≡ some y
    → (upgrade_hint current latest ≢ []) ↔ (leb_ℤ (pos 0) (compare_parsed_semver x y) ≡ false)
unfolding upgrade_hint compare_semver hint_for
upgrade_hint-parsed current latest x y px py =
    rw (upgrade_hint, compare_semver, px, py)
      (unless_iff (leb_ℤ (pos 0) (compare_parsed_semver x y)) (hint current latest)
        (hint-ne-nil current latest))

upgrade_hint-none :
    (current latest : Text)
    → compare_semver current latest ≡ none
    → upgrade_hint current latest ≡ []
unfolding upgrade_hint hint_for
upgrade_hint-none current latest h = rw (upgrade_hint, h) refl

-- There is a hint exactly where both versions parse and the latest one is newer.
pub upgrade_hint_iff :
    (current latest : Text)
    → (upgrade_hint current latest ≢ []) ↔ (
        (x y : Semver) × (parse_semver current ≡ some x)
        × (parse_semver latest ≡ some y)
        × Newer y x)
unfolding compare_semver
upgrade_hint_iff current latest = (
  λ h. elim (Option-cases (parse_semver current)) [
    | inl nx ↦ absurd (h (upgrade_hint-none current latest (rw (compare_semver, nx) refl)))
    | inr (x, px) ↦ elim (Option-cases (parse_semver latest)) [
      | inl ny ↦ absurd (h (upgrade_hint-none current latest (rw (compare_semver, px, ny) refl)))
      | inr (y, py) ↦ (
        x,
        y,
        px,
        py,
        (compare_parsed_semver_iff x y).0 ((upgrade_hint-parsed current latest x y px py).0 h),
      )
    ]
  ],
  λ (x, y, px, py, new).
      (upgrade_hint-parsed current latest x y px py).1 ((compare_parsed_semver_iff x y).1 new),
)
