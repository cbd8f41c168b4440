-- ===== src/Addons/Dependency/Waiting.antt =====
-- How many addons wait for another.
use refresh.Prelude.{
  ℕ, suc, ◌≤◌, ◌<◌, ◌≡◌, refl, ap, ◌∙◌, ◌⊎◌, inl, inr, Bool, true, false, Bool-cases, List, [], ◌∷◌,
  arith, ==_iff, if◌then◌else◌,
}
use refresh.Prelude.Int.{ℤ, pos, negsuc, ◌-ℤ◌, -ℤ_parts, eq_of_parts, ltb_ℤ}
use mathlib.Core.Path.{subst}
use refresh.Text.{Text, text_eq, text_eq_iff}
use refresh.Addons.Service.{AddonSummary}
use refresh.Addons.Dependency.{Graph, update, is_ready}

-- An addon has the name.
abbrev pub Names : List AddonSummary → Text → Type 0
Names [] name = ⊥
Names (a ∷ addons) name = (a.name ≡ name) ⊎ Names addons name

abbrev pub AllNamed : List AddonSummary → List Text → Type 0
AllNamed addons [] = Unit
AllNamed addons (name ∷ names) = Names addons name × AllNamed addons names

-- Only addons wait.
abbrev pub Closed : List AddonSummary → Graph → Type 0
Closed addons g = (name : Text) → AllNamed addons (g.dependents name)

-- The addons that wait for another.
abbrev pub waiting : (Text → ℤ) → List AddonSummary → ℕ
waiting degree [] = 0
waiting degree (a ∷ addons) =
    if ltb_ℤ (pos 0) (degree a.name) then suc (waiting degree addons) else waiting degree addons

text_eq_refl : (s : Text) → text_eq s s ≡ true
text_eq_refl s = (text_eq_iff s s).1 refl

abbrev pub one_less : (Text → ℤ) → Text → (Text → ℤ)
one_less degree d = update degree d (degree d -ℤ pos 1)

pub one_less-at : (degree : Text → ℤ) (d : Text) → one_less degree d d ≡ degree d -ℤ pos 1
one_less-at degree d = rw (text_eq_refl d) refl

one_less-waits : (z : ℤ) → ltb_ℤ (pos 0) (z -ℤ pos 1) ≡ true → ltb_ℤ (pos 0) z ≡ true
one_less-waits z h = ground (arith, -ℤ_parts z (pos 1))

-- A test that holds no more often counts no more.
pub add_if :
    (b c : Bool) (m n : ℕ)
    → (b ≡ true → c ≡ true)
    → m ≤ n
    → (if b then suc m else m) ≤ (if c then suc n else n)
add_if false false m n h le = le
add_if false true m n h le = omega arith
add_if true true m n h le = omega arith
add_if true false m n h le = absurd (false_true (h refl))
  where
    false_true : false ≡ true → ⊥
    false_true k = cc

add_if_lt :
    (b c : Bool) (m n : ℕ)
    → (b ≡ true → c ≡ true)
    → m < n
    → (if b then suc m else m) < (if c then suc n else n)
add_if_lt false false m n h lt = lt
add_if_lt false true m n h lt = omega arith
add_if_lt true true m n h lt = omega arith
add_if_lt true false m n h lt = absurd (false_true (h refl))
  where
    false_true : false ≡ true → ⊥
    false_true k = cc

-- The same, where the test holds no longer.
add_unless :
    (m n : ℕ) (b c : Bool)
    → b ≡ false
    → c ≡ true
    → m ≤ n
    → (if b then suc m else m) < (if c then suc n else n)
add_unless m n b c h k le = rw (h, k) (omega arith)

pub one_less-waits_still :
    (degree : Text → ℤ) (d name : Text)
    → ltb_ℤ (pos 0) (one_less degree d name) ≡ true
    → ltb_ℤ (pos 0) (degree name) ≡ true
one_less-waits_still degree d name h = elim (Bool-cases (text_eq d name)) [
  | inr other ↦
      subst (λ z. ltb_ℤ (pos 0) z ≡ true)
        (ap (λ b. if b then degree d -ℤ pos 1 else degree name) other) h
  | inl same ↦ one_less-waits (degree name) (
      subst (λ z. ltb_ℤ (pos 0) z ≡ true)
        (ap (λ b. if b then degree d -ℤ pos 1 else degree name) same
          ∙ ap (λ n. degree n -ℤ pos 1) ((text_eq_iff d name).0 same))
        h)
]

pub waiting-one_less :
    (degree : Text → ℤ) (d : Text) (addons : List AddonSummary)
    → waiting (one_less degree d) addons ≤ waiting degree addons
waiting-one_less degree d [] = omega arith
waiting-one_less degree d (a ∷ addons) =
    add_if _ _ _ _ (one_less-waits_still degree d a.name) (waiting-one_less degree d addons)

pub is_ready-zero : (z : ℤ) → is_ready z ≡ true → z ≡ pos 0
unfolding is_ready
is_ready-zero (pos n) h = ap pos ((==_iff n 0).0 h)
is_ready-zero (negsuc n) h = cc

pub is_ready-last : (z : ℤ) → is_ready (z -ℤ pos 1) ≡ true → z ≡ pos 1
is_ready-last z h =
    let parts = -ℤ_parts z (pos 1) in
    let gone = is_ready-zero (z -ℤ pos 1) h in
    let parts_gone = rw gone at parts in eq_of_parts z (pos 1) (omega arith)

pub zero_waits : ltb_ℤ (pos 0) (pos 1 -ℤ pos 1) ≡ false
unfolding ◌-ℤ◌
zero_waits = refl

-- An addon that waits for its last dependency waits no longer.
pub waiting-released :
    (degree : Text → ℤ) (d : Text) (addons : List AddonSummary)
    → degree d ≡ pos 1
    → Names addons d
    → waiting (one_less degree d) addons < waiting degree addons
waiting-released degree d (a ∷ addons) last (inl here) =
    add_unless _ _ _ _
      (ap (ltb_ℤ (pos 0))
          (ap (one_less degree d) here ∙ one_less-at degree d ∙ ap (λ z. z -ℤ pos 1) last)
        ∙ zero_waits)
      (ap (ltb_ℤ (pos 0)) (ap degree here ∙ last)) (waiting-one_less degree d addons)
waiting-released degree d (a ∷ addons) last (inr later) =
    add_if_lt _ _ _ _ (one_less-waits_still degree d a.name)
      (waiting-released degree d addons last later)
waiting-released degree d [] last named = elim named [ ]
