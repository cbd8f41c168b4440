-- ===== src/Text/Trim.antt =====
-- `TrimSpace` leaves a text alone that has no space.
use mathlib.Core.List.{reverse, reverse-reverse, reverse-append}
use refresh.Prelude.{ℕ, ◌≤◌, ◌≡◌, refl, false, [], ◌∷◌, ◌++◌, arith}
use refresh.Text.{Text, is_space, trim_left, trim_space}

-- Every character is one of the ASCII graphic characters.
abbrev pub Graphic : Text → Type 0
Graphic [] = Unit
Graphic (c ∷ s) = (33 ≤ c) × (c ≤ 126) × Graphic s

pub Graphic-append : (s t : Text) → Graphic s → Graphic t → Graphic (s ++ t)
Graphic-append [] t h k = k
Graphic-append (c ∷ s) t h k = (h.0, h.1, Graphic-append s t h.2 k)

Graphic-reverse : (s : Text) → Graphic s → Graphic (reverse s)
Graphic-reverse [] h = tt
Graphic-reverse (c ∷ s) h =
    rw (reverse-append (c ∷ []) s)
      (Graphic-append (reverse s) (c ∷ []) (Graphic-reverse s h.2) (h.0, h.1, tt))

is_space-graphic : (c : ℕ) → 33 ≤ c → c ≤ 126 → is_space c ≡ false
unfolding is_space
is_space-graphic c h k = ground arith

trim_left-Graphic : (s : Text) → Graphic s → trim_left s ≡ s
unfolding trim_left
trim_left-Graphic [] h = refl
trim_left-Graphic (c ∷ s) h = rw (is_space-graphic c h.0 h.1, trim_left)

pub trim_space-Graphic : (s : Text) → Graphic s → trim_space s ≡ s
unfolding trim_space
trim_space-Graphic s h =
    rw (trim_left-Graphic s h)
      (rw (trim_left-Graphic (reverse s) (Graphic-reverse s h)) (reverse-reverse s))
