-- ===== src/Text/Split.antt =====
-- Cutting texts: `strings.SplitN` and `strings.Split` with a separator of one character, and
-- `strings.FieldsFunc`.
use refresh.Prelude.{
  ℕ, zero, suc, ◌≡◌, refl, Bool, true, false, List, [], ◌∷◌, ◌++◌, Option, none, some, arith, ◌==◌,
  if◌then◌else◌, ◌≢◌,
}
use refresh.Text.{Text}

-- The text before the first separator, and the text after it if there is one.
unfoldable pub cut : ℕ → Text → Text × Option Text
cut sep [] = ([], none)
cut sep (c ∷ s) =
    let (before, after) = cut sep s in if c == sep then ([], some s) else (c ∷ before, after)

-- `strings.SplitN(s, sep, n)` for n ≥ 0.
unfoldable pub split_n : Text → ℕ → ℕ → List Text
split_n s sep zero = []
split_n s sep (suc zero) = s ∷ []
split_n s sep (suc (suc n)) = elim (cut sep s).1 [
  | none ↦ (cut sep s).0 ∷ []
  | some rest ↦ (cut sep s).0 ∷ split_n rest sep (suc n)
]

-- A part that begins with the character, in front of the rest of the parts.
abbrev pub onto_first : ℕ → List Text → List Text
onto_first c [] = (c ∷ []) ∷ []
onto_first c (p ∷ ps) = (c ∷ p) ∷ ps

-- `strings.Split`
unfoldable pub split : ℕ → Text → List Text
split sep [] = [] ∷ []
split sep (c ∷ s) = let rest = split sep s in if c == sep then [] ∷ rest else onto_first c rest

-- `strings.FieldsFunc`: the longest runs of characters that are no separators. `run` holds the
-- characters of the current run, if one has begun.
unfoldable pub fields_from : (ℕ → Bool) → Text → Text → List Text
fields_from is_sep [] [] = []
fields_from is_sep (c ∷ run) [] = (c ∷ run) ∷ []
fields_from is_sep run (c ∷ s) =
    let longer = fields_from is_sep (run ++ c ∷ []) s in
    let next = fields_from is_sep [] s in
    elim (is_sep c) [ false ↦ longer | true ↦ elim run [ [] ↦ next | d ∷ r ↦ (d ∷ r) ∷ next ] ]

unfoldable pub fields_func : (ℕ → Bool) → Text → List Text
unfolding fields_from
fields_func is_sep s = fields_from is_sep [] s

-- No character of the text is the separator.
abbrev pub Lacks : ℕ → Text → Type 0
Lacks sep [] = Unit
Lacks sep (c ∷ s) = (c ≢ sep) × Lacks sep s

pub cut-append : (sep : ℕ) (s t : Text) → Lacks sep s → cut sep (s ++ sep ∷ t) ≡ (s, some t)
unfolding cut
cut-append sep [] t h = ground arith
cut-append sep (c ∷ s) t h = ground (arith, cut-append sep s t h.1)

pub cut-Lacks : (sep : ℕ) (s : Text) → Lacks sep s → cut sep s ≡ (s, none)
unfolding cut
cut-Lacks sep [] h = refl
cut-Lacks sep (c ∷ s) h = ground (arith, cut-Lacks sep s h.1)

pub split_n-cut-some :
    (s : Text) (sep n : ℕ) {before after : Text}
    → cut sep s ≡ (before, some after)
    → split_n s sep (suc (suc n)) ≡ before ∷ split_n after sep (suc n)
unfolding split_n
split_n-cut-some s sep n e = ground arith

pub split_n-cut-none :
    (s : Text) (sep n : ℕ) {before : Text}
    → cut sep s ≡ (before, none)
    → split_n s sep (suc (suc n)) ≡ before ∷ []
unfolding split_n
split_n-cut-none s sep n e = ground arith

pub split-append : (sep : ℕ) (s t : Text) → Lacks sep s → split sep (s ++ sep ∷ t) ≡ s ∷ split sep t
unfolding split
split-append sep [] t h = ground arith
split-append sep (c ∷ s) t h = ground (arith, split-append sep s t h.1)

pub split-Lacks : (sep : ℕ) (s : Text) → Lacks sep s → split sep s ≡ s ∷ []
unfolding split
split-Lacks sep [] h = refl
split-Lacks sep (c ∷ s) h = ground (arith, split-Lacks sep s h.1)
