-- ===== src/Text/Fields.antt =====
-- The fields of a text hold no separator.
use refresh.Prelude.{ℕ, ◌≡◌, ◌≢◌, Bool, true, List, [], ◌∷◌, ◌++◌, Bool-cases, inl, inr}
use refresh.Text.{Text}
use refresh.Text.Split.{fields_from, fields_func, Lacks}

abbrev pub AllLack : ℕ → List Text → Type 0
AllLack sep [] = Unit
AllLack sep (s ∷ ss) = Lacks sep s × AllLack sep ss

Lacks-snoc : (sep : ℕ) (s : Text) (c : ℕ) → Lacks sep s → c ≢ sep → Lacks sep (s ++ c ∷ [])
Lacks-snoc sep [] c h k = (k, tt)
Lacks-snoc sep (d ∷ s) c h k = (h.0, Lacks-snoc sep s c h.1 k)

module _ (is_sep : ℕ → Bool) (sep : ℕ) (separates : is_sep sep ≡ true) where
  fields_from-AllLack : (s run : Text) → Lacks sep run → AllLack sep (fields_from is_sep run s)
  unfolding fields_from
  fields_from-AllLack [] [] h = tt
  fields_from-AllLack [] (d ∷ run) h = (h, tt)
  fields_from-AllLack (c ∷ s) [] h = elim (Bool-cases (is_sep c)) [
    | inl yes_sep ↦ rw (yes_sep, fields_from) (fields_from-AllLack s [] tt)
    | inr no_sep ↦ rw (no_sep, fields_from) (fields_from-AllLack s (c ∷ []) (λ e. cc, tt))
  ]
  fields_from-AllLack (c ∷ s) (d ∷ run) h = elim (Bool-cases (is_sep c)) [
    | inl yes_sep ↦ rw (yes_sep, fields_from) (h, fields_from-AllLack s [] tt)
    | inr no_sep ↦
        rw (no_sep, fields_from)
          (fields_from-AllLack s ((d ∷ run) ++ c ∷ []) (Lacks-snoc sep (d ∷ run) c h (λ e. cc)))
  ]

  pub fields_func-AllLack : (s : Text) → AllLack sep (fields_func is_sep s)
  unfolding fields_func
  fields_func-AllLack s = fields_from-AllLack s [] tt
