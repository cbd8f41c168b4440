-- ===== src/Text/Decimal/Range.antt =====
-- A text with no minus sign is read as no negative number.
use refresh.Prelude.{
  ℕ, ◌≤◌, ◌≡◌, ◌≢◌, [], ◌∷◌, arith, ltb, ◌==◌, if◌then◌else◌, Bool-cases, inl, inr,
}
use refresh.Prelude.Int.{ℤ, pos, negsuc, max_int}
use refresh.Text.{Text}
use refresh.Text.Split.{Lacks}
use refresh.Text.Decimal.{
  Parsed, parsed, invalid_syntax, out_of_range, parse_uint, in_range_pos, atoi,
}

-- A number that was read is an `int`, and no negative one.
abbrev pub IsSmall : Parsed ℤ → Type 0
IsSmall (parsed (pos n)) = n ≤ max_int
IsSmall (parsed (negsuc n)) = ⊥
IsSmall _ = Unit

in_range_pos-IsSmall : (p : Parsed ℕ) → IsSmall (in_range_pos p)
unfolding in_range_pos
in_range_pos-IsSmall (parsed n) = elim (Bool-cases (ltb max_int n)) [
  | inl large ↦ rw large tt
  | inr small ↦ rw small (ground arith)
]
in_range_pos-IsSmall invalid_syntax = tt
in_range_pos-IsSmall out_of_range = tt

atoi-unsigned :
    (c : ℕ) (s : Text)
    → c ≢ b'-'
    → atoi (c ∷ s) ≡ in_range_pos (parse_uint (if c == b'+' then s else c ∷ s))
unfolding atoi
atoi-unsigned c s h = elim (Bool-cases (c == b'-')) [
  | inl minus ↦ absurd (h (ground arith))
  | inr other ↦ rw (other, atoi)
]

pub atoi-IsSmall : (s : Text) → Lacks b'-' s → IsSmall (atoi s)
atoi-IsSmall [] h = unfold atoi in tt
atoi-IsSmall (c ∷ s) h = rw (atoi-unsigned c s h.0) (in_range_pos-IsSmall _)
