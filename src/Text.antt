-- ===== src/Text.antt =====
-- Go strings and the functions of the standard packages `strings` and `strconv` that the program
-- calls. A text is the list of its code points. On valid UTF-8 these functions treat code points
-- as they treat bytes, so a text stands for a Go string that is valid UTF-8.
pub mod Decimal
pub mod Split
pub mod Trim
pub mod Fields
use Prim.Native.Char.{code}
use Prim.Native.String.{String}
use refresh.Prelude.{
  ℕ, zero, suc, ◌+◌, ◌-◌, ◌≡◌, refl, ◌↔◌, Bool, true, false, ◌&&◌, ◌||◌, List, [], ◌∷◌, ◌++◌,
  Option, none, some, arith, leb, ltb, ◌==◌, ==_iff, if◌then◌else◌, Bool-cases, inl, inr, drop,
  length,
}
use mathlib.Core.List.{reverse}
use refresh.Prelude.Int.{ℤ, pos, negsuc}

abbrev pub Text : Type 0
Text = List ℕ

-- A literal. `String` has its own `[]` and `∷`.
abbrev pub txt : String → Text
txt String.[] = []
txt (String.◌∷◌ c s) = code c ∷ txt s

unfoldable pub text_eq : Text → Text → Bool
text_eq [] [] = true
text_eq (a ∷ s) (b ∷ t) = a == b && text_eq s t
text_eq _ _ = false

pub text_eq_iff : (s t : Text) → (text_eq s t ≡ true) ↔ (s ≡ t)
unfolding text_eq
text_eq_iff [] [] = ground arith
text_eq_iff [] (b ∷ t) = ground arith
text_eq_iff (a ∷ s) [] = ground arith
text_eq_iff (a ∷ s) (b ∷ t) = ground (arith, text_eq_iff s t)

-- The pieces of a `fmt.Sprintf` call, in order.
unfoldable pub concat : List Text → Text
concat [] = []
concat (s ∷ ss) = s ++ concat ss

-- `strings.Join`
unfoldable pub join : Text → List Text → Text
join sep [] = []
join sep (s ∷ []) = s
join sep (s ∷ t ∷ ss) = s ++ sep ++ join sep (t ∷ ss)

unfoldable pub has_prefix : Text → Text → Bool
has_prefix s [] = true
has_prefix [] (c ∷ p) = false
has_prefix (d ∷ s) (c ∷ p) = d == c && has_prefix s p

-- `strings.Contains`
unfoldable pub contains : Text → Text → Bool
unfolding has_prefix
contains [] p = has_prefix [] p
contains (c ∷ s) p = has_prefix (c ∷ s) p || contains s p

-- `strings.TrimPrefix`
unfoldable pub trim_prefix : Text → Text → Text
unfolding has_prefix
trim_prefix s p = if has_prefix s p then drop (length p) s else s

-- `unicode.IsSpace`
unfoldable pub is_space : ℕ → Bool
is_space c =
    leb 9 c && leb c 13
    || c == 32
    || c == 0x85
    || c == 0xa0
    || c == 0x1680
    || leb 0x2000 c && leb c 0x200a
    || c == 0x2028
    || c == 0x2029
    || c == 0x202f
    || c == 0x205f
    || c == 0x3000

unfoldable pub trim_left : Text → Text
unfolding is_space
trim_left [] = []
trim_left (c ∷ s) = let rest = trim_left s in elim (is_space c) [ true ↦ rest | false ↦ c ∷ s ]

-- `strings.TrimSpace`
unfoldable pub trim_space : Text → Text
unfolding trim_left
trim_space s = reverse (trim_left (reverse (trim_left s)))

-- `strings.Compare`: code points compare as the bytes of UTF-8 do.
unfoldable pub compare_text : Text → Text → ℤ
compare_text [] [] = pos 0
compare_text [] (b ∷ t) = negsuc 0
compare_text (a ∷ s) [] = pos 1
compare_text (a ∷ s) (b ∷ t) =
    if ltb a b then negsuc 0 else if ltb b a then pos 1 else compare_text s t
