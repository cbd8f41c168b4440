-- ===== src/Prelude/Int.antt =====
-- Signed integers over the native numbers, under the library's names (its ℤ stands on the unary ℕ).
-- Sums and orders go through the two parts of an integer, which are numbers that `omega` reads.
use refresh.Prelude.{ℕ, suc, ◌+◌, ◌-◌, ◌≤◌, ◌≡◌, Bool, arith, ltb, leb, if◌then◌else◌}

-- `negsuc n` is -(n + 1).
pub data ℤ : Type 0 where
  pos : ℕ → ℤ
  negsuc : ℕ → ℤ

abbrev pub pos_part : ℤ → ℕ
pos_part (pos n) = n
pos_part (negsuc n) = 0

abbrev pub neg_part : ℤ → ℕ
neg_part (pos n) = 0
neg_part (negsuc n) = suc n

-- a - b, as an integer.
abbrev pub sub_ℕ : ℕ → ℕ → ℤ
sub_ℕ a b = if leb b a then pos (a - b) else negsuc (b - a - 1)

infixl 65 ◌+ℤ◌ ◌-ℤ◌
infix 50 ◌≤ℤ◌
unfoldable pub ◌+ℤ◌ : ℤ → ℤ → ℤ
a +ℤ b = sub_ℕ (pos_part a + pos_part b) (neg_part a + neg_part b)

unfoldable pub ◌-ℤ◌ : ℤ → ℤ → ℤ
a -ℤ b = sub_ℕ (pos_part a + neg_part b) (neg_part a + pos_part b)

abbrev pub ◌≤ℤ◌ : ℤ → ℤ → Type 0
a ≤ℤ b = pos_part a + neg_part b ≤ pos_part b + neg_part a

abbrev pub ltb_ℤ : ℤ → ℤ → Bool
ltb_ℤ a b = ltb (pos_part a + neg_part b) (pos_part b + neg_part a)

abbrev pub leb_ℤ : ℤ → ℤ → Bool
leb_ℤ a b = leb (pos_part a + neg_part b) (pos_part b + neg_part a)

-- One lemma for each operation lets `omega` work with the operations shut.
pub +ℤ_parts :
    (a b : ℤ)
    → pos_part (a +ℤ b) + neg_part a + neg_part b ≡ neg_part (a +ℤ b) + pos_part a + pos_part b
unfolding ◌+ℤ◌
+ℤ_parts a b = ground arith

pub -ℤ_parts :
    (a b : ℤ)
    → pos_part (a -ℤ b) + neg_part a + pos_part b ≡ neg_part (a -ℤ b) + pos_part a + neg_part b
unfolding ◌-ℤ◌
-ℤ_parts a b = ground arith

pub eq_of_parts : (a b : ℤ) → pos_part a + neg_part b ≡ pos_part b + neg_part a → a ≡ b
eq_of_parts a b h = ground arith

pub ruleset int_laws = (arith, +ℤ_parts, -ℤ_parts, eq_of_parts)

-- The bounds of Go's `int` on a 64-bit machine: `min_int` is -2^63.
abbrev pub max_int : ℕ
max_int = 9223372036854775807

abbrev pub min_int : ℤ
min_int = negsuc 9223372036854775807

pub record IsInt (z : ℤ) : Type 0 where
  pub at_most : z ≤ℤ pos max_int
  pub at_least : min_int ≤ℤ z

-- The wrap-around of one addition or subtraction of two `int`s, which passes a bound by less than
-- 2^64.
unfoldable pub wrap_int : ℤ → ℤ
unfolding ◌+ℤ◌ ◌-ℤ◌
wrap_int z =
    if ltb_ℤ (pos max_int) z
    then z -ℤ pos 18446744073709551616
    else if ltb_ℤ z min_int
    then z +ℤ pos 18446744073709551616
    else z

pub wrap_int_self : (z : ℤ) → IsInt z → wrap_int z ≡ z
unfolding wrap_int
wrap_int_self z h = ground arith

pub wrap_int-IsInt :
    (a b : ℤ) → IsInt a → IsInt b → IsInt (wrap_int (a +ℤ b)) × IsInt (wrap_int (a -ℤ b))
unfolding wrap_int
wrap_int-IsInt a b h k = (ground arith, ground arith)
