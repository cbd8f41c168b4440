-- ===== src/Addons/Versions/Order.antt =====
-- `CompareVersions` is the dictionary order of the versions' segments, a total preorder.
use Prim.Native.Nat.{compare, Ordering}
use refresh.Prelude.{
  ℕ, zero, suc, ◌+◌, ◌≤◌, ◌≡◌, refl, sym, ap, ◌∙◌, ◌≢◌, false, List, [], ◌∷◌, Option, none, some,
  arith, if◌then◌else◌,
}
use mathlib.Core.List.{map}
use refresh.Prelude.Int.{
  ℤ, pos, negsuc, ◌-ℤ◌, wrap_int, wrap_int_self, max_int, pos_part, neg_part, eq_of_parts, IsInt,
}
use refresh.Prelude.Linear.{flip, IsLinear, lex, lex-IsLinear, compare-IsLinear, not_lt_trans}
use refresh.Text.{Text, compare_text}
use refresh.Text.Split.{Lacks}
use refresh.Text.Fields.{AllLack, fields_func-AllLack}
use refresh.Text.Decimal.Range.{IsSmall, atoi-IsSmall}
use refresh.Text.Decimal.{Parsed, parsed, invalid_syntax, out_of_range, atoi}
use refresh.Addons.Versions.{
  is_separator, segments, is_zero, compare_parsed, compare_segment, compare_segments,
  compare_versions,
}

-- What a segment stands for: a number, or a word.
pub data Key : Type 0 where
  word : Text → Key
  number : ℤ → Key

key_of : Text → Parsed ℤ → Key
key_of s (parsed n) = number n
key_of s _ = word s

unfoldable pub key : Text → Key
unfolding key_of
key s = key_of s (atoi s)

abbrev pub compare_int : ℤ → ℤ → Ordering
compare_int a b = compare (pos_part a + neg_part b) (pos_part b + neg_part a)

-- Every word stands below every number.
abbrev pub compare_key : Key → Key → Ordering
compare_key (word s) (word t) = lex compare s t
compare_key (word s) (number b) = Ordering.lt
compare_key (number a) (word t) = Ordering.gt
compare_key (number a) (number b) = compare_int a b

text-IsLinear : IsLinear (lex compare)
text-IsLinear = lex-IsLinear compare compare-IsLinear

compare_key-equal : (k l : Key) → compare_key k l ≡ Ordering.eq → k ≡ l
compare_key-equal (word s) (word t) h = ap word (text-IsLinear.equal s t h)
compare_key-equal (word s) (number b) h = cc
compare_key-equal (number a) (word t) h = cc
compare_key-equal (number a) (number b) h = ap number (eq_of_parts a b (ground arith))

compare_key-flipped : (k l : Key) → compare_key l k ≡ flip (compare_key k l)
compare_key-flipped (word s) (word t) = text-IsLinear.flipped s t
compare_key-flipped (word s) (number b) = refl
compare_key-flipped (number a) (word t) = refl
compare_key-flipped (number a) (number b) = ground arith

compare_key_trans :
    (k l m : Key)
    → compare_key k l ≡ Ordering.lt
    → compare_key l m ≡ Ordering.lt
    → compare_key k m ≡ Ordering.lt
compare_key_trans (word s) (word t) (word u) h k = text-IsLinear.trans s t u h k
compare_key_trans (word s) (word t) (number c) h k = refl
compare_key_trans (word s) (number b) (word u) h k = cc
compare_key_trans (word s) (number b) (number c) h k = refl
compare_key_trans (number a) (word t) m h k = cc
compare_key_trans (number a) (number b) (word u) h k = cc
compare_key_trans (number a) (number b) (number c) h k = ground arith

pub compare_key-IsLinear : IsLinear compare_key
compare_key-IsLinear = record {
  equal = compare_key-equal;
  flipped = compare_key-flipped;
  trans = compare_key_trans;
}

-- The sign of the comparison's result.
abbrev pub sign : ℤ → Ordering
sign (pos zero) = Ordering.eq
sign (pos (suc n)) = Ordering.gt
sign (negsuc n) = Ordering.lt

sign-compare_text : (s t : Text) → sign (compare_text s t) ≡ lex compare s t
unfolding compare_text lex
sign-compare_text [] [] = refl
sign-compare_text [] (b ∷ t) = refl
sign-compare_text (a ∷ s) [] = refl
sign-compare_text (a ∷ s) (b ∷ t) = ground (arith, sign-compare_text s t)

pos-is_zero : (n : ℕ) → is_zero (pos (suc n)) ≡ false
pos-is_zero n = ground arith

-- A comparison of two segments gives the order of their keys: none where they are equal.
abbrev Decides : Option ℤ → Ordering → Type 0
Decides none o = o ≡ Ordering.eq
Decides (some c) o = (sign c ≡ o) × (o ≢ Ordering.eq)

decisive : (c : ℤ) (o : Ordering) → sign c ≡ o → Decides (if is_zero c then none else some c) o
decisive (pos zero) o h = sym h
decisive (pos (suc n)) o h = rw (pos-is_zero n) (h, λ e. cc)
decisive (negsuc n) o h = (h, λ e. cc)

compare_words :
    (s t : Text)
    → Decides
        (if is_zero (compare_text s t) then none else some (compare_text s t))
        (lex compare s t)
compare_words s t = decisive (compare_text s t) (lex compare s t) (sign-compare_text s t)

sign-difference : (m n : ℕ) → sign (pos m -ℤ pos n) ≡ compare_int (pos m) (pos n)
unfolding ◌-ℤ◌
sign-difference m n = ground arith

difference-IsInt : (m n : ℕ) → m ≤ max_int → n ≤ max_int → IsInt (pos m -ℤ pos n)
unfolding ◌-ℤ◌
difference-IsInt m n h k = ground arith

-- The difference of two numbers does not wrap, and has the sign of their order.
difference :
    (m n : ℕ)
    → m ≤ max_int
    → n ≤ max_int
    → Decides
        (if is_zero (pos m -ℤ pos n) then none else some (wrap_int (pos m -ℤ pos n)))
        (compare_int (pos m) (pos n))
difference m n h k =
    rw (wrap_int_self (pos m -ℤ pos n) (difference-IsInt m n h k))
      (decisive (pos m -ℤ pos n) (compare_int (pos m) (pos n)) (sign-difference m n))

compare_parsed_lem :
    (a b : Text) (p q : Parsed ℤ)
    → IsSmall p
    → IsSmall q
    → Decides (compare_parsed a b p q) (compare_key (key_of a p) (key_of b q))
unfolding compare_parsed key_of
compare_parsed_lem a b (parsed (pos m)) (parsed (pos n)) h k = difference m n h k
compare_parsed_lem a b (parsed (negsuc m)) q h k = absurd h
compare_parsed_lem a b (parsed (pos m)) (parsed (negsuc n)) h k = absurd k
compare_parsed_lem a b (parsed (pos m)) invalid_syntax h k = (refl, λ e. cc)
compare_parsed_lem a b (parsed (pos m)) out_of_range h k = (refl, λ e. cc)
compare_parsed_lem a b invalid_syntax (parsed n) h k = (refl, λ e. cc)
compare_parsed_lem a b out_of_range (parsed n) h k = (refl, λ e. cc)
compare_parsed_lem a b invalid_syntax invalid_syntax h k = compare_words a b
compare_parsed_lem a b invalid_syntax out_of_range h k = compare_words a b
compare_parsed_lem a b out_of_range invalid_syntax h k = compare_words a b
compare_parsed_lem a b out_of_range out_of_range h k = compare_words a b

compare_segment_lem :
    (a b : Text)
    → Lacks b'-' a
    → Lacks b'-' b
    → Decides (compare_segment a b) (compare_key (key a) (key b))
unfolding compare_segment key
compare_segment_lem a b h k =
    compare_parsed_lem a b (atoi a) (atoi b) (atoi-IsSmall a h) (atoi-IsSmall b k)

next_segment :
    (o : Option ℤ) (k : Ordering) (c : ℤ) (l : Ordering)
    → Decides o k
    → sign c ≡ l
    → sign (elim o [ some d ↦ d | none ↦ c ])
      ≡ (elim k [ Ordering.lt ↦ Ordering.lt | Ordering.eq ↦ l | Ordering.gt ↦ Ordering.gt ])
next_segment none k c l h e = ground arith
next_segment (some d) k c l h e = ground arith

compare_segments_lem :
    (xs ys : List Text)
    → AllLack b'-' xs
    → AllLack b'-' ys
    → sign (compare_segments xs ys) ≡ lex compare_key (map key xs) (map key ys)
unfolding compare_segments lex ◌-ℤ◌
compare_segments_lem [] [] h k = refl
compare_segments_lem [] (y ∷ ys) h k = ground arith
compare_segments_lem (x ∷ xs) [] h k = ground arith
compare_segments_lem (x ∷ xs) (y ∷ ys) h k =
    next_segment (compare_segment x y) _ (compare_segments xs ys) _
      (compare_segment_lem x y h.0 k.0) (compare_segments_lem xs ys h.1 k.1)

-- What a version is compared by.
abbrev pub keys : Text → List Key
keys v = map key (segments v)

segments-AllLack : (v : Text) → AllLack b'-' (segments v)
unfolding segments
segments-AllLack v = fields_func-AllLack is_separator b'-' (unfold is_separator in refl) _

-- The sign of `CompareVersions` is the dictionary order of the versions' segments, in which numbers
-- are ordered by value, words by their characters, and every word is below every number.
pub compare_versions-lex :
    (a b : Text) → sign (compare_versions a b) ≡ lex compare_key (keys a) (keys b)
unfolding compare_versions
compare_versions-lex a b =
    compare_segments_lem (segments a) (segments b) (segments-AllLack a) (segments-AllLack b)

keys-IsLinear : IsLinear (lex compare_key)
keys-IsLinear = lex-IsLinear compare_key compare_key-IsLinear

-- `CompareVersions` changes its sign where its arguments change places.
pub compare_versions-flip :
    (a b : Text) → sign (compare_versions b a) ≡ flip (sign (compare_versions a b))
compare_versions-flip a b =
    compare_versions-lex b a
    ∙ keys-IsLinear.flipped (keys a) (keys b)
    ∙ ap flip (sym (compare_versions-lex a b))

-- If a is not older than b, nor b than c, then a is not older than c.
pub compare_versions_trans :
    (a b c : Text)
    → sign (compare_versions a b) ≢ Ordering.lt
    → sign (compare_versions b c) ≢ Ordering.lt
    → sign (compare_versions a c) ≢ Ordering.lt
compare_versions_trans a b c h k = rw (compare_versions-lex a c) (
    not_lt_trans (lex compare_key) keys-IsLinear (keys a) (keys b) (keys c)
      (rw (compare_versions-lex a b) at h) (rw (compare_versions-lex b c) at k))
