-- ===== src/Prelude/Linear.antt =====
-- Three-way comparisons that are linear orders, and the dictionary order of lists under one.
use Prim.Native.Nat.{compare, Ordering}
use refresh.Prelude.{◌≡◌, refl, ◌≢◌, ◌⊎◌, inl, inr, List, [], ◌∷◌, arith}

abbrev pub flip : Ordering → Ordering
flip Ordering.lt = Ordering.gt
flip Ordering.eq = Ordering.eq
flip Ordering.gt = Ordering.lt

pub Ordering-cases : (o : Ordering) → (o ≡ Ordering.lt) ⊎ ((o ≡ Ordering.eq) ⊎ (o ≡ Ordering.gt))
Ordering-cases Ordering.lt = inl refl
Ordering-cases Ordering.eq = inr (inl refl)
Ordering-cases Ordering.gt = inr (inr refl)

pub record IsLinear {A : Type 0} (cmp : A → A → Ordering) : Type 0 where
  pub equal : (a b : A) → cmp a b ≡ Ordering.eq → a ≡ b
  pub flipped : (a b : A) → cmp b a ≡ flip (cmp a b)
  pub trans : (a b c : A) → cmp a b ≡ Ordering.lt → cmp b c ≡ Ordering.lt → cmp a c ≡ Ordering.lt

-- The dictionary order: a list stands before its extensions.
unfoldable pub lex : {A : Type 0} → (A → A → Ordering) → List A → List A → Ordering
lex cmp [] [] = Ordering.eq
lex cmp [] (b ∷ bs) = Ordering.lt
lex cmp (a ∷ rest) [] = Ordering.gt
lex cmp (a ∷ rest) (b ∷ bs) = elim (cmp a b) [
  | Ordering.lt ↦ Ordering.lt
  | Ordering.eq ↦ lex cmp rest bs
  | Ordering.gt ↦ Ordering.gt
]

module _ {A : Type 0} (cmp : A → A → Ordering) (linear : IsLinear cmp) where
  lex-equal : (xs ys : List A) → lex cmp xs ys ≡ Ordering.eq → xs ≡ ys
  unfolding lex
  lex-equal [] [] h = refl
  lex-equal [] (y ∷ ys) h = cc
  lex-equal (x ∷ xs) [] h = cc
  lex-equal (x ∷ xs) (y ∷ ys) h = elim (Ordering-cases (cmp x y)) [
    | inl p ↦ ground arith
    | inr (inr p) ↦ ground arith
    | inr (inl p) ↦ cc (linear.equal x y p, lex-equal xs ys (ground arith))
  ]

  lex-flipped : (xs ys : List A) → lex cmp ys xs ≡ flip (lex cmp xs ys)
  unfolding lex
  lex-flipped [] [] = refl
  lex-flipped [] (y ∷ ys) = refl
  lex-flipped (x ∷ xs) [] = refl
  lex-flipped (x ∷ xs) (y ∷ ys) = ground (arith, linear.flipped x y, lex-flipped xs ys)

  lex_trans :
      (xs ys zs : List A)
      → lex cmp xs ys ≡ Ordering.lt
      → lex cmp ys zs ≡ Ordering.lt
      → lex cmp xs zs ≡ Ordering.lt
  unfolding lex
  lex_trans [] [] zs h k = cc
  lex_trans [] (y ∷ ys) [] h k = cc
  lex_trans [] (y ∷ ys) (z ∷ zs) h k = refl
  lex_trans (x ∷ xs) [] zs h k = cc
  lex_trans (x ∷ xs) (y ∷ ys) [] h k = cc
  lex_trans (x ∷ xs) (y ∷ ys) (z ∷ zs) h k =
      ground (arith, linear.equal x y, linear.equal y z, linear.trans x y z, lex_trans xs ys zs)

  pub lex-IsLinear : IsLinear (lex cmp)
  lex-IsLinear = record { equal = lex-equal; flipped = lex-flipped; trans = lex_trans }

  -- "Not below" is transitive too.
  pub not_lt_trans :
      (a b c : A) → cmp a b ≢ Ordering.lt → cmp b c ≢ Ordering.lt → cmp a c ≢ Ordering.lt
  not_lt_trans a b c h k l = ground (
    arith,
    linear.equal a b,
    linear.flipped a b,
    linear.flipped b c,
    linear.equal b c,
    linear.trans b a c,
    linear.trans a c b,
  )

pub compare-IsLinear : IsLinear compare
compare-IsLinear = record {
  equal = λ a b h. ground arith;
  flipped = λ a b. ground arith;
  trans = λ a b c h k. ground arith;
}
