-- ===== src/Common/TtlCache/Lazily.antt =====
-- Nobody sees when the entries that have ended are deleted.
use refresh.Prelude.{
  ℕ, ◌+◌, ◌≤◌, ◌≡◌, refl, ap, ◌∙◌, Bool-cases, inl, inr, List, [], ◌∷◌, Option, none, some, arith,
}
use refresh.Text.{Text, text_eq, text_eq_iff}
use refresh.Common.TtlCache.{
  CacheItem, TtlCache, with_entry, fresh, unless_expired, drop_expired, set, set_default, delete,
  clear, Section, look_up, drop_entry, store, store_default, remove, remove_all, run,
}

module _ {A : Type 0} where
  -- The interleaving in which no entry is ever deleted for its age.
  abbrev pub without_drops : List (Section A) → List (Section A)
  without_drops [] = []
  without_drops (drop_entry key now ∷ ss) = without_drops ss
  without_drops (look_up key now ∷ ss) = look_up key now ∷ without_drops ss
  without_drops (store key value ttl now ∷ ss) = store key value ttl now ∷ without_drops ss
  without_drops (store_default key value now ∷ ss) = store_default key value now ∷ without_drops ss
  without_drops (remove key ∷ ss) = remove key ∷ without_drops ss
  without_drops (remove_all ∷ ss) = remove_all ∷ without_drops ss

  -- The times that the sections read do not run backwards. A look-up reads its time behind its
  -- lock, and so perhaps behind that of later sections.
  abbrev pub InOrder : ℕ → List (Section A) → Type 0
  InOrder t [] = Unit
  InOrder t (look_up key now ∷ ss) = (t ≤ now) × InOrder t ss
  InOrder t (drop_entry key now ∷ ss) = (t ≤ now) × InOrder now ss
  InOrder t (store key value ttl now ∷ ss) = (t ≤ now) × InOrder now ss
  InOrder t (store_default key value now ∷ ss) = (t ≤ now) × InOrder now ss
  InOrder t (remove key ∷ ss) = InOrder t ss
  InOrder t (remove_all ∷ ss) = InOrder t ss

  -- From the time on, both caches answer alike, and they have the same default.
  record SameFrom (t : ℕ) (c d : TtlCache A) : Type 0 where
    alike : (key : Text) (now : ℕ) → t ≤ now → fresh now (c.items key) ≡ fresh now (d.items key)
    default : c.default_ttl ≡ d.default_ttl

  fresh-unless_expired :
      (t now : ℕ) (entry : Option (CacheItem A))
      → t ≤ now
      → fresh now (unless_expired t entry) ≡ fresh now entry
  fresh-unless_expired t now none le = refl
  fresh-unless_expired t now (some item) le = ground arith

  with_entry-alike :
      (key k : Text) (now : ℕ) (a b : Option (CacheItem A)) (c d : TtlCache A)
      → fresh now a ≡ fresh now b
      → fresh now (c.items k) ≡ fresh now (d.items k)
      → fresh now ((with_entry key a c).items k) ≡ fresh now ((with_entry key b d).items k)
  with_entry-alike key k now a b c d e same = elim (Bool-cases (text_eq key k)) [
    | inl here ↦ rw here e
    | inr there ↦ rw there same
  ]

  drop_expired-SameFrom :
      (t now : ℕ) (key : Text) (c d : TtlCache A)
      → SameFrom t c d
      → t ≤ now
      → SameFrom now (drop_expired key now c) d
  unfolding drop_expired
  drop_expired-SameFrom t now key c d same le = record {
    alike = λ k later after. elim (Bool-cases (text_eq key k)) [
      | inl here ↦ rw here (
          fresh-unless_expired now later (c.items key) after
          ∙ same.alike key later (omega arith)
          ∙ ap (λ x. fresh later (d.items x)) ((text_eq_iff key k).0 here))
      | inr there ↦ rw there (same.alike k later (omega arith))
    ];
    default = same.default;
  }

  with_entry-SameFrom :
      (t now : ℕ) (key : Text) (a b : Option (CacheItem A)) (c d : TtlCache A)
      → a ≡ b
      → SameFrom t c d
      → t ≤ now
      → SameFrom now (with_entry key a c) (with_entry key b d)
  with_entry-SameFrom t now key a b c d e same le = record {
    alike = λ k later after.
        with_entry-alike key k later a b c d (ap (fresh later) e)
          (same.alike k later (omega arith));
    default = same.default;
  }

  run-SameFrom :
      (ss : List (Section A)) (t : ℕ) (c d : TtlCache A)
      → SameFrom t c d
      → InOrder t ss
      → run ss c ≡ run (without_drops ss) d
  unfolding run set set_default delete clear
  run-SameFrom [] t c d same o = refl
  run-SameFrom (look_up key now ∷ ss) t c d same (le, o) =
      rw (same.alike key now le)
        (ap (λ rest. fresh now (d.items key) ∷ rest) (run-SameFrom ss t c d same o))
  run-SameFrom (drop_entry key now ∷ ss) t c d same (le, o) =
      run-SameFrom ss now (drop_expired key now c) d (drop_expired-SameFrom t now key c d same le) o
  run-SameFrom (store key value ttl now ∷ ss) t c d same (le, o) =
      run-SameFrom ss now _ _ (with_entry-SameFrom t now key _ _ c d refl same le) o
  run-SameFrom (store_default key value now ∷ ss) t c d same (le, o) =
      run-SameFrom ss now _ _
        (with_entry-SameFrom t now key _ _ c d
          (ap (λ ttl. some (record { value = value; expires_at = now + ttl })) same.default) same
          le)
        o
  run-SameFrom (remove key ∷ ss) t c d same o =
      run-SameFrom ss t _ _ (with_entry-SameFrom t t key none none c d refl same (omega arith)) o
  run-SameFrom (remove_all ∷ ss) t c d same o =
      run-SameFrom ss t _ _ (record { alike = λ key now le. refl; default = same.default }) o

  -- In any interleaving of the sections of a cache whose times do not run backwards, every look-up
  -- finds what it would find if entries were never deleted for their age: it makes no difference
  -- when `Get` deletes them, or whether it does.
  pub run-without_drops :
      (ss : List (Section A)) (t : ℕ) (c : TtlCache A)
      → InOrder t ss
      → run ss c ≡ run (without_drops ss) c
  run-without_drops ss t c o =
      run-SameFrom ss t c c (record { alike = λ key now le. refl; default = refl }) o
