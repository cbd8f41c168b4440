-- ===== src/Common/TtlCache.antt =====
-- internal/services/common/ttlcache.go: a cache whose entries end after a while. Each section of
-- code under a lock is one step; `Get` has two, between which other goroutines may run.
pub mod Lazily
use refresh.Prelude.{
  ℕ, ◌+◌, Bool, true, false, List, [], ◌∷◌, Option, none, some, ltb, if◌then◌else◌,
}
use refresh.Text.{Text, text_eq}

-- `cacheItem`; a time is a number of nanoseconds, and so is a duration, which is not negative.
pub record CacheItem (A : Type 0) : Type 0 where
  pub value : A
  pub expires_at : ℕ

pub record TtlCache (A : Type 0) : Type 0 where
  pub items : Text → Option (CacheItem A)
  pub default_ttl : ℕ

module _ {A : Type 0} where
  abbrev pub with_entry : Text → Option (CacheItem A) → TtlCache A → TtlCache A
  with_entry key entry c = record c { items = λ k. if text_eq key k then entry else c.items k }

  -- `time.Now().After(item.expiresAt)`
  abbrev pub is_expired : ℕ → CacheItem A → Bool
  is_expired now item = ltb item.expires_at now

  -- What `Get` reads: the value of an entry that has not ended.
  abbrev pub fresh : ℕ → Option (CacheItem A) → Option A
  fresh now none = none
  fresh now (some item) = if is_expired now item then none else some item.value

  -- The second section of `Get`: the entry is looked at again, and deleted if it has ended by now.
  abbrev pub unless_expired : ℕ → Option (CacheItem A) → Option (CacheItem A)
  unless_expired now none = none
  unless_expired now (some item) = if is_expired now item then none else some item

  unfoldable pub drop_expired : Text → ℕ → TtlCache A → TtlCache A
  drop_expired key now c = with_entry key (unless_expired now (c.items key)) c

  unfoldable pub set : Text → A → (ttl now : ℕ) → TtlCache A → TtlCache A
  set key value ttl now c =
      with_entry key (some (record { value = value; expires_at = now + ttl })) c

  unfoldable pub set_default : Text → A → (now : ℕ) → TtlCache A → TtlCache A
  unfolding set
  set_default key value now c = set key value c.default_ttl now c

  unfoldable pub delete : Text → TtlCache A → TtlCache A
  delete key c = with_entry key none c

  unfoldable pub clear : TtlCache A → TtlCache A
  clear c = record c { items = λ k. none }

-- The sections of the operations, with the time that each reads.
pub data Section (A : Type 0) : Type 0 where
  look_up : Text → (now : ℕ) → Section A
  drop_entry : Text → (now : ℕ) → Section A
  store : Text → A → (ttl now : ℕ) → Section A
  store_default : Text → A → (now : ℕ) → Section A
  remove : Text → Section A
  remove_all : Section A

-- What the look-ups of an interleaving of sections find, in order.
unfoldable pub run : {A : Type 0} → List (Section A) → TtlCache A → List (Option A)
unfolding drop_expired set set_default delete clear
run [] c = []
run (look_up key now ∷ ss) c = fresh now (c.items key) ∷ run ss c
run (drop_entry key now ∷ ss) c = run ss (drop_expired key now c)
run (store key value ttl now ∷ ss) c = run ss (set key value ttl now c)
run (store_default key value now ∷ ss) c = run ss (set_default key value now c)
run (remove key ∷ ss) c = run ss (delete key c)
run (remove_all ∷ ss) c = run ss (clear c)
