-- ===== src/Updates/Checker/Requests.antt =====
-- How many requests a number of checks make.
use refresh.Prelude.{
  ℕ, zero, suc, ◌+◌, ◌≡◌, refl, ap, ◌∙◌, true, false, [], Option, none, some, arith,
}
use mathlib.Core.Path.{subst}
use refresh.Text.{Text, text_eq}
use refresh.Go.{GoError, err}
use refresh.Updates.Checker.{
  Cache, Machine, parsed_file, read_cache, response_tag, fetch_latest, is_recent, after_fetch,
  with_cache, latest_tag, checks,
}

-- The calls of a machine, by the number of requests that it has made and what is in the file of the
-- cache: reading the file and the clock changes neither, a request counts as one and leaves the file.
pub record IsObserved {W : Type 0} (m : Machine W) (cache_path : Text) (requests : W → ℕ)
    (file : W → Option Text) : Type 0 where
  pub reads : (w : W) → (m.read_file cache_path w).0 ≡ file w
  pub read_requests : (w : W) → requests (m.read_file cache_path w).1 ≡ requests w
  pub read_keeps : (w : W) → file (m.read_file cache_path w).1 ≡ file w
  pub now_requests : (w : W) → requests (m.now w).1 ≡ requests w
  pub now_keeps : (w : W) → file (m.now w).1 ≡ file w
  pub get_requests : (url : Text) (w : W) → requests (m.get url w).1 ≡ suc (requests w)
  pub get_keeps : (url : Text) (w : W) → file (m.get url w).1 ≡ file w

module _ {W : Type 0} (m : Machine W) (base_url cache_path : Text) (requests : W → ℕ)
    (file : W → Option Text) (ob : IsObserved m cache_path requests file)
    (named : text_eq cache_path [] ≡ false) (b : Text) (c : Cache)
    (parses : m.parse_cache b ≡ some c) where
  -- The file holds the cache `c`, and so many requests have been made.
  abbrev Holds : ℕ → W → Type 0
  Holds n w = (requests w ≡ n) × (file w ≡ some b)

  parsed_file-eq :
      (r : Option Text × W) → r.0 ≡ some b → parsed_file m base_url cache_path r ≡ (some c, r.1)
  unfolding parsed_file
  parsed_file-eq (o, v) h = rw (h, parses) refl

  read_cache-eq :
      (w : W)
      → file w ≡ some b
      → read_cache m base_url cache_path w ≡ (some c, (m.read_file cache_path w).1)
  unfolding read_cache
  read_cache-eq w there = rw named (parsed_file-eq (m.read_file cache_path w) (ob.reads w ∙ there))

  read-Holds : (n : ℕ) (w : W) → Holds n w → Holds n (m.read_file cache_path w).1
  read-Holds n w (made, there) = (ob.read_requests w ∙ made, ob.read_keeps w ∙ there)

  now-Holds : (n : ℕ) (w : W) → Holds n w → Holds n (m.now w).1
  now-Holds n w (made, there) = (ob.now_requests w ∙ made, ob.now_keeps w ∙ there)

  get-Holds : (n : ℕ) (w : W) → Holds n w → Holds (suc n) (m.get base_url w).1
  get-Holds n w (made, there) =
      (ob.get_requests base_url w ∙ ap suc made, ob.get_keeps base_url w ∙ there)

  module _ (early : (v : W) → is_recent m base_url cache_path c (m.now v).0 ≡ true) where
    latest_tag-recent : (n : ℕ) (w : W) → Holds n w → Holds n (latest_tag m base_url cache_path w).1
    unfolding latest_tag with_cache
    latest_tag-recent n w h =
        rw (read_cache-eq w h.1, early (m.read_file cache_path w).1)
          (now-Holds n (m.read_file cache_path w).1 (read-Holds n w h))

    checks-Holds :
        (times n : ℕ) (w : W) → Holds n w → Holds n (checks m base_url cache_path times w)
    unfolding checks
    checks-Holds zero n w h = h
    checks-Holds (suc times) n w h =
        checks-Holds times n (latest_tag m base_url cache_path w).1 (latest_tag-recent n w h)

    -- As long as the clock shows times of the interval behind the check in the cache, no number of
    -- checks makes a request.
    pub checks_recent :
        (times : ℕ) (w : W)
        → file w ≡ some b
        → requests (checks m base_url cache_path times w) ≡ requests w
    checks_recent times w there = (checks-Holds times (requests w) w (refl, there)).0

  module _ (late : (v : W) → is_recent m base_url cache_path c (m.now v).0 ≡ false)
      (valid : m.new_request base_url ≡ none) (e : GoError)
      (offline : (v : W) → (m.get base_url v).0 ≡ err e) where
    fetch_latest-offline :
        (w : W)
        → fetch_latest m base_url cache_path w
          ≡ (response_tag m base_url cache_path (err e), (m.get base_url w).1)
    unfolding fetch_latest
    fetch_latest-offline w = rw (fetch_latest, valid, offline w) refl

    after_fetch-offline :
        (n : ℕ) (w : W)
        → Holds n w
        → Holds
            (suc n)
            (after_fetch m base_url cache_path (some c) (fetch_latest m base_url cache_path w)).1
    unfolding after_fetch response_tag
    after_fetch-offline n w h = rw (fetch_latest-offline w) (get-Holds n w h)

    latest_tag-offline :
        (n : ℕ) (w : W) → Holds n w → Holds (suc n) (latest_tag m base_url cache_path w).1
    unfolding latest_tag with_cache
    latest_tag-offline n w h =
        rw (read_cache-eq w h.1, late (m.read_file cache_path w).1)
          (after_fetch-offline n (m.now (m.read_file cache_path w).1).1
            (now-Holds n (m.read_file cache_path w).1 (read-Holds n w h)))

    checks-offline :
        (times n : ℕ) (w : W) → Holds n w → Holds (n + times) (checks m base_url cache_path times w)
    unfolding checks
    checks-offline zero n w h = subst (λ k. Holds k w) (omega arith) h
    checks-offline (suc times) n w h =
        let v = (latest_tag m base_url cache_path w).1 in
        subst (λ k. Holds k (checks m base_url cache_path times v)) (omega arith)
          (checks-offline times (suc n) v (latest_tag-offline n w h))

    -- Once the interval is over, and while the network does not answer, every check makes a request.
    pub checks_offline :
        (times : ℕ) (w : W)
        → file w ≡ some b
        → requests (checks m base_url cache_path times w) ≡ requests w + times
    checks_offline times w there = (checks-offline times (requests w) w (refl, there)).0
