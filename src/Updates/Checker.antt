-- ===== src/Updates/Checker.antt =====
-- internal/updatecheck/updatecheck.go: the latest release, with the cache that keeps the network
-- from being asked too often.
pub mod Requests
use refresh.Prelude.{
  ℕ, zero, suc, ◌+◌, Bool, true, false, not, List, [], ◌∷◌, Option, none, some, ltb, ◌==◌,
  if◌then◌else◌,
}
use refresh.Text.{Text, txt, concat, text_eq, trim_space}
use refresh.Text.Decimal.{format_nat}
use refresh.Go.{GoError, plain, wrapped, error_text, Result, ok, err}

-- 24 hours, in nanoseconds.
abbrev pub check_interval : ℕ
check_interval = 86400000000000

-- `cache`: when the network was asked, and what it said.
pub record Cache : Type 0 where
  pub last_check : ℕ
  pub latest_tag : Text

-- An answer to the request: its status, and its body as far as it could be read.
pub record Response : Type 0 where
  pub status_code : ℕ
  pub body : Result Text

-- What the checker uses of `time`, `os`, `net/http` and `encoding/json`. A call that reads no file
-- and a text that is no JSON of the kind are `none` where the source drops the error.
pub record Machine (W : Type 0) : Type 0 where
  pub now : W → ℕ × W
  pub dir : Text → Text
  pub read_file : Text → W → Option Text × W
  pub mkdir_all : Text → W → Bool × W
  pub write_file : Text → Text → W → W
  pub parse_cache : Text → Option Cache
  pub print_cache : Cache → Option Text
  pub new_request : Text → Option GoError
  pub get : Text → W → Result Response × W
  pub parse_release : Text → Result Text

wrapping : Text → GoError → GoError
wrapping prefix e = wrapped (concat (prefix ∷ txt ": " ∷ error_text e ∷ [])) e

module _ {W : Type 0} (m : Machine W) (base_url cache_path : Text) where
  parsed_file : Option Text × W → Option Cache × W
  parsed_file (none, w) = (none, w)
  parsed_file (some b, w) = (m.parse_cache b, w)

  -- `readCache`
  unfoldable pub read_cache : W → Option Cache × W
  unfolding parsed_file
  read_cache w = if text_eq cache_path [] then (none, w) else parsed_file (m.read_file cache_path w)

  printed : Option Text → W → W
  printed none w = w
  printed (some b) w = m.write_file cache_path b w

  -- `writeCache`
  unfoldable pub write_cache : Cache → W → W
  unfolding printed
  write_cache c w =
      let (made, v) = m.mkdir_all (m.dir cache_path) w in
      if text_eq cache_path [] then w else if made then printed (m.print_cache c) v else v

  tag_of : Result Text → Result Text
  unfolding wrapping
  tag_of (err e) = err (wrapping (txt "parsing update-check response") e)
  tag_of (ok tag) =
      if text_eq (trim_space tag) []
      then err (plain (txt "update check: empty tag_name"))
      else ok tag

  body_tag : Result Text → Result Text
  unfolding wrapping tag_of
  body_tag (err e) = err (wrapping (txt "reading update-check response") e)
  body_tag (ok body) = tag_of (m.parse_release body)

  unfoldable pub response_tag : Result Response → Result Text
  unfolding wrapping body_tag
  response_tag (err e) = err (wrapping (txt "fetching latest release") e)
  response_tag (ok r) =
      if r.status_code == 200
      then body_tag r.body
      else err
          (plain (concat (txt "update check: unexpected status " ∷ format_nat r.status_code ∷ [])))

  -- `fetchLatest`
  unfoldable pub fetch_latest : W → Result Text × W
  unfolding wrapping response_tag
  fetch_latest w = elim (m.new_request base_url) [
    | some e ↦ (err (wrapping (txt "building update-check request") e), w)
    | none ↦ let (r, v) = m.get base_url w in (response_tag r, v)
  ]

  -- The time between the check and now is below the interval.
  unfoldable pub is_recent : Cache → (time : ℕ) → Bool
  is_recent c time = ltb time (c.last_check + check_interval)

  -- What is left where the network has not answered.
  or_cached : Option Cache → GoError → Result Text
  or_cached none e = err e
  or_cached (some c) e = ok c.latest_tag

  unfoldable pub after_fetch : Option Cache → Result Text × W → Result Text × W
  unfolding or_cached
  after_fetch cached (err e, w) = (or_cached cached e, w)
  after_fetch cached (ok tag, w) =
      let (time, v) = m.now w in
      (ok tag, write_cache (record { last_check = time; latest_tag = tag }) v)

  unfoldable pub with_cache : Option Cache → W → Result Text × W
  unfolding is_recent after_fetch
  with_cache none w = after_fetch none (fetch_latest w)
  with_cache (some c) w =
      let (time, v) = m.now w in
      if is_recent c time then (ok c.latest_tag, v) else after_fetch (some c) (fetch_latest v)

  -- `LatestTag`
  unfoldable pub latest_tag : W → Result Text × W
  unfolding with_cache
  latest_tag w = let (cached, v) = read_cache w in with_cache cached v

  -- One check of the command behind the other, as many as there are.
  unfoldable pub checks : (times : ℕ) → W → W
  unfolding latest_tag
  checks zero w = w
  checks (suc times) w = checks times (latest_tag w).1
