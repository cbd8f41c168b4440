-- ===== src/Common/Retry.antt =====
-- internal/services/common/retry.go: which errors are worth a retry, and the loop that retries.
pub mod Rule
pub mod Bounds
pub mod Origin
use refresh.Prelude.{
  ℕ, zero, suc, ◌+◌, ◌-◌, ◌*◌, ◌≡◌, refl, Bool, true, false, not, ◌&&◌, ◌||◌, List, [], ◌∷◌, ◌++◌,
  Option, none, some, arith, leb, ltb, ◌==◌, if◌then◌else◌, length, drop,
}
use refresh.Prelude.Int.{ℤ, pos, negsuc}
use refresh.Text.{Text, txt, text_eq}
use refresh.Go.{
  GoError, canceled, deadline_exceeded, aborted, api_error, plain, wrapped, error_text, M, Outcome,
  returned, failed, unfinished, pure, throw, ◌>>=◌,
}

-- The context and the clock. `ctx_err` is what `ctx.Err()` reports; `sleep` waits for the given
-- nanoseconds or for the end of the context, and gives the context's error in the second case.
pub record Env (W : Type 0) : Type 0 where
  pub ctx_err : W → Option GoError
  pub sleep : ℕ → W → Option GoError × W

-- Durations are in nanoseconds. The multiplier, a `float64` in the source, is a whole number here:
-- the one value that the program uses is 2.0, by which the product is exact.
pub record RetryConfig : Type 0 where
  pub max_attempts : ℤ
  pub initial_backoff : ℕ
  pub max_backoff : ℕ
  pub backoff_multiplier : ℕ

abbrev pub default_retry_config : RetryConfig
default_retry_config = record {
  max_attempts = pos 5;
  initial_backoff = 200000000;
  max_backoff = 5000000000;
  backoff_multiplier = 2;
}

-- Is the text among those of the table?
unfoldable pub member : Text → List Text → Bool
unfolding text_eq
member s [] = false
member s (t ∷ ts) = text_eq s t || member s ts

unfoldable pub retryable_error_codes : List Text
retryable_error_codes =
    txt "ThrottlingException"
    ∷ txt "Throttling"
    ∷ txt "TooManyRequestsException"
    ∷ txt "RequestLimitExceeded"
    ∷ txt "RequestThrottled"
    ∷ txt "RequestThrottledException"
    ∷ txt "SlowDown"
    ∷ txt "PriorRequestNotComplete"
    ∷ txt "ServiceUnavailableException"
    ∷ txt "InternalServerException"
    ∷ txt "InternalFailure"
    ∷ txt "ServerException"
    ∷ []

unfoldable pub fold_ascii : ℕ → ℕ
fold_ascii c = if leb b'A' c && leb c b'Z' then c + 32 else c

-- The inner loop of `indexFold`: do the first characters agree, whatever their case?
unfoldable pub match_fold : Text → Text → Bool
unfolding fold_ascii
match_fold haystack [] = true
match_fold [] (n ∷ needle) = false
match_fold (h ∷ haystack) (n ∷ needle) = fold_ascii h == fold_ascii n && match_fold haystack needle

-- The outer loop of `indexFold`, from index `i` on, over the rest of the haystack.
unfoldable pub index_fold_from : ℕ → Text → Text → Option ℕ
unfolding match_fold
index_fold_from i [] needle = if match_fold [] needle then some i else none
index_fold_from i (h ∷ haystack) needle =
    let rest = index_fold_from (i + 1) haystack needle in
    if match_fold (h ∷ haystack) needle then some i else rest

-- `none` is the source's -1.
unfoldable pub index_fold : Text → Text → Option ℕ
unfolding index_fold_from
index_fold haystack needle =
    if length needle == 0 || ltb (length haystack) (length needle)
    then none
    else index_fold_from 0 haystack needle

abbrev is_found : Option ℕ → Bool
is_found none = false
is_found (some i) = true

unfoldable pub contains_any_fold : Text → List Text → Bool
unfolding index_fold
contains_any_fold haystack [] = false
contains_any_fold haystack (n ∷ needles) =
    not (length n == 0) && is_found (index_fold haystack n) || contains_any_fold haystack needles

unfoldable pub transient_texts : List Text
transient_texts =
    txt "throttl"
    ∷ txt "rate exceeded"
    ∷ txt "timeout"
    ∷ txt "temporarily unavailable"
    ∷ txt "connection reset"
    ∷ []

-- `errors.Is(err, context.DeadlineExceeded) || errors.Is(err, context.Canceled)`
unfoldable pub is_context_error : GoError → Bool
is_context_error canceled = true
is_context_error deadline_exceeded = true
is_context_error (wrapped text e) = is_context_error e
is_context_error _ = false

-- `errors.As(err, &ae)`: the error's code, its fault, and its message.
pub record ApiError : Type 0 where
  pub code : Text
  pub server_fault : Bool
  pub message : Text

unfoldable pub as_api_error : GoError → Option ApiError
as_api_error (api_error code server_fault message text) =
    some (record { code = code; server_fault = server_fault; message = message })
as_api_error (wrapped text e) = as_api_error e
as_api_error _ = none

unfoldable pub should_retry : GoError → Bool
unfolding is_context_error as_api_error
should_retry e = if is_context_error e then false else elim (as_api_error e) [
  | some ae ↦ member ae.code retryable_error_codes || ae.server_fault
  | none ↦ contains_any_fold (error_text e) transient_texts
]

abbrev pub wait_time : RetryConfig → ℕ → ℕ
wait_time cfg backoff =
    if ltb cfg.max_backoff backoff && ltb 0 cfg.max_backoff then cfg.max_backoff else backoff

-- The product is that of the source as long as it is no more than a `Duration` can hold, which it
-- is for the first 35 waits of the default configuration.
abbrev pub next_backoff : RetryConfig → ℕ → ℕ
next_backoff cfg backoff =
    if ltb 1 cfg.backoff_multiplier then backoff * cfg.backoff_multiplier else backoff

module _ {W A : Type 0} (env : Env W) (cfg : RetryConfig) (fn : M W A) where
  -- What follows the wait: the context's error, or the next attempt.
  abbrev resume : M W A → Option GoError × W → Outcome A × W
  resume again (some e, w) = (failed e, w)
  resume again (none, w) = again w

  -- The loop of `WithRetry`: `left` attempts may follow the one that is made now.
  unfoldable pub retry_loop : (left backoff : ℕ) → M W A
  retry_loop zero backoff w = elim (env.ctx_err w) [ some e ↦ (failed e, w) | none ↦ fn w ]
  retry_loop (suc left) backoff w =
      let again = λ (v : W). retry_loop left (next_backoff cfg backoff) v in
      elim (env.ctx_err w) [
        | some e ↦ (failed e, w)
        | none ↦ elim (fn w).0 [
          | failed e ↦
              if not (should_retry e)
              then fn w
              else resume again (env.sleep (wait_time cfg backoff) (fn w).1)
          | _ ↦ fn w
        ]
      ]

-- A configuration with no attempt is replaced by the default one.
abbrev effective : RetryConfig → RetryConfig
effective cfg = elim cfg.max_attempts [ pos (suc n) ↦ cfg | _ ↦ default_retry_config ]

-- The attempts after the first one.
abbrev further_attempts : RetryConfig → ℕ
further_attempts cfg = elim cfg.max_attempts [ pos (suc n) ↦ n | _ ↦ 0 ]

unfoldable pub with_retry : {W A : Type 0} → Env W → RetryConfig → M W A → M W A
unfolding retry_loop
with_retry env cfg fn =
    let used = effective cfg in retry_loop env used fn (further_attempts used) used.initial_backoff
