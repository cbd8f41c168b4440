-- ===== src/Tests/Retry.antt =====
-- `WithRetry` over a call that is throttled a number of times before it succeeds.
use refresh.Prelude.{ℕ, zero, suc, ◌+◌, ◌≤◌, ◌≡◌, refl, false, none, arith}
use refresh.Text.{txt}
use refresh.Go.{GoError, api_error, M, Outcome, returned, failed}
use refresh.Common.Retry.{
  Env, default_retry_config, should_retry, retryable_error_codes, with_retry, member,
}
use refresh.Common.Retry.Bounds.{calls-le, slept-le}
use refresh.Common.Retry.Origin.{Origin, with_retry-Origin}

-- The times that were slept together, the calls that were made, and the calls that are still throttled.
record Server : Type 0 where
  slept : ℕ
  calls : ℕ
  throttled : ℕ

abbrev patient : Env Server
patient = record { ctx_err = λ w. none; sleep = λ n w. (none, record w { slept = w.slept + n }) }

abbrev throttling : GoError
throttling =
    api_error (txt "ThrottlingException") false (txt "slow down") (txt "throttled: slow down")

abbrev answer : ℕ → Server → Outcome ℕ × Server
answer zero w = (returned 7, record w { calls = w.calls + 1 })
answer (suc n) w = (failed throttling, record w { calls = w.calls + 1; throttled = n })

abbrev describe : M Server ℕ
describe w = answer w.throttled w

abbrev server : ℕ → Server
server n = record { slept = 0; calls = 0; throttled = n }

third_time :
    with_retry patient default_retry_config describe (server 2)
    ≡ (returned 7, record { slept = 600000000; calls = 3; throttled = 0 })
unfolding with_retry should_retry member retryable_error_codes
third_time = refl

given_up :
    with_retry patient default_retry_config describe (server 9)
    ≡ (failed throttling, record { slept = 3000000000; calls = 5; throttled = 4 })
unfolding with_retry should_retry member retryable_error_codes
given_up = refl

one_call : (w : Server) → (describe w).1.calls ≡ w.calls + 1
one_call w = ground arith

no_sleep : (w : Server) → (describe w).1.slept ≡ w.slept
no_sleep w = ground arith

calls-le_example : (with_retry patient default_retry_config describe (server 9)).1.calls ≤ 5
calls-le_example =
    calls-le patient default_retry_config describe (λ w. w.calls) (λ w. omega (arith, one_call w))
      (λ n w. refl) (server 9)

slept-le_example :
    (with_retry patient default_retry_config describe (server 9)).1.slept ≤ 20000000000
slept-le_example =
    slept-le patient default_retry_config describe (λ w. w.slept) (omega arith) no_sleep
      (λ n w. refl) (server 9)

with_retry-Origin_example :
    Origin patient describe
      (λ v. v.calls ≡ 5)
      (with_retry patient default_retry_config describe (server 9))
with_retry-Origin_example =
    with_retry-Origin patient default_retry_config describe (λ w. w.calls) one_call (λ n w. refl)
      (server 9)
