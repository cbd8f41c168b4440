-- ===== src/Common/Retry/Bounds.antt =====
-- How often `WithRetry` calls, how long it asks to wait, and what it returns.
use refresh.Prelude.{ℕ, suc, ◌+◌, ◌*◌, ◌<◌, ◌≤◌, ◌≡◌, arith}
use refresh.Go.{M, Outcome}
use refresh.Common.Retry.{Env, RetryConfig, wait_time, effective, further_attempts, with_retry}
use refresh.Common.Retry.Rule.{Rule, retry_loop_ind}

-- The attempts that a configuration allows.
abbrev pub attempts : RetryConfig → ℕ
attempts cfg = suc (further_attempts (effective cfg))

wait_time_le :
    (cfg : RetryConfig) (backoff : ℕ)
    → 0 < cfg.max_backoff
    → wait_time cfg backoff ≤ cfg.max_backoff
wait_time_le cfg backoff h = ground arith

module _ {W A : Type 0} (env : Env W) (cfg : RetryConfig) (fn : M W A) where
  -- However the calls are counted, and as long as a sleep makes none, `WithRetry` makes no more of
  -- them than it has attempts.
  pub calls-le :
      (count : W → ℕ)
      → ((w : W) → count (fn w).1 ≤ count w + 1)
      → ((n : ℕ) (w : W) → count (env.sleep n w).1 ≡ count w)
      → (w : W) → count (with_retry env cfg fn w).1 ≤ count w + attempts cfg
  unfolding with_retry
  calls-le count one idle w =
      retry_loop_ind env (effective cfg) fn (λ left backoff v r. count r.1 ≤ count v + suc left)
        rule _ _ w
    where
      rule : Rule env (effective cfg) fn (λ left backoff v r. count r.1 ≤ count v + suc left)
      rule = record {
        stopped = λ left backoff v e p. omega arith;
        last = λ backoff v p. omega (arith, one v);
        final = λ left backoff v p f. omega (arith, one v);
        interrupted = λ left backoff v e p.
            omega (arith, one v, idle (wait_time (effective cfg) backoff) (fn v).1);
        again = λ left backoff v r ih.
            omega (arith, one v, idle (wait_time (effective cfg) backoff) (fn v).1, ih);
      }

  -- Where the times that are handed to the sleep are added up, and the calls add none, `WithRetry`
  -- asks for no more time than the largest backoff for each attempt behind the first one, if there
  -- is a largest one.
  pub slept-le :
      (slept : W → ℕ)
      → 0 < (effective cfg).max_backoff
      → ((w : W) → slept (fn w).1 ≡ slept w)
      → ((n : ℕ) (w : W) → slept (env.sleep n w).1 ≡ slept w + n)
      → (w : W)
      → slept (with_retry env cfg fn w).1
        ≤ slept w + further_attempts (effective cfg) * (effective cfg).max_backoff
  unfolding with_retry
  slept-le slept capped idle adds w = retry_loop_ind env (effective cfg) fn Bounded rule _ _ w
    where
      Bounded : ℕ → ℕ → W → Outcome A × W → Type 0
      Bounded left backoff v r = slept r.1 ≤ slept v + left * (effective cfg).max_backoff

      rule : Rule env (effective cfg) fn Bounded
      rule = record {
        stopped = λ left backoff v e p. omega arith;
        last = λ backoff v p. omega (arith, idle v);
        final = λ left backoff v p f. omega (arith, idle v);
        interrupted = λ left backoff v e p. omega (
          arith,
          idle v,
          adds (wait_time (effective cfg) backoff) (fn v).1,
          wait_time_le (effective cfg) backoff capped,
        );
        again = λ left backoff v r ih. omega (
          arith,
          idle v,
          adds (wait_time (effective cfg) backoff) (fn v).1,
          ih,
          wait_time_le (effective cfg) backoff capped,
        );
      }
