-- ===== src/Common/Retry/Origin.antt =====
-- Where the result of `WithRetry` comes from.
use refresh.Prelude.{ℕ, suc, ◌+◌, ◌≡◌, refl, some, arith}
use refresh.Go.{GoError, M, Outcome, failed}
use refresh.Common.Retry.{Env, RetryConfig, wait_time, effective, with_retry}
use refresh.Common.Retry.Rule.{IsFinal, Rule, retry_loop_ind}
use refresh.Common.Retry.Bounds.{attempts}

-- A result comes from a call that is not worth a retry, from the last attempt, or from the context,
-- before a call or during a wait.
pub data Origin {W A : Type 0} (env : Env W) (fn : M W A) (IsLastAttempt : W → Type 0)
    (r : Outcome A × W) : Type 0 where
  decided : (v : W) → fn v ≡ r → IsFinal r.0 → Origin env fn IsLastAttempt r
  exhausted : (v : W) → fn v ≡ r → IsLastAttempt r.1 → Origin env fn IsLastAttempt r
  stopped :
      (e : GoError) → env.ctx_err r.1 ≡ some e → r.0 ≡ failed e → Origin env fn IsLastAttempt r
  interrupted :
      (e : GoError) (n : ℕ) (v : W)
      → (env.sleep n v).0 ≡ some e
      → (env.sleep n v).1 ≡ r.1
      → r.0 ≡ failed e
      → Origin env fn IsLastAttempt r

module _ {W A : Type 0} (env : Env W) (cfg : RetryConfig) (fn : M W A) (count : W → ℕ)
    (one : (w : W) → count (fn w).1 ≡ count w + 1)
    (idle : (n : ℕ) (w : W) → count (env.sleep n w).1 ≡ count w) where
  abbrev Ends : ℕ → (left backoff : ℕ) → W → Outcome A × W → Type 0
  Ends total left backoff v r = count v + suc left ≡ total → Origin env fn (λ w. count w ≡ total) r

  rule : (total : ℕ) → Rule env (effective cfg) fn (Ends total)
  rule total = record {
    stopped = λ left backoff v e p h. Origin.stopped e p refl;
    last = λ backoff v p h. Origin.exhausted v refl (omega (arith, one v));
    final = λ left backoff v p f h. Origin.decided v refl f;
    interrupted = λ left backoff v e p h.
        Origin.interrupted e (wait_time (effective cfg) backoff) (fn v).1 p refl refl;
    again = λ left backoff v r ih h.
        ih (omega (arith, one v, idle (wait_time (effective cfg) backoff) (fn v).1));
  }

  -- Where calls are counted, a result of `WithRetry` is that of a call which is not worth a retry,
  -- that of a call after which all the attempts were made, or the error of the context.
  pub with_retry-Origin :
      (w : W) → Origin env fn (λ v. count v ≡ count w + attempts cfg) (with_retry env cfg fn w)
  unfolding with_retry
  with_retry-Origin w =
      retry_loop_ind env (effective cfg) fn (Ends (count w + attempts cfg)) (rule _) _ _ w refl
