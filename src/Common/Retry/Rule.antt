-- ===== src/Common/Retry/Rule.antt =====
-- A proof rule for the loop of `WithRetry`.
use refresh.Prelude.{
  ℕ, zero, suc, ◌≡◌, refl, inl, inr, false, Option, none, some, Option-cases, Bool-cases,
}
use refresh.Go.{GoError, M, Outcome, failed, Outcome-cases}
use refresh.Common.Retry.{
  Env, RetryConfig, should_retry, wait_time, next_backoff, resume, retry_loop,
}

-- The call's result is not worth a retry.
abbrev pub IsFinal : {A : Type 0} → Outcome A → Type 0
IsFinal r = (e : GoError) → r ≡ failed e → should_retry e ≡ false

-- What to show of a relation between a start of the loop and its end.
pub record Rule {W A : Type 0} (env : Env W) (cfg : RetryConfig) (fn : M W A)
    (Q : (left backoff : ℕ) → W → Outcome A × W → Type 0) : Type 0 where
  pub stopped :
      (left backoff : ℕ) (w : W) (e : GoError)
      → env.ctx_err w ≡ some e
      → Q left backoff w (failed e, w)
  pub last : (backoff : ℕ) (w : W) → env.ctx_err w ≡ none → Q zero backoff w (fn w)
  pub final :
      (left backoff : ℕ) (w : W)
      → env.ctx_err w ≡ none
      → IsFinal (fn w).0
      → Q (suc left) backoff w (fn w)
  pub interrupted :
      (left backoff : ℕ) (w : W) (e : GoError)
      → (env.sleep (wait_time cfg backoff) (fn w).1).0 ≡ some e
      → Q (suc left) backoff w (failed e, (env.sleep (wait_time cfg backoff) (fn w).1).1)
  pub again :
      (left backoff : ℕ) (w : W) (r : Outcome A × W)
      → Q left (next_backoff cfg backoff) (env.sleep (wait_time cfg backoff) (fn w).1).1 r
      → Q (suc left) backoff w r

module _ {W A : Type 0} (env : Env W) (cfg : RetryConfig) (fn : M W A)
    (Q : (left backoff : ℕ) → W → Outcome A × W → Type 0) (rule : Rule env cfg fn Q) where
  resume_ind :
      (left backoff : ℕ) (w : W) (again : M W A) (p : Option GoError × W)
      → ((e : GoError) → p.0 ≡ some e → Q (suc left) backoff w (failed e, p.1))
      → Q (suc left) backoff w (again p.1)
      → Q (suc left) backoff w (resume env cfg fn again p)
  resume_ind left backoff w again (some e, v) stop go = stop e refl
  resume_ind left backoff w again (none, v) stop go = go

  pub retry_loop_ind :
      (left backoff : ℕ) (w : W) → Q left backoff w (retry_loop env cfg fn left backoff w)
  unfolding retry_loop
  retry_loop_ind zero backoff w = elim (Option-cases (env.ctx_err w)) [
    | inr (e, p) ↦ rw (p, retry_loop) (rule.stopped zero backoff w e p)
    | inl p ↦ rw (p, retry_loop) (rule.last backoff w p)
  ]
  retry_loop_ind (suc left) backoff w =
      let next =
        resume_ind left backoff w (λ v. retry_loop env cfg fn left (next_backoff cfg backoff) v)
          (env.sleep (wait_time cfg backoff) (fn w).1) (rule.interrupted left backoff w)
          (rule.again left backoff w _ (retry_loop_ind left (next_backoff cfg backoff) _)) in
      elim (Option-cases (env.ctx_err w)) [
        | inr (e, p) ↦ rw (p, retry_loop) (rule.stopped (suc left) backoff w e p)
        | inl p ↦ elim (Outcome-cases (fn w).0) [
          | inl (a, q) ↦ rw (p, q, retry_loop) (rule.final left backoff w p (λ e h. cc))
          | inr (inr q) ↦ rw (p, q, retry_loop) (rule.final left backoff w p (λ e h. cc))
          | inr (inl (e, q)) ↦ elim (Bool-cases (should_retry e)) [
            | inl yes_retry ↦ rw (p, q, yes_retry, retry_loop) next
            | inr no_retry ↦
                rw (p, q, no_retry, retry_loop) (rule.final left backoff w p (λ x h. cc))
          ]
        ]
      ]
