-- ===== src/Upgrade/Engine/Completion.antt =====
-- `Execute` succeeds exactly where every phase with pending steps was confirmed and has run.
use mathlib.Core.Path.{subst}
use mathlib.Core.List.{append_assoc, append-nil}
use refresh.Prelude.{
  ◌≡◌, refl, sym, ap, ◌∙◌, ◌↔◌, inl, inr, true, false, List, [], ◌∷◌, ◌++◌, Bool-cases,
}
use refresh.Text.{Text}
use refresh.Go.{Outcome, returned, failed, unfinished}
use refresh.Common.Retry.{Env}
use refresh.Upgrade.Types.{Plan, is_plan_blocked, is_nil}
use refresh.Upgrade.Engine.{
  Executors, ExecuteOptions, Phase, pending_labels, phases, Consent, agreed, declined, no_prompt,
  ask, only_completed, Execution, after_run, after_consent, execute_from, execute,
}
use refresh.Upgrade.Engine.Accounting.{
  execute-free, execute_from-idle, execute_from-busy, pending_labels-busy, pending_labels-idle,
}

-- The worlds that a run of all phases goes through: a phase with no pending step is passed over,
-- and any other is confirmed first and then run to its end.
pub data Completes {W : Type 0} (opts : ExecuteOptions W) : List (Phase W) → W → W → Type 0 where
  finished : {w : W} → Completes opts [] w w
  skipped :
      {ph : Phase W} {rest : List (Phase W)} {w v : W}
      → is_nil ph.steps ≡ true
      → Completes opts rest w v
      → Completes opts (ph ∷ rest) w v
  ran :
      {ph : Phase W} {rest : List (Phase W)} {w u v x : W}
      → is_nil ph.steps ≡ false
      → ask opts ph.label w ≡ (agreed, u)
      → ph.run u ≡ (returned tt, v)
      → Completes opts rest v x
      → Completes opts (ph ∷ rest) w x

module _ {W : Type 0} (env : Env W) (opts : ExecuteOptions W) where
  after_run-returned :
      (done : List Text) (ph : Phase W) (rest : List (Phase W)) (continue : W → Execution W)
      (r : Outcome Unit × W)
      → (after_run env opts done ph rest continue r).1 ≡ returned tt
      → (v : W) × (r ≡ (returned tt, v)) × (after_run env opts done ph rest continue r ≡ continue v)
  unfolding after_run
  after_run-returned done ph rest continue (returned tt, v) h = (v, refl, refl)
  after_run-returned done ph rest continue (failed e, v) h = cc
  after_run-returned done ph rest continue (unfinished, v) h = cc

  after_consent-returned :
      (done : List Text) (ph : Phase W) (rest : List (Phase W)) (continue : W → Execution W)
      (c : Consent × W)
      → (after_consent env opts done ph rest continue c).1 ≡ returned tt
      → (u v : W) × (c ≡ (agreed, u))
        × (ph.run u ≡ (returned tt, v))
        × (after_consent env opts done ph rest continue c ≡ continue v)
  unfolding after_consent
  after_consent-returned done ph rest continue (agreed, u) h =
      let (v, runs, on) = after_run-returned done ph rest continue (ph.run u) h in
      (u, v, refl, runs, on)
  after_consent-returned done ph rest continue (declined, u) h = cc
  after_consent-returned done ph rest continue (no_prompt, u) h = cc

  execute_from-Completes :
      (done : List Text) (phs : List (Phase W)) (w : W)
      → (execute_from env opts done phs w).1 ≡ returned tt
      → Completes opts phs w (execute_from env opts done phs w).2
  execute_from-Completes done [] w h = unfold execute_from in Completes.finished
  execute_from-Completes done (ph ∷ rest) w h = elim (Bool-cases (is_nil ph.steps)) [
    | inl idle ↦
        let same = execute_from-idle env opts done ph rest w idle in
        rw same (Completes.skipped idle (execute_from-Completes done rest w (rw same at h)))
    | inr busy ↦
        let same = execute_from-busy env opts done ph rest w busy in
        let (u, v, asked, runs, on) =
          after_consent-returned done ph rest
            (λ v. execute_from env opts (done ++ ph.label ∷ []) rest v) (ask opts ph.label w)
            (rw same at h) in
        rw (same ∙ on) (
          Completes.ran busy asked runs
            (execute_from-Completes (done ++ ph.label ∷ []) rest v (rw (same ∙ on) at h)))
  ]

  Completes-execute_from :
      (done : List Text) {phs : List (Phase W)} {w x : W}
      → Completes opts phs w x
      → execute_from env opts done phs w
        ≡ (only_completed (done ++ pending_labels phs), returned tt, x)
  unfolding after_consent
  Completes-execute_from done {w = w} Completes.finished =
      unfold execute_from pending_labels in
      ap (λ l. (only_completed l, returned tt, w)) (sym (append-nil done))
  Completes-execute_from done (Completes.skipped {ph = ph} {rest = rest} {w = w} idle c) =
      execute_from-idle env opts done ph rest w idle
      ∙ rw (pending_labels-idle env opts ph rest idle) (Completes-execute_from done c)
  Completes-execute_from done
        (Completes.ran {ph = ph} {rest = rest} {w = w} {u = u} {v = v} {x = x} busy asked runs c) =
      execute_from-busy env opts done ph rest w busy
      ∙ rw asked (
          rw runs (
            rw (pending_labels-busy env opts ph rest busy) (
              Completes-execute_from (done ++ ph.label ∷ []) c
              ∙ ap (λ l. (only_completed l, returned tt, x))
                  (append_assoc done (ph.label ∷ []) (pending_labels rest)))))

-- A plan that is not blocked is executed to its end exactly where every phase with pending steps is
-- confirmed and then runs to its end, in order; the report names then all those phases as completed.
pub execute-Completes :
    {W : Type 0} (env : Env W) (exec : Executors W) (opts : ExecuteOptions W) (plan : Plan)
    (w x : W)
    → is_plan_blocked plan ≡ false
    → ((execute env exec opts plan w)
        ≡ (only_completed (pending_labels (phases exec plan)), returned tt, x))
      ↔ Completes opts (phases exec plan) w x
execute-Completes env exec opts plan w x free =
    let same = execute-free env exec opts plan w free in
    (
      λ e.
          let runs = sym same ∙ e in
          subst (Completes opts (phases exec plan) w) (ap (λ y. y.2) runs)
            (execute_from-Completes env opts [] (phases exec plan) w (ap (λ y. y.1) runs)),
      λ c. same ∙ Completes-execute_from env opts [] c,
    )
