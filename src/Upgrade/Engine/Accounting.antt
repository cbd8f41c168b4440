-- ===== src/Upgrade/Engine/Accounting.antt =====
-- The report of `Execute` accounts for every phase that has pending steps.
use mathlib.Core.Path.{subst}
use mathlib.Core.List.{append_assoc}
use refresh.Prelude.{
  ◌≡◌, refl, sym, ap, ◌∙◌, ◌≢◌, ◌⊎◌, inl, inr, true, false, List, [], ◌∷◌, ◌++◌, none, some, arith,
  Bool-cases,
}
use refresh.Text.{Text}
use refresh.Go.{Outcome, returned, failed, unfinished}
use refresh.Common.Retry.{Env}
use refresh.Upgrade.Types.{Plan, is_plan_blocked, is_nil}
use refresh.Upgrade.Engine.{
  Executors, ExecuteOptions, Report, Phase, pending_labels, phases, Consent, agreed, declined,
  no_prompt, ask, Execution, after_run, after_consent, execute_from, execute,
}

-- What a report names: the completed phases, the one that failed, and those that remain.
abbrev pub accounted : Report → List Text
accounted r =
    r.completed ++ (elim r.failed_at [ none ↦ r.remaining | some label ↦ label ∷ r.remaining ])

-- A phase can be confirmed: by `--yes`, or by a prompt.
abbrev pub CanAsk : {W : Type 0} → ExecuteOptions W → Type 0
CanAsk opts = (opts.yes_to_all ≡ true) ⊎ (opts.confirm ≢ none)

module _ {W : Type 0} (env : Env W) (opts : ExecuteOptions W) where
  abbrev Accounts : List Text → List (Phase W) → Execution W → Type 0
  Accounts done phs x = x.1 ≢ unfinished → accounted x.0 ≡ done ++ pending_labels phs

  ask-ne-no_prompt : CanAsk opts → (label : Text) (w : W) → (ask opts label w).0 ≢ no_prompt
  unfolding ask
  ask-ne-no_prompt can label w = ground arith

  pub pending_labels-busy :
      (ph : Phase W) (rest : List (Phase W))
      → is_nil ph.steps ≡ false
      → pending_labels (ph ∷ rest) ≡ ph.label ∷ pending_labels rest
  unfolding pending_labels
  pending_labels-busy ph rest h = rw (h, pending_labels)

  pub pending_labels-idle :
      (ph : Phase W) (rest : List (Phase W))
      → is_nil ph.steps ≡ true
      → pending_labels (ph ∷ rest) ≡ pending_labels rest
  unfolding pending_labels
  pending_labels-idle ph rest h = rw (h, pending_labels)

  module _ (done : List Text) (ph : Phase W) (rest : List (Phase W)) (continue : W → Execution W)
      (busy : is_nil ph.steps ≡ false)
      (goes_on : (v : W) → Accounts (done ++ ph.label ∷ []) rest (continue v)) where
    after_run-Accounts :
        (r : Outcome Unit × W)
        → Accounts done (ph ∷ rest) (after_run env opts done ph rest continue r)
    unfolding after_run
    after_run-Accounts (returned u, w) end =
        goes_on w end
        ∙ append_assoc done (ph.label ∷ []) (pending_labels rest)
        ∙ ap (λ l. done ++ l) (sym (pending_labels-busy ph rest busy))
    after_run-Accounts (failed e, w) end =
        ap (λ l. done ++ l) (sym (pending_labels-busy ph rest busy))
    after_run-Accounts (unfinished, w) end = absurd (end refl)

    after_consent-Accounts :
        (c : Consent × W)
        → c.0 ≢ no_prompt
        → Accounts done (ph ∷ rest) (after_consent env opts done ph rest continue c)
    unfolding after_consent
    after_consent-Accounts (agreed, w) ne = after_run-Accounts (ph.run w)
    after_consent-Accounts (declined, w) ne = λ end. refl
    after_consent-Accounts (no_prompt, w) ne = absurd (ne refl)

  pub execute_from-idle :
      (done : List Text) (ph : Phase W) (rest : List (Phase W)) (w : W)
      → is_nil ph.steps ≡ true
      → execute_from env opts done (ph ∷ rest) w ≡ execute_from env opts done rest w
  unfolding execute_from
  execute_from-idle done ph rest w h = rw (h, execute_from)

  pub execute_from-busy :
      (done : List Text) (ph : Phase W) (rest : List (Phase W)) (w : W)
      → is_nil ph.steps ≡ false
      → execute_from env opts done (ph ∷ rest) w
        ≡ after_consent env opts done ph rest
            (λ v. execute_from env opts (done ++ ph.label ∷ []) rest v)
            (ask opts ph.label w)
  unfolding execute_from
  execute_from-busy done ph rest w h = rw (h, execute_from)

  execute_from-Accounts :
      CanAsk opts
      → (done : List Text) (phs : List (Phase W)) (w : W)
      → Accounts done phs (execute_from env opts done phs w)
  execute_from-Accounts can done [] w = unfold execute_from pending_labels in λ end. refl
  execute_from-Accounts can done (ph ∷ rest) w = elim (Bool-cases (is_nil ph.steps)) [
    | inl idle ↦
        subst (Accounts done (ph ∷ rest)) (sym (execute_from-idle done ph rest w idle)) (λ end.
          execute_from-Accounts can done rest w end
          ∙ ap (λ l. done ++ l) (sym (pending_labels-idle ph rest idle)))
    | inr busy ↦ subst (Accounts done (ph ∷ rest)) (sym (execute_from-busy done ph rest w busy)) (
        after_consent-Accounts done ph rest
          (λ v. execute_from env opts (done ++ ph.label ∷ []) rest v) busy
          (λ v. execute_from-Accounts can (done ++ ph.label ∷ []) rest v) (ask opts ph.label w)
          (ask-ne-no_prompt can ph.label w))
  ]

pub execute-free :
    {W : Type 0} (env : Env W) (exec : Executors W) (opts : ExecuteOptions W) (plan : Plan) (w : W)
    → is_plan_blocked plan ≡ false
    → execute env exec opts plan w ≡ execute_from env opts [] (phases exec plan) w
unfolding execute
execute-free env exec opts plan w free = rw (free, execute)

-- Where the plan is not blocked and phases can be confirmed, the report of a run that ends names
-- every phase with pending steps once and in order: the completed ones, then the failed one if one
-- failed, then the remaining ones.
pub execute_accounts :
    {W : Type 0} (env : Env W) (exec : Executors W) (opts : ExecuteOptions W) (plan : Plan) (w : W)
    → is_plan_blocked plan ≡ false
    → CanAsk opts
    → (execute env exec opts plan w).1 ≢ unfinished
    → accounted (execute env exec opts plan w).0 ≡ pending_labels (phases exec plan)
execute_accounts env exec opts plan w free can =
    subst (λ x. x.1 ≢ unfinished → accounted x.0 ≡ pending_labels (phases exec plan))
      (sym (execute-free env exec opts plan w free))
      (execute_from-Accounts env opts can [] (phases exec plan) w)
