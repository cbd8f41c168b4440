-- ===== src/Upgrade/Engine.antt =====
-- internal/services/upgrade/engine.go: the phases of a plan, and their execution.
pub mod Accounting
pub mod Completion
pub mod Pending
use refresh.Prelude.{
  ℕ, zero, suc, ◌+◌, ◌≡◌, refl, Bool, true, false, not, ◌&&◌, List, [], ◌∷◌, ◌++◌, Option, none,
  some, if◌then◌else◌, length,
}
use refresh.Prelude.Int.{pos}
use refresh.Text.{Text, txt, concat, join}
use refresh.Text.Decimal.{format_nat, quote}
use refresh.Go.{
  GoError, aborted, plain, wrapped, error_text, M, Outcome, returned, failed, unfinished,
}
use refresh.Common.Retry.{Env}
use refresh.Upgrade.Types.{
  StepType, control_plane, addon, nodegroup, Step, Hop, Plan, is_pending, blockers, is_plan_blocked,
  is_nil,
}

-- The executors of the three kinds of phase: `UpgradeControlPlane` takes the cluster's name and the
-- target version, and so do `UpgradeAddons` and `UpgradeNodegroups`, with the options bound.
pub record Executors (W : Type 0) : Type 0 where
  pub upgrade_control_plane : Text → Text → M W Unit
  pub upgrade_addons : Text → Text → M W Unit
  pub upgrade_nodegroups : Text → Text → M W Unit

-- `Confirm` is `none` where no prompt is available.
pub record ExecuteOptions (W : Type 0) : Type 0 where
  pub yes_to_all : Bool
  pub confirm : Option (Text → W → Bool × W)

-- `failed_at` is `none` for the empty text.
pub record Report : Type 0 where
  pub completed : List Text
  pub failed_at : Option Text
  pub remaining : List Text

pub record Phase (W : Type 0) : Type 0 where
  pub label : Text
  pub steps : List Step
  pub run : M W Unit

-- The labels of the phases that have pending steps.
unfoldable pub pending_labels : {W : Type 0} → List (Phase W) → List Text
pending_labels [] = []
pending_labels (ph ∷ phs) =
    let rest = pending_labels phs in if is_nil ph.steps then rest else ph.label ∷ rest

abbrev pub is_type : StepType → StepType → Bool
is_type StepType.readiness StepType.readiness = true
is_type control_plane control_plane = true
is_type addon addon = true
is_type nodegroup nodegroup = true
is_type _ _ = false

-- The pending steps of one kind, in order.
unfoldable pub pending_of_type : StepType → List Step → List Step
pending_of_type t [] = []
pending_of_type t (s ∷ ss) =
    let rest = pending_of_type t ss in
    if is_pending s.status && is_type s.type t then s ∷ rest else rest

pub control_plane_label : Hop → Text
control_plane_label hop = concat (txt "control plane " ∷ hop.from ∷ txt " → " ∷ hop.to ∷ [])

pub addons_label : Hop → ℕ → Text
addons_label hop n = concat (
    txt "addons for " ∷ hop.to ∷ txt " (" ∷ format_nat n ∷ txt " update(s), dependency order)" ∷ [])

pub nodegroups_label : Hop → ℕ → Text
nodegroups_label hop n =
    concat
      (txt "nodegroup rolls to " ∷ hop.to ∷ txt " (" ∷ format_nat n ∷ txt " nodegroup(s))" ∷ [])

module _ {W : Type 0} (exec : Executors W) (cluster_name : Text) where
  unfoldable pub phases_of_hop : Hop → List (Phase W)
  unfolding control_plane_label addons_label nodegroups_label pending_of_type
  phases_of_hop hop =
      record {
        label = control_plane_label hop;
        steps = pending_of_type control_plane hop.steps;
        run = exec.upgrade_control_plane cluster_name hop.to;
      }
      ∷ record {
        label = addons_label hop (length (pending_of_type addon hop.steps));
        steps = pending_of_type addon hop.steps;
        run = exec.upgrade_addons cluster_name hop.to;
      }
      ∷ record {
        label = nodegroups_label hop (length (pending_of_type nodegroup hop.steps));
        steps = pending_of_type nodegroup hop.steps;
        run = exec.upgrade_nodegroups cluster_name hop.to;
      }
      ∷ []

  unfoldable pub phases_of_hops : List Hop → List (Phase W)
  unfolding phases_of_hop
  phases_of_hops [] = []
  phases_of_hops (hop ∷ hops) = phases_of_hop hop ++ phases_of_hops hops

-- `phases`
unfoldable pub phases : {W : Type 0} → Executors W → Plan → List (Phase W)
unfolding phases_of_hops
phases exec plan = phases_of_hops exec plan.cluster_name plan.hops

-- The answer to the confirmation of a phase.
pub data Consent : Type 0 where
  agreed declined no_prompt : Consent

unfoldable pub ask : {W : Type 0} → ExecuteOptions W → Text → W → Consent × W
ask opts label w = if opts.yes_to_all then (agreed, w) else elim opts.confirm [
  | none ↦ (no_prompt, w)
  | some confirm ↦ let (answer, v) = confirm label w in (if answer then agreed else declined, v)
]

unfoldable pub prompt_error : Text → GoError
prompt_error label = plain (
    concat (
      txt "confirmation required for "
      ∷ quote label
      ∷ txt " but no prompt available (use --yes for non-interactive runs)"
      ∷ []))

-- The error of a phase, behind what happened: an interruption or a failure.
unfoldable pub phase_error : Option GoError → Text → GoError → GoError
phase_error (some ctx) label e =
    wrapped
      (concat (
        txt "interrupted during "
        ∷ label
        ∷ txt " (in-flight EKS updates continue server-side; rerun the same command to resume): "
        ∷ error_text e
        ∷ []))
      e
phase_error none label e = wrapped (concat (label ∷ txt " failed: " ∷ error_text e ∷ [])) e

abbrev pub only_completed : List Text → Report
only_completed done = record { completed = done; failed_at = none; remaining = [] }

-- A report, and the error that `Execute` returns with it, if it returns one.
abbrev pub Execution : Type 0 → Type 0
Execution W = Report × Outcome Unit × W

module _ {W : Type 0} (env : Env W) (opts : ExecuteOptions W) where
  -- Behind the run of a phase: go on, or stop and report.
  unfoldable pub after_run :
      List Text → Phase W → List (Phase W) → (W → Execution W) → Outcome Unit × W → Execution W
  unfolding phase_error
  after_run done ph rest continue (returned _, w) = continue w
  after_run done ph rest continue (unfinished, w) = (only_completed done, unfinished, w)
  after_run done ph rest continue (failed e, w) = (
    record { completed = done; failed_at = some ph.label; remaining = pending_labels rest },
    failed (phase_error (env.ctx_err w) ph.label e),
    w,
  )

  -- Behind the confirmation of a phase.
  unfoldable pub after_consent :
      List Text → Phase W → List (Phase W) → (W → Execution W) → Consent × W → Execution W
  unfolding after_run prompt_error
  after_consent done ph rest continue (agreed, w) = after_run done ph rest continue (ph.run w)
  after_consent done ph rest continue (no_prompt, w) =
      (only_completed done, failed (prompt_error ph.label), w)
  after_consent done ph rest continue (declined, w) = (
    record { completed = done; failed_at = none; remaining = pending_labels (ph ∷ rest) },
    failed aborted,
    w,
  )

  -- The loop of `Execute`; `done` holds the labels of the phases that have completed.
  unfoldable pub execute_from : List Text → List (Phase W) → W → Execution W
  unfolding after_consent ask
  execute_from done [] w = (only_completed done, returned tt, w)
  execute_from done (ph ∷ rest) w =
      let skip = execute_from done rest w in
      let continue = λ (v : W). execute_from (done ++ ph.label ∷ []) rest v in
      elim (is_nil ph.steps) [
        | true ↦ skip
        | false ↦ after_consent done ph rest continue (ask opts ph.label w)
      ]

unfoldable pub join_lines : List Text → Text
join_lines = join (txt "\n  ")

unfoldable pub blocked_error : Plan → GoError
unfolding join_lines
blocked_error plan = plain (
    concat (
      txt "plan has unresolved blockers; refusing to execute:\n  "
      ∷ join_lines (blockers plan)
      ∷ []))

-- `Execute`
unfoldable pub execute :
    {W : Type 0} → Env W → Executors W → ExecuteOptions W → Plan → W → Execution W
unfolding execute_from blocked_error is_plan_blocked phases
execute env exec opts plan w = elim (is_plan_blocked plan) [
  | true ↦ (only_completed [], failed (blocked_error plan), w)
  | false ↦ execute_from env opts [] (phases exec plan) w
]
