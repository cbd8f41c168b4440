-- ===== src/Upgrade/Engine/Pending.antt =====
-- The phases hold the steps that `PendingSteps` counts; a plan with none of them runs nothing.
use refresh.Prelude.{ℕ, ◌+◌, ◌≡◌, refl, ◌∙◌, false, List, [], ◌∷◌, arith, length}
use refresh.Text.{Text}
use refresh.Go.{returned}
use refresh.Common.Retry.{Env}
use refresh.Upgrade.Types.{
  control_plane, addon, nodegroup, Step, Hop, Plan, is_plan_blocked, pending_of, pending_in,
  pending_steps,
}
use refresh.Upgrade.Engine.{
  Executors, ExecuteOptions, Phase, pending_of_type, phases_of_hop, phases_of_hops, phases,
  only_completed, execute_from, execute,
}
use refresh.Upgrade.Engine.Accounting.{execute-free, execute_from-idle}

-- The steps of all phases together.
abbrev steps_in : {W : Type 0} → List (Phase W) → ℕ
steps_in [] = 0
steps_in (ph ∷ phs) = length ph.steps + steps_in phs

-- Each pending step but a readiness check is of exactly one of the three kinds.
pending_of-types :
    (ss : List Step)
    → length (pending_of_type control_plane ss)
        + length (pending_of_type addon ss)
        + length (pending_of_type nodegroup ss)
      ≡ pending_of ss
unfolding pending_of_type pending_of
pending_of-types [] = refl
pending_of-types (s ∷ ss) = ground (arith, pending_of-types ss)

steps_in-phases_of_hops :
    {W : Type 0} (exec : Executors W) (name : Text) (hops : List Hop)
    → steps_in (phases_of_hops exec name hops) ≡ pending_in hops
unfolding phases_of_hops phases_of_hop pending_in
steps_in-phases_of_hops exec name [] = refl
steps_in-phases_of_hops exec name (hop ∷ hops) =
    omega (arith, pending_of-types hop.steps, steps_in-phases_of_hops exec name hops)

-- The phases of a plan hold as many steps as `PendingSteps` counts.
steps_in-phases :
    {W : Type 0} (exec : Executors W) (plan : Plan)
    → steps_in (phases exec plan) ≡ pending_steps plan
unfolding phases pending_steps
steps_in-phases exec plan = steps_in-phases_of_hops exec plan.cluster_name plan.hops

execute_from-nothing :
    {W : Type 0} (env : Env W) (opts : ExecuteOptions W) (done : List Text) (phs : List (Phase W))
    (w : W)
    → steps_in phs ≡ 0
    → execute_from env opts done phs w ≡ (only_completed done, returned tt, w)
execute_from-nothing env opts done [] w h = unfold execute_from in refl
execute_from-nothing env opts done (ph ∷ rest) w h =
    execute_from-idle env opts done ph rest w (ground arith)
    ∙ execute_from-nothing env opts done rest w (omega arith)

-- A plan that is not blocked and has no pending step is executed with success at once: no prompt is
-- shown and no phase runs, so nothing of the world changes, and the report is empty.
pub execute_nothing_pending :
    {W : Type 0} (env : Env W) (exec : Executors W) (opts : ExecuteOptions W) (plan : Plan) (w : W)
    → is_plan_blocked plan ≡ false
    → pending_steps plan ≡ 0
    → execute env exec opts plan w ≡ (only_completed [], returned tt, w)
execute_nothing_pending env exec opts plan w free none_pending =
    execute-free env exec opts plan w free
    ∙ execute_from-nothing env opts [] (phases exec plan) w
        (steps_in-phases exec plan ∙ none_pending)
