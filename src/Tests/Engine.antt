-- ===== src/Tests/Engine.antt =====
-- The execution of a small plan.
use refresh.Prelude.{◌≡◌, refl, ◌≢◌, ◌↔◌, inl, true, false, List, [], ◌∷◌, ◌++◌, none}
use refresh.Text.{Text, txt}
use refresh.Go.{plain, M, returned, failed, unfinished}
use refresh.Common.Retry.{Env}
use refresh.Upgrade.Types.{
  StepType, StepStatus, control_plane, addon, nodegroup, readiness, pending, completed, Step, Plan,
  is_plan_blocked, pending_steps,
}
use refresh.Upgrade.Engine.{
  Executors, ExecuteOptions, pending_labels, phases, only_completed, execute,
}
use refresh.Upgrade.Engine.Accounting.{accounted, execute_accounts}
use refresh.Upgrade.Engine.Completion.{Completes, execute-Completes}
use refresh.Upgrade.Engine.Pending.{execute_nothing_pending}

-- The world is the log of the phases that have run.
abbrev Log : Type 0
Log = List Text

abbrev env : Env Log
env = record { ctx_err = λ w. none; sleep = λ n w. (none, w) }

abbrev runs : Text → M Log Unit
runs name w = (returned tt, w ++ name ∷ [])

abbrev fails : M Log Unit
fails w = (failed (plain (txt "boom")), w)

abbrev exec : Executors Log
exec = record {
  upgrade_control_plane = λ name to. runs (txt "cp");
  upgrade_addons = λ name to. runs (txt "addons");
  upgrade_nodegroups = λ name to. fails;
}

abbrev opts : ExecuteOptions Log
opts = record { yes_to_all = true; confirm = none }

abbrev step : StepType → StepStatus → Step
step t s = record {
  type = t;
  description = txt "step";
  target = [];
  version = txt "1.32";
  status = s;
  reason = [];
}

abbrev plan : List Step → Plan
plan steps = record {
  cluster_name = txt "prod";
  current_version = txt "1.31";
  target_version = txt "1.32";
  hops = record { from = txt "1.31"; to = txt "1.32"; steps = steps } ∷ [];
  warnings = [];
}

abbrev busy : Plan
busy = plan (
    step readiness pending
    ∷ step control_plane pending
    ∷ step addon completed
    ∷ step nodegroup pending
    ∷ [])

abbrev done : Plan
done = plan (step readiness pending ∷ step control_plane completed ∷ step addon completed ∷ [])

abbrev short : Plan
short = plan (step control_plane pending ∷ step addon pending ∷ [])

busy_free : is_plan_blocked busy ≡ false
unfolding is_plan_blocked
busy_free = refl

short_free : is_plan_blocked short ≡ false
unfolding is_plan_blocked
short_free = refl

done_free : is_plan_blocked done ≡ false
unfolding is_plan_blocked
done_free = refl

done_pending : pending_steps done ≡ 0
unfolding pending_steps
done_pending = refl

busy_ends : (execute env exec opts busy []).1 ≢ unfinished
unfolding execute
busy_ends = λ e. cc

short_runs : execute env exec opts short [] ≡ (
  only_completed (pending_labels (phases exec short)),
  returned tt,
  txt "cp" ∷ txt "addons" ∷ [],
)
unfolding execute pending_labels
short_runs = refl

execute_accounts_example :
    accounted (execute env exec opts busy []).0 ≡ pending_labels (phases exec busy)
execute_accounts_example = execute_accounts env exec opts busy [] busy_free (inl refl) busy_ends

execute-Completes_example :
    (execute env exec opts short [] ≡ (
      only_completed (pending_labels (phases exec short)),
      returned tt,
      txt "cp" ∷ txt "addons" ∷ [],
    ))
    ↔ Completes opts (phases exec short) [] (txt "cp" ∷ txt "addons" ∷ [])
execute-Completes_example =
    execute-Completes env exec opts short [] (txt "cp" ∷ txt "addons" ∷ []) short_free

execute_nothing_pending_example :
    execute env exec opts done [] ≡ (only_completed [], returned tt, [])
execute_nothing_pending_example =
    execute_nothing_pending env exec opts done [] done_free done_pending
