-- ===== src/Upgrade/Whole/Upgraded.antt =====
-- What a whole run of `Execute` over the service's phases guarantees.
use refresh.Prelude.{
  ℕ, ◌≡◌, refl, sym, ◌⊎◌, inl, inr, true, false, List, [], ◌∷◌, some, ◌∙◌, length,
}
use refresh.Text.{Text}
use refresh.Go.{M, returned, and_then-eq-returned}
use refresh.Eks.{Platform}
use refresh.Addons.Service.{AddonSummary, list_addons}
use refresh.Addons.Dependency.{sort_by_dependency}
use refresh.Upgrade.Types.{
  control_plane, addon, nodegroup, Step, Hop, Plan, is_nil, is_plan_blocked,
}
use refresh.Upgrade.Service.{NodegroupState, list_nodegroup_states}
use refresh.Upgrade.Engine.{
  Executors, ExecuteOptions, Phase, pending_of_type, pending_labels, phases_of_hop, phases_of_hops,
  phases, only_completed, execute, agreed, ask, control_plane_label, addons_label, nodegroups_label,
}
use refresh.Upgrade.Engine.Completion.{Completes, execute-Completes}
use refresh.Upgrade.ControlPlane.Postcondition.{Reached, upgrade_control_plane-Reached}
use refresh.Upgrade.Addons.{upgrade_addons}
use refresh.Upgrade.Addons.Ready.{EachReady, upgrade_addons-EachReady}
use refresh.Upgrade.Planning.Steps.{nodegroup_steps}
use refresh.Upgrade.Nodegroups.{NodegroupRollOptions, gated_roll, roll_all, upgrade_nodegroups}
use refresh.Upgrade.Nodegroups.Rolls.{pending_targets, each, roll_all-each}
use refresh.Upgrade.ControlPlane.{upgrade_control_plane}
use refresh.Upgrade.Whole.{service_executors}

-- From the first world to the second one, a phase has no step and changes nothing, or it was
-- confirmed and its call, from the world behind the prompt, ended without an error and with the
-- postcondition of its kind.
abbrev pub After :
    {W : Type 0}
    → ExecuteOptions W
    → (label : Text) → List Step
    → M W Unit
    → (W → W → Type 0)
    → W
    → W
    → Type 0
After {W} opts label steps run Post w v =
    ((is_nil steps ≡ true) × (w ≡ v))
    ⊎ ((is_nil steps ≡ false)
        × ((u : W) × (ask opts label w ≡ (agreed, u)) × (run u ≡ (returned tt, v)) × Post u v))

Completes-cons :
    {W : Type 0} {opts : ExecuteOptions W} {ph : Phase W} {rest : List (Phase W)} {w x : W}
    (Post : W → W → Type 0)
    → ((u v : W) → ph.run u ≡ (returned tt, v) → Post u v)
    → Completes opts (ph ∷ rest) w x
    → (v : W) × After opts ph.label ph.steps ph.run Post w v × Completes opts rest v x
Completes-cons {w} Post post (Completes.skipped empty rest) = (w, inl (empty, refl), rest)
Completes-cons Post post (Completes.ran {u} {v} busy asked runs rest) =
    (v, inr (busy, (u, asked, runs, post u v runs)), rest)

Completes-nil : {W : Type 0} {opts : ExecuteOptions W} {w x : W} → Completes opts [] w x → w ≡ x
Completes-nil Completes.finished = refl

module _ {W : Type 0} (p : Platform W) (fuel interval : ℕ) (skip : List Text)
    (roll : NodegroupRollOptions W) (name : Text) where
  exec : Executors W
  exec = service_executors p fuel interval skip roll

  -- The addons that were listed first, in the order of their dependencies, are ready for the
  -- target, those aside that are skipped.
  abbrev pub AddonsReady : Text → W → W → Type 0
  AddonsReady target start end =
      (installed addons : List AddonSummary) × (v : W) × (list_addons p fuel false name start
        ≡ (returned installed, v))
      × (sort_by_dependency installed ≡ some addons)
      × EachReady p fuel interval name target skip addons v end

  -- The nodegroups that were listed first and had a pending step for the target have passed their
  -- gate and were rolled, one behind the other.
  abbrev pub Rolled : Text → W → W → Type 0
  Rolled target start end =
      (ngs : List NodegroupState) × (v : W) × (list_nodegroup_states p fuel name start
        ≡ (returned ngs, v))
      × (each (gated_roll p fuel interval name roll target)
            (pending_targets (nodegroup_steps ngs target roll.skip_patterns)) v
          ≡ (returned tt, end))

  -- A hop: its phases that have pending steps were confirmed and run, one behind the other.
  abbrev pub HopDone : ExecuteOptions W → Hop → W → W → Type 0
  HopDone opts hop w x =
      let cps = pending_of_type control_plane hop.steps in
      let ads = pending_of_type addon hop.steps in
      let ngs = pending_of_type nodegroup hop.steps in
      (u v : W) × After opts (control_plane_label hop) cps
        (upgrade_control_plane p fuel interval name hop.to)
        (λ start end. Reached p fuel interval name hop.to end) w u
      × After opts (addons_label hop (length ads)) ads
          (upgrade_addons p fuel interval name hop.to skip) (AddonsReady hop.to) u v
      × After opts (nodegroups_label hop (length ngs)) ngs
          (upgrade_nodegroups p fuel interval name roll hop.to) (Rolled hop.to) v x

  abbrev pub HopsDone : ExecuteOptions W → List Hop → W → W → Type 0
  HopsDone opts [] w x = w ≡ x
  HopsDone opts (hop ∷ hops) w x = (v : W) × HopDone opts hop w v × HopsDone opts hops v x

  upgrade_nodegroups-Rolled :
      (target : Text) (w end : W)
      → upgrade_nodegroups p fuel interval name roll target w ≡ (returned tt, end)
      → Rolled target w end
  unfolding upgrade_nodegroups
  upgrade_nodegroups-Rolled target w end h =
      let (ngs, v, listed, h') =
        and_then-eq-returned (list_nodegroup_states p fuel name w)
          (roll_all p fuel interval name roll target) h in
      (ngs, v, listed, sym (roll_all-each p fuel interval name roll target ngs v) ∙ h')

  Completes-HopsDone :
      (opts : ExecuteOptions W) (hops : List Hop) (w x : W)
      → Completes opts (phases_of_hops exec name hops) w x
      → HopsDone opts hops w x
  unfolding phases_of_hops phases_of_hop exec service_executors
  Completes-HopsDone opts [] w x c = Completes-nil c
  Completes-HopsDone opts (hop ∷ hops) w x c =
      let (u, cp, c1) =
        Completes-cons (λ start end. Reached p fuel interval name hop.to end)
          (upgrade_control_plane-Reached p fuel interval name hop.to) c in
      let (v, ad, c2) =
        Completes-cons (AddonsReady hop.to)
          (upgrade_addons-EachReady p fuel interval name hop.to skip) c1 in
      let (y, ng, c3) = Completes-cons (Rolled hop.to) (upgrade_nodegroups-Rolled hop.to) c2 in
      (y, (u, v, cp, ad, ng), Completes-HopsDone opts hops y x c3)

-- When `Execute` ends with success over the service's own phases, on a plan that is not blocked and
-- with every phase that has pending steps in its report, it has gone through the hops in order, and
-- through the phases of each hop in order. A phase without pending steps has changed nothing. Any
-- other was confirmed, and its call, from the world that the prompt left, ended without an error in
-- the world where the next phase begins: that of the control plane with a description of the cluster
-- at the hop's target or past it; that of the addons has listed the addons first and taken them in
-- the order of their dependencies, and left each one skipped or ready; that of the nodegroups has
-- listed the nodegroups first, and gated and rolled those behind the target in their order, those
-- aside that are skipped or have a custom AMI.
pub execute-HopsDone :
    {W : Type 0} (p : Platform W) (fuel interval : ℕ) (skip : List Text)
    (roll : NodegroupRollOptions W) (opts : ExecuteOptions W) (plan : Plan) (w x : W)
    → is_plan_blocked plan ≡ false
    → execute p.env (service_executors p fuel interval skip roll) opts plan w ≡ (
      only_completed (pending_labels (phases (service_executors p fuel interval skip roll) plan)),
      returned tt,
      x,
    )
    → HopsDone p fuel interval skip roll plan.cluster_name opts plan.hops w x
unfolding phases exec
execute-HopsDone p fuel interval skip roll opts plan w x free h =
    Completes-HopsDone p fuel interval skip roll plan.cluster_name opts plan.hops w x (
      (execute-Completes p.env (service_executors p fuel interval skip roll) opts plan w x free).0
        h)
