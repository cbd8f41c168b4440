-- ===== src/Upgrade/Planning/Hops/Chain.antt =====
-- The hops of a plan lead from the current version to the target.
use refresh.Prelude.{ℕ, ◌≡◌, refl, sym, ap, false, List, [], ◌∷◌, Option, none, some}
use refresh.Text.{Text}
use refresh.Go.{returned, pure, Result, ok, err, ◌>>=◌, and_then-eq-returned, returned-eq}
use refresh.Eks.{Cluster, Platform}
use refresh.Addons.Service.{AddonSummary, list_addons}
use refresh.Addons.Dependency.{sort_by_dependency}
use refresh.Upgrade.Version.{expand_hops}
use refresh.Upgrade.Types.{Step, Hop, Plan}
use refresh.Upgrade.Service.{NodegroupState, describe_cluster, list_nodegroup_states}
use refresh.Upgrade.Planning.Steps.{PlanOptions}
use refresh.Upgrade.Planning.Skew.{Simulation, simulate, advance}
use refresh.Upgrade.Planning.Hops.{
  hop_steps, add_hop, plan_hops, hops_or_target, of_hops, of_order, check_version_offered,
  make_plan, plan_installed, plan_nodegroups, plan_offered, plan_between, plan_cluster, build_plan,
}

-- Each hop starts where the hop before it ends, and the first one at `from`.
abbrev pub IsChain : Text → List Hop → Type 0
IsChain from [] = Unit
IsChain from (h ∷ hs) = (h.from ≡ from) × IsChain h.to hs

abbrev pub targets : List Hop → List Text
targets [] = []
targets (h ∷ hs) = h.to ∷ targets hs

module _ {W : Type 0} (p : Platform W) (fuel : ℕ) where
  -- The hops lead from one version through the listed ones.
  abbrev pub Leads : Text → List Text → List Hop → Type 0
  Leads from hops hs = IsChain from hs × (targets hs ≡ hops)

  add_hop-Leads :
      (from hop_to : Text) (hops : List Text) (made : List Step × List Text)
      (rest r : List Hop × List Text)
      → Leads hop_to hops rest.0
      → add_hop p fuel from hop_to made rest ≡ r
      → Leads from (hop_to ∷ hops) r.0
  unfolding add_hop
  add_hop-Leads from hop_to hops (steps, warnings) (rest, more) r (chain, t) e =
      rw (sym e) ((refl, chain), ap (λ ts. hop_to ∷ ts) t)

  module _ (name : Text) (cluster : Cluster) (ngs : List NodegroupState)
      (addons : List AddonSummary) (opts : PlanOptions) where
    plan_hops-Leads :
        (from : Text) (hops : List Text) (sim : Simulation) (w end : W) (r : List Hop × List Text)
        → plan_hops p fuel name cluster ngs addons opts from hops sim w ≡ (returned r, end)
        → Leads from hops r.0
    unfolding plan_hops
    plan_hops-Leads from [] sim w end r h = rw (sym (returned-eq h)) (tt, refl)
    plan_hops-Leads from (hop_to ∷ hops) sim w end r h =
        let next = advance hop_to opts.skip_nodegroups ngs sim in
        let (made, v, _, h1) =
          and_then-eq-returned (hop_steps p fuel name cluster ngs addons opts hop_to sim w)
            (λ made. plan_hops p fuel name cluster ngs addons opts hop_to hops next >>= λ rest.
              pure (add_hop p fuel from hop_to made rest))
            h in
        let (rest, u, h2, h3) =
          and_then-eq-returned (plan_hops p fuel name cluster ngs addons opts hop_to hops next v)
            (λ rest. pure (add_hop p fuel from hop_to made rest)) h1 in
        add_hop-Leads from hop_to hops made rest r (plan_hops-Leads hop_to hops next v u rest h2)
          (returned-eq h3)

  module _ (name target : Text) (opts : PlanOptions) where
    -- The plan is about the cluster, and leads through the hops.
    abbrev pub PlanFor : Cluster → List Text → Plan → Type 0
    PlanFor c hops plan =
        (plan.cluster_name ≡ name)
        × (plan.target_version ≡ target)
        × (plan.current_version ≡ c.version)
        × Leads c.version (hops_or_target p fuel target hops) plan.hops

    make_plan-PlanFor :
        (c : Cluster) (hops warnings : List Text) (planned : List Hop × List Text) (plan : Plan)
        → Leads c.version (hops_or_target p fuel target hops) planned.0
        → make_plan p fuel name target opts c warnings planned ≡ plan
        → PlanFor c hops plan
    unfolding make_plan
    make_plan-PlanFor c hops warnings (planned, more) plan leads e =
        rw (sym e) (refl, refl, refl, leads)

    plan_installed-PlanFor :
        (c : Cluster) (hops warnings : List Text) (ngs : List NodegroupState)
        (installed : List AddonSummary) (w end : W) (plan : Plan)
        → plan_installed p fuel name target opts c hops warnings ngs installed w
          ≡ (returned plan, end)
        → PlanFor c hops plan
    unfolding plan_installed
    plan_installed-PlanFor c hops warnings ngs installed w end plan h =
        let start = simulate (λ n. []) ngs in
        let through = hops_or_target p fuel target hops in
        let (addons, v, _, h1) =
          and_then-eq-returned (of_order p fuel (sort_by_dependency installed) w)
            (λ addons.
              plan_hops p fuel name c ngs addons opts c.version through start >>= λ planned.
              pure (make_plan p fuel name target opts c warnings planned))
            h in
        let (planned, u, h2, h3) =
          and_then-eq-returned (plan_hops p fuel name c ngs addons opts c.version through start v)
            (λ planned. pure (make_plan p fuel name target opts c warnings planned)) h1 in
        make_plan-PlanFor c hops warnings planned plan
          (plan_hops-Leads name c ngs addons opts c.version through start v u planned h2)
          (returned-eq h3)

    plan_between-PlanFor :
        (c : Cluster) (hops : List Text) (w end : W) (plan : Plan)
        → plan_between p fuel name target opts c hops w ≡ (returned plan, end)
        → PlanFor c hops plan
    unfolding plan_between plan_offered plan_nodegroups
    plan_between-PlanFor c hops w end plan h =
        let (warnings, v1, _, h1) =
          and_then-eq-returned (check_version_offered p fuel target w)
            (plan_offered p fuel name target opts c hops) h in
        let (ngs, v2, _, h2) =
          and_then-eq-returned (list_nodegroup_states p fuel name v1)
            (plan_nodegroups p fuel name target opts c hops warnings) h1 in
        let (installed, v3, _, h3) =
          and_then-eq-returned (list_addons p fuel false name v2)
            (plan_installed p fuel name target opts c hops warnings ngs) h2 in
        plan_installed-PlanFor c hops warnings ngs installed v3 end plan h3

    of_hops-eq :
        (r : Option (Result (List Text))) (hops : List Text) (v w : W)
        → of_hops p fuel r v ≡ (returned hops, w)
        → r ≡ some (ok hops)
    unfolding of_hops
    of_hops-eq none hops v w h = cc
    of_hops-eq (some (ok x)) hops v w h = cc
    of_hops-eq (some (err e)) hops v w h = cc

    -- A plan that `BuildPlan` returns is about the cluster as it was described first: its hops
    -- are those of `expandHops` from the cluster's version to the target, or the target alone
    -- where there are none, and each hop starts where the hop before it ends, the first one at
    -- the cluster's version.
    pub build_plan-PlanFor :
        (w end : W) (plan : Plan)
        → build_plan p fuel name target opts w ≡ (returned plan, end)
        → (c : Cluster) × (v : W) × (hops : List Text) × (describe_cluster p fuel name w
            ≡ (returned c, v))
          × (expand_hops c.version target ≡ some (ok hops))
          × PlanFor c hops plan
    unfolding build_plan plan_cluster
    build_plan-PlanFor w end plan h =
        let (c, v, d, h1) =
          and_then-eq-returned (describe_cluster p fuel name w)
            (plan_cluster p fuel name target opts) h in
        let (hops, u, h2, h3) =
          and_then-eq-returned (of_hops p fuel (expand_hops c.version target) v)
            (plan_between p fuel name target opts c) h1 in
        (c, v, hops, d, of_hops-eq _ hops v u h2, plan_between-PlanFor c hops u end plan h3)
