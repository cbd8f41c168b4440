-- ===== src/Upgrade/Nodegroups.antt =====
-- internal/services/upgrade/nodegroups.go: the nodegroups roll to the target version, one by one.
pub mod Rolls
use refresh.Prelude.{
  ℕ, zero, suc, ◌≡◌, refl, Bool, true, false, ◌||◌, List, [], ◌∷◌, Option, none, some, length,
  if◌then◌else◌,
}
use refresh.Text.{Text, txt, concat, text_eq}
use refresh.Text.Decimal.{format_nat}
use refresh.Go.{
  GoError, plain, wrapped, error_text, M, Outcome, returned, failed, unfinished, pure, throw,
  and_then, ◌>>=◌, ◌>>◌, map_failure,
}
use refresh.Common.Retry.{default_retry_config, with_retry}
use refresh.Aws.Errors.{format_aws_error}
use refresh.Eks.{Nodegroup, Issue, Update, Eks, Platform}
use refresh.Upgrade.Version.{version_at_least}
use refresh.Upgrade.Service.{NodegroupState, matches_any, list_nodegroup_states, wait_for_update}
use refresh.Upgrade.ControlPlane.{id_of}

-- A gate of the caller's, and the observer, which may change the world and returns nothing.
pub record NodegroupRollOptions (W : Type 0) : Type 0 where
  pub skip_patterns : List Text
  pub force : Bool
  pub gate : Option (Text → M W Unit)
  pub observer : Option (Text → W → W)

unhealthy : Text → List Issue → Option GoError
unhealthy name [] = none
unhealthy name (issue ∷ issues) = some (
    plain (
      concat (
        txt "nodegroup "
        ∷ name
        ∷ txt " has "
        ∷ format_nat (length (issue ∷ issues))
        ∷ txt " health issue(s), first: "
        ∷ issue.code
        ∷ txt ": "
        ∷ issue.message
        ∷ [])))

-- What the built-in gate finds wrong with a nodegroup.
unfoldable pub gate_error : Text → Option Nodegroup → Option GoError
unfolding unhealthy
gate_error name none = some (plain (concat (txt "nodegroup " ∷ name ∷ txt " not found" ∷ [])))
gate_error name (some ng) =
    if text_eq ng.status (txt "ACTIVE")
    then unhealthy name ng.issues
    else some (
        plain (concat (txt "nodegroup " ∷ name ∷ txt " is " ∷ ng.status ∷ txt ", not ACTIVE" ∷ [])))

module _ {W : Type 0} (p : Platform W) (fuel interval : ℕ) (cluster : Text) where
  -- `defaultNodegroupGate`
  unfoldable pub default_nodegroup_gate : Text → M W Unit
  unfolding gate_error
  default_nodegroup_gate name = do
    ng ← λ w.
        map_failure (λ e. format_aws_error e (concat (txt "checking nodegroup " ∷ name ∷ [])))
          (with_retry p.env default_retry_config (p.eks.describe_nodegroup cluster name) w)
    elim (gate_error name ng) [ none ↦ pure tt | some e ↦ throw e ]

  watch_roll : (name target id : Text) → M W Unit
  watch_roll name target id =
      if text_eq id []
      then pure tt
      else wait_for_update p fuel fuel interval
          (record { cluster_name = cluster; nodegroup_name = some name; update_id = id })
          (concat (txt "nodegroup " ∷ name ∷ txt " roll to " ∷ target ∷ []))

  observe : Option (Text → W → W) → Text → M W Unit
  observe none name = pure tt
  observe (some see) name = λ w. (returned tt, see name w)

  -- `rollNodegroup`
  unfoldable pub roll_nodegroup : Bool → Option (Text → W → W) → (target name : Text) → M W Unit
  unfolding watch_roll observe
  roll_nodegroup force observer target name w =
      let (token, v) = p.new_token w in
      and_then
        (map_failure
          (λ e.
            format_aws_error e
              (concat (txt "rolling nodegroup " ∷ name ∷ txt " to " ∷ target ∷ [])))
          (with_retry p.env default_retry_config
            (p.eks.update_nodegroup_version cluster name target force token) v))
        (λ out. do observe observer name; watch_roll name target (id_of out))

  gate_failed : Text → GoError → GoError
  gate_failed name e =
      wrapped
        (concat (
          txt "pre-flight gate failed for nodegroup "
          ∷ name
          ∷ txt " (remaining nodegroups not attempted): "
          ∷ error_text e
          ∷ []))
        e

  unfoldable pub chosen_gate : Option (Text → M W Unit) → Text → M W Unit
  unfolding default_nodegroup_gate
  chosen_gate none = default_nodegroup_gate
  chosen_gate (some gate) = gate

  -- One nodegroup that is not passed over: the gate, then the roll.
  unfoldable pub gated_roll : NodegroupRollOptions W → (target name : Text) → M W Unit
  unfolding chosen_gate gate_failed roll_nodegroup
  gated_roll opts target name = do
    λ w. map_failure (gate_failed name) (chosen_gate opts.gate name w)
    roll_nodegroup opts.force opts.observer target name

  -- The loop of `UpgradeNodegroups`.
  unfoldable pub roll_all : NodegroupRollOptions W → Text → List NodegroupState → M W Unit
  unfolding gated_roll
  roll_all opts target [] = pure tt
  roll_all opts target (ng ∷ ngs) =
      let rest = roll_all opts target ngs in
      if version_at_least ng.version target
      then rest
      else if matches_any ng.name opts.skip_patterns
      then rest
      else if ng.custom_ami
      then rest
      else (gated_roll opts target ng.name >> rest)

  -- `UpgradeNodegroups`
  unfoldable pub upgrade_nodegroups : NodegroupRollOptions W → Text → M W Unit
  unfolding roll_all
  upgrade_nodegroups opts target = do
    ngs ← list_nodegroup_states p fuel cluster
    roll_all opts target ngs
