-- ===== src/Upgrade/Nodegroups/Rolls.antt =====
-- The nodegroups that `UpgradeNodegroups` rolls are those that the plan has pending steps for.
use mathlib.Core.Path.{fun_ext}
use refresh.Prelude.{
  ℕ, ◌≡◌, refl, ap, true, false, ◌||◌, List, [], ◌∷◌, arith, Bool-cases, inl, inr, if◌then◌else◌,
}
use refresh.Text.{Text}
use refresh.Go.{M, pure, ◌>>◌}
use refresh.Eks.{Platform}
use refresh.Upgrade.Version.{version_at_least}
use refresh.Upgrade.Types.{Step, is_pending}
use refresh.Upgrade.Service.{NodegroupState, matches_any}
use refresh.Upgrade.Planning.Steps.{nodegroup_step, nodegroup_steps}
use refresh.Upgrade.Nodegroups.{NodegroupRollOptions, gated_roll, roll_all}

-- The targets of the steps that are pending, in order.
abbrev pub pending_targets : List Step → List Text
pending_targets [] = []
pending_targets (s ∷ ss) =
    let rest = pending_targets ss in if is_pending s.status then s.target ∷ rest else rest

-- One after the other, until one fails.
abbrev pub each : {W : Type 0} → (Text → M W Unit) → List Text → M W Unit
each f [] = pure tt
each f (name ∷ names) = f name >> each f names

nodegroup_step-pending :
    (target : Text) (skip : List Text) (ng : NodegroupState)
    → is_pending (nodegroup_step target skip ng).status ≡ (
        if version_at_least ng.version target || matches_any ng.name skip || ng.custom_ami
        then false
        else true)
unfolding nodegroup_step
nodegroup_step-pending target skip ng = ground arith

nodegroup_step-target :
    (target : Text) (skip : List Text) (ng : NodegroupState)
    → (nodegroup_step target skip ng).target ≡ ng.name
unfolding nodegroup_step
nodegroup_step-target target skip ng = ground arith

module _ {W : Type 0} (p : Platform W) (fuel interval : ℕ) (cluster : Text)
    (opts : NodegroupRollOptions W) (target : Text) where
  -- The phase runs the gate and the roll of exactly the nodegroups for which the plan has a pending
  -- step at this target, in the plan's order, and stops at the first that fails.
  pub roll_all-each :
      (ngs : List NodegroupState) (w : W)
      → roll_all p fuel interval cluster opts target ngs w
        ≡ each
            (gated_roll p fuel interval cluster opts target)
            (pending_targets (nodegroup_steps ngs target opts.skip_patterns))
            w
  unfolding roll_all nodegroup_steps
  roll_all-each [] w = refl
  roll_all-each (ng ∷ ngs) w =
      rw
        (
          nodegroup_step-pending target opts.skip_patterns ng,
          nodegroup_step-target target opts.skip_patterns ng,
        )
        (elim (Bool-cases (version_at_least ng.version target)) [
          | inl current ↦ rw current (roll_all-each ngs w)
          | inr behind ↦ elim (Bool-cases (matches_any ng.name opts.skip_patterns)) [
            | inl skipped ↦ rw (behind, skipped) (roll_all-each ngs w)
            | inr kept ↦ elim (Bool-cases ng.custom_ami) [
              | inl custom ↦ rw (behind, kept, custom) (roll_all-each ngs w)
              | inr managed ↦
                  rw (behind, kept, managed)
                    (ap
                      (λ (k : M W Unit).
                        (gated_roll p fuel interval cluster opts target ng.name >> k) w)
                      (fun_ext (roll_all-each ngs)))
            ]
          ]
        ])
