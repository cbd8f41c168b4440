-- ===== src/Upgrade/Planning/Gate/Readiness.antt =====
-- What a readiness step that is not blocked has checked.
use refresh.Prelude.{ℕ, ◌≡◌, ◌⊎◌, Bool, true, false, List, [], ◌∷◌, Option, some}
use refresh.Prelude.Int.{ℤ}
use refresh.Text.{Text}
use refresh.Go.{GoError, returned, failed}
use refresh.Eks.{Insight, InsightStatus, Platform}
use refresh.Upgrade.Service.{NodegroupState}
use refresh.Upgrade.Planning.Skew.{Simulation, violates_skew}
use refresh.Upgrade.Planning.Gate.{list_upgrade_insights}

-- No nodegroup would be further behind the hop's target than the kubelet may.
abbrev pub WithinSkew : ℤ → Simulation → List NodegroupState → Type 0
WithinSkew hop_minor sim [] = Unit
WithinSkew hop_minor sim (ng ∷ ngs) =
    (violates_skew hop_minor (sim ng.name) ≡ false) × WithinSkew hop_minor sim ngs

abbrev pub is_error : Option InsightStatus → Bool
is_error (some InsightStatus.error) = true
is_error _ = false

abbrev pub NoErrors : List Insight → Type 0
NoErrors [] = Unit
NoErrors (i ∷ is) = (is_error i.status ≡ false) × NoErrors is

module _ {W : Type 0} (p : Platform W) (fuel : ℕ) (cluster hop_to : Text)
    (ngs : List NodegroupState) (sim : Simulation) where
  -- The insights were listed without an error among them, or could not be listed.
  abbrev pub InsightsChecked : W → Type 0
  InsightsChecked w =
      ((v : W) × (is : List Insight) × (list_upgrade_insights p fuel cluster hop_to w
          ≡ (returned is, v))
        × NoErrors is)
      ⊎ ((v : W) × (e : GoError) × (list_upgrade_insights p fuel cluster hop_to w ≡ (failed e, v)))
