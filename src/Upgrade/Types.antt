-- ===== src/Upgrade/Types.antt =====
-- The plan of internal/services/upgrade/types.go.
use refresh.Prelude.{ℕ, ◌+◌, Bool, true, false, not, ◌&&◌, List, [], ◌∷◌, ◌++◌, if◌then◌else◌}
use refresh.Text.{Text, txt, concat}

pub data StepType : Type 0 where
  readiness control_plane addon nodegroup : StepType

pub data StepStatus : Type 0 where
  pending completed blocked manual : StepStatus

pub record Step : Type 0 where
  pub type : StepType
  pub description : Text
  pub target : Text
  pub version : Text
  pub status : StepStatus
  pub reason : Text

pub record Hop : Type 0 where
  pub from : Text
  pub to : Text
  pub steps : List Step

pub record Plan : Type 0 where
  pub cluster_name : Text
  pub current_version : Text
  pub target_version : Text
  pub hops : List Hop
  pub warnings : List Text

abbrev pub is_pending : StepStatus → Bool
is_pending pending = true
is_pending _ = false

abbrev pub is_blocked : StepStatus → Bool
is_blocked blocked = true
is_blocked _ = false

abbrev pub is_readiness : StepType → Bool
is_readiness readiness = true
is_readiness _ = false

unfoldable pub blocker_line : Hop → Step → Text
blocker_line hop s =
    concat (hop.from ∷ txt " → " ∷ hop.to ∷ txt ": " ∷ s.description ∷ txt ": " ∷ s.reason ∷ [])

unfoldable pub blockers_of : Hop → List Step → List Text
unfolding blocker_line
blockers_of hop [] = []
blockers_of hop (s ∷ ss) =
    let rest = blockers_of hop ss in if is_blocked s.status then blocker_line hop s ∷ rest else rest

unfoldable pub blockers_in : List Hop → List Text
unfolding blockers_of
blockers_in [] = []
blockers_in (hop ∷ hops) = blockers_of hop hop.steps ++ blockers_in hops

-- `Blockers`
unfoldable pub blockers : Plan → List Text
unfolding blockers_in
blockers plan = blockers_in plan.hops

abbrev pub is_nil {ℓ} : {A : Type ℓ} → List A → Bool
is_nil [] = true
is_nil (x ∷ xs) = false

-- `Blocked`
unfoldable pub is_plan_blocked : Plan → Bool
unfolding blockers
is_plan_blocked plan = not (is_nil (blockers plan))

unfoldable pub pending_of : List Step → ℕ
pending_of [] = 0
pending_of (s ∷ ss) =
    (if is_pending s.status && not (is_readiness s.type) then 1 else 0) + pending_of ss

unfoldable pub pending_in : List Hop → ℕ
unfolding pending_of
pending_in [] = 0
pending_in (hop ∷ hops) = pending_of hop.steps + pending_in hops

-- `PendingSteps`
unfoldable pub pending_steps : Plan → ℕ
unfolding pending_in
pending_steps plan = pending_in plan.hops
