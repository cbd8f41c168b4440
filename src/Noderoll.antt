-- ===== src/Noderoll.antt =====
-- internal/noderoll/observer.go: the nodes of a nodegroup while it is rolled, each with its phase.
pub mod Snapshots
pub mod Tracker
use refresh.Prelude.{
  ℕ, Bool, true, false, not, ◌&&◌, ◌||◌, List, [], ◌∷◌, Option, none, some, if◌then◌else◌,
}
use refresh.Text.{Text, txt, text_eq, has_prefix}

-- A condition of a node, a node and a pod: the fields of the Kubernetes API that the observer reads.
-- A label that is not there is the empty text.
pub record Condition : Type 0 where
  pub type : Text
  pub status : Text

pub record Node : Type 0 where
  pub name : Text
  pub unschedulable : Bool
  pub taint_keys : List Text
  pub labels : Text → Text
  pub conditions : List Condition

pub record Pod : Type 0 where
  pub node_name : Text
  pub phase : Text
  pub annotations : Text → Option Text
  pub owner_kinds : List Text

-- `Phase`
pub data NodePhase : Type 0 where
  phase_ready phase_joining phase_draining : NodePhase

pub record NodeView : Type 0 where
  pub name : Text
  pub on_target : Bool
  pub ready : Bool
  pub phase : NodePhase
  pub pods : ℕ
  pub pods_total : ℕ
  pub pressure : List Text

abbrev pub label_image : Text
label_image = txt "eks.amazonaws.com/nodegroup-image"

-- `hasDrainTaint`
unfoldable pub has_drain_taint : List Text → Bool
has_drain_taint [] = false
has_drain_taint (key ∷ keys) =
    has_prefix key (txt "ToBeDeletedByClusterAutoscaler")
    || has_prefix key (txt "DeletionCandidateOfClusterAutoscaler")
    || text_eq key (txt "node.kubernetes.io/unschedulable")
    || has_drain_taint keys

-- `nodeReady`
unfoldable pub node_ready : List Condition → Bool
node_ready [] = false
node_ready (c ∷ cs) =
    let rest = node_ready cs in
    if text_eq c.type (txt "Ready") then text_eq c.status (txt "True") else rest

unfoldable pub is_active : List Condition → Text → Bool
is_active [] type = false
is_active (c ∷ cs) type = text_eq c.status (txt "True") && text_eq c.type type || is_active cs type

abbrev pub pressure_node_conditions : List Text
pressure_node_conditions =
    txt "MemoryPressure" ∷ txt "DiskPressure" ∷ txt "PIDPressure" ∷ txt "NetworkUnavailable" ∷ []

unfoldable pub active_among : List Condition → List Text → List Text
unfolding is_active
active_among cs [] = []
active_among cs (type ∷ types) =
    let rest = active_among cs types in if is_active cs type then type ∷ rest else rest

-- `pressureConditions`
unfoldable pub pressure_conditions : Node → List Text
unfolding active_among
pressure_conditions n = active_among n.conditions pressure_node_conditions

unfoldable pub phase_of : Node → NodePhase
unfolding has_drain_taint node_ready
phase_of n =
    if n.unschedulable || has_drain_taint n.taint_keys
    then phase_draining
    else if not (node_ready n.conditions)
    then phase_joining
    else phase_ready

-- Whether a node is on the target: it is not in the baseline, where there is one, and else it has
-- the target image.
unfoldable pub is_on_target : (target_ami : Text) → Option (Text → Bool) → Node → Bool
is_on_target target_ami none n = text_eq (n.labels label_image) target_ami
is_on_target target_ami (some baseline) n = not (baseline n.name)

-- `classify`
unfoldable pub classify : (target_ami : Text) → Option (Text → Bool) → Node → NodeView
unfolding phase_of is_on_target node_ready pressure_conditions
classify target_ami baseline n = record {
  name = n.name;
  on_target = is_on_target target_ami baseline n;
  ready = node_ready n.conditions;
  phase = phase_of n;
  pods = 0;
  pods_total = 0;
  pressure = pressure_conditions n;
}

owned_by_daemon_set : List Text → Bool
owned_by_daemon_set [] = false
owned_by_daemon_set (kind ∷ kinds) = text_eq kind (txt "DaemonSet") || owned_by_daemon_set kinds

abbrev is_there : Option Text → Bool
is_there none = false
is_there (some s) = true

-- `isEvictablePod`
unfoldable pub is_evictable_pod : Pod → Bool
unfolding owned_by_daemon_set
is_evictable_pod p =
    if text_eq p.phase (txt "Succeeded") || text_eq p.phase (txt "Failed")
    then false
    else if is_there (p.annotations (txt "kubernetes.io/config.mirror"))
    then false
    else not (owned_by_daemon_set p.owner_kinds)
