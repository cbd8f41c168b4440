-- ===== src/Eks.antt =====
-- The EKS API as the program uses it: the fields of its answers that are read, and its calls. A
-- string that the SDK hands over as a pointer is the empty text where the pointer is nil, as
-- `aws.ToString` has it; an optional structure is an `Option`.
use refresh.Prelude.{ℕ, Bool, List, Option}
use refresh.Text.{Text, txt}
use refresh.Go.{M}
use refresh.Common.Retry.{Env}
use refresh.Common.Paginate.{Page}

pub data ClusterStatus : Type 0 where
  active updating failed other : ClusterStatus

pub record Cluster : Type 0 where
  pub version : Text
  pub status : ClusterStatus

pub data AddonStatus : Type 0 where
  creating active create_failed updating deleting delete_failed degraded update_failed : AddonStatus
  unknown : Text → AddonStatus

-- The status as EKS writes it.
unfoldable pub addon_status_text : AddonStatus → Text
addon_status_text AddonStatus.creating = txt "CREATING"
addon_status_text AddonStatus.active = txt "ACTIVE"
addon_status_text AddonStatus.create_failed = txt "CREATE_FAILED"
addon_status_text AddonStatus.updating = txt "UPDATING"
addon_status_text AddonStatus.deleting = txt "DELETING"
addon_status_text AddonStatus.delete_failed = txt "DELETE_FAILED"
addon_status_text AddonStatus.degraded = txt "DEGRADED"
addon_status_text AddonStatus.update_failed = txt "UPDATE_FAILED"
addon_status_text (AddonStatus.unknown s) = s

pub record Issue : Type 0 where
  pub code : Text
  pub message : Text

pub record Addon : Type 0 where
  pub name : Text
  pub version : Text
  pub status : AddonStatus
  pub issues : List Issue

pub record AddonVersion : Type 0 where
  pub version : Text
  pub compatibilities : List (Option Text)
  pub architecture : List Text
  pub requires_iam_permissions : Bool

pub record AddonInfo : Type 0 where
  pub versions : List AddonVersion

pub data UpdateStatus : Type 0 where
  in_progress successful failed cancelled : UpdateStatus
  other : Text → UpdateStatus

pub record Update : Type 0 where
  pub id : Text
  pub status : UpdateStatus
  pub errors : List Issue

pub data InsightStatus : Type 0 where
  passing warning error unknown : InsightStatus

pub record Insight : Type 0 where
  pub id : Text
  pub name : Text
  pub status : Option InsightStatus

pub record Nodegroup : Type 0 where
  pub version : Text
  pub ami_type : Text
  pub status : Text
  pub issues : List Issue

-- What `DescribeUpdate` is asked about: a cluster, a nodegroup of it if the update is one's, and
-- the update.
pub record UpdateRef : Type 0 where
  pub cluster_name : Text
  pub nodegroup_name : Option Text
  pub update_id : Text

-- The calls. A Kubernetes version or a configuration that is the empty text stands for none.
pub record Eks (W : Type 0) : Type 0 where
  pub describe_cluster : Text → M W (Option Cluster)
  pub update_cluster_version : (name version token : Text) → M W (Option Update)
  pub describe_update : UpdateRef → M W (Option Update)
  pub describe_cluster_versions : Text → M W (List Text)
  pub list_insights : (name version : Text) → Option Text → M W (Page Insight)
  pub list_addons : Text → Option Text → M W (Page Text)
  pub describe_addon : (cluster name : Text) → M W (Option Addon)
  pub describe_addon_versions : (name k8s_version : Text) → Option Text → M W (Page AddonInfo)
  pub update_addon : (cluster name version configuration token : Text) → M W (Option Update)
  pub list_nodegroups : Text → Option Text → M W (Page Text)
  pub describe_nodegroup : (cluster name : Text) → M W (Option Nodegroup)
  pub update_nodegroup_version :
      (cluster name version : Text) → (force : Bool) → (token : Text) → M W (Option Update)

-- The API with the context, the clock and the source of tokens. `with_timeout d w` is the context
-- that ends after d nanoseconds from the world w on, if not before.
pub record Platform (W : Type 0) : Type 0 where
  pub eks : Eks W
  pub env : Env W
  pub with_timeout : ℕ → W → Env W
  pub new_token : W → Text × W
