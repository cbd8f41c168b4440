-- ===== src/Tests/Cloud.antt =====
-- A small cloud: one cluster with two nodegroups, whose updates are done at once.
use refresh.Prelude.{List, [], ◌∷◌, ◌++◌, none, some}
use refresh.Text.{Text, txt}
use refresh.Go.{returned}
use refresh.Common.Retry.{Env}
use refresh.Common.Paginate.{Page}
use refresh.Eks.{
  ClusterStatus, Insight, InsightStatus, Nodegroup, Update, UpdateStatus, Eks, Platform,
}

-- The version of the cluster, and the updates that were started.
pub record Cloud : Type 0 where
  pub version : Text
  pub started : List Text

abbrev patient : Env Cloud
patient = record { ctx_err = λ w. none; sleep = λ n w. (none, w) }

abbrev done_update : Update
done_update = record { id = txt "u-1"; status = UpdateStatus.successful; errors = [] }

abbrev nothing : {A : Type 0} → Page A
nothing = record { items = []; next = none }

abbrev nodegroup : Text → Nodegroup
nodegroup name = record {
  version = txt "1.31";
  ami_type = txt "AL2023_x86_64_STANDARD";
  status = txt "ACTIVE";
  issues = [];
}

abbrev deprecated_apis : Insight
deprecated_apis = record {
  id = txt "i-1";
  name = txt "deprecated APIs";
  status = some InsightStatus.warning;
}

abbrev pub eks : Eks Cloud
eks = record {
  describe_cluster = λ name w.
      (returned (some (record { version = w.version; status = ClusterStatus.active })), w);
  update_cluster_version = λ name version token w.
      (returned (some done_update), record { version = version; started = w.started ++ name ∷ [] });
  describe_update = λ ref w. (returned (some done_update), w);
  describe_cluster_versions = λ version w. (returned (version ∷ []), w);
  list_insights =
      λ name version next w. (returned (record { items = deprecated_apis ∷ []; next = none }), w);
  list_addons = λ name next w. (returned nothing, w);
  describe_addon = λ cluster name w. (returned none, w);
  describe_addon_versions = λ name version next w. (returned nothing, w);
  update_addon = λ cluster name version configuration token w. (returned (some done_update), w);
  list_nodegroups =
      λ name next w. (returned (record { items = txt "blue" ∷ txt "green" ∷ []; next = none }), w);
  describe_nodegroup = λ cluster name w. (returned (some (nodegroup name)), w);
  update_nodegroup_version = λ cluster name version force token w.
      (returned (some done_update), record w { started = w.started ++ name ∷ [] });
}

abbrev pub cloud : Platform Cloud
cloud = record {
  eks = eks;
  env = patient;
  with_timeout = λ d w. patient;
  new_token = λ w. (txt "token", w);
}

abbrev pub at : Text → Cloud
at version = record { version = version; started = [] }
