-- ===== src/Upgrade/Service.antt =====
-- internal/services/upgrade/service.go: what the orchestrator reads of a cluster.
use refresh.Prelude.{
  ℕ, zero, suc, Bool, false, not, ◌&&◌, ◌||◌, List, [], ◌∷◌, Option, none, some, if◌then◌else◌,
}
use refresh.Text.{Text, txt, concat, contains, text_eq, join}
use refresh.Go.{plain, M, Outcome, returned, failed, unfinished, pure, throw, ◌>>=◌, map_failure}
use refresh.Common.Retry.{default_retry_config, with_retry}
use refresh.Aws.Errors.{format_aws_error}
use refresh.Aws.Pages.{list_all_pages}
use refresh.Eks.{Cluster, Nodegroup, Issue, Update, UpdateStatus, UpdateRef, Platform}

pub record NodegroupState : Type 0 where
  pub name : Text
  pub version : Text
  pub ami_type : Text
  pub status : Text
  pub custom_ami : Bool

-- `matchesAny`: is one of the patterns, the empty one left aside, a part of the name?
unfoldable pub matches_any : Text → List Text → Bool
matches_any name [] = false
matches_any name (p ∷ ps) = not (text_eq p []) && contains name p || matches_any name ps

state_of : Text → Nodegroup → NodegroupState
state_of name ng = record {
  name = name;
  version = ng.version;
  ami_type = ng.ami_type;
  status = ng.status;
  custom_ami = text_eq ng.ami_type (txt "CUSTOM");
}

-- A nodegroup with no description is passed over.
add_state : Text → Option Nodegroup → List NodegroupState → List NodegroupState
unfolding state_of
add_state name none states = states
add_state name (some ng) states = state_of name ng ∷ states

error_message : Issue → Text
error_message e = if text_eq e.message [] then e.code else e.message

error_messages : List Issue → List Text
unfolding error_message
error_messages [] = []
error_messages (e ∷ es) = error_message e ∷ error_messages es

-- `updateErrors`
unfoldable pub update_errors : Update → Text
unfolding error_messages
update_errors u = elim u.errors [
  | [] ↦ txt "no error details reported"
  | e ∷ es ↦ join (txt "; ") (error_messages (e ∷ es))
]

module _ {W : Type 0} (p : Platform W) (fuel : ℕ) where
  found_cluster : Text → Option Cluster → M W Cluster
  found_cluster name none = throw (plain (concat (txt "cluster " ∷ name ∷ txt " not found" ∷ [])))
  found_cluster name (some c) = pure c

  -- `describeCluster`
  unfoldable pub describe_cluster : Text → M W Cluster
  unfolding found_cluster
  describe_cluster name = do
    c ← λ w.
        map_failure (λ e. format_aws_error e (concat (txt "describing cluster " ∷ name ∷ [])))
          (with_retry p.env default_retry_config (p.eks.describe_cluster name) w)
    found_cluster name c

  -- The loop over the names in `listNodegroupStates`.
  unfoldable pub nodegroup_states : Text → List Text → M W (List NodegroupState)
  unfolding add_state
  nodegroup_states cluster [] = pure []
  nodegroup_states cluster (name ∷ names) = do
    ng ← λ w.
        map_failure (λ e. format_aws_error e (concat (txt "describing nodegroup " ∷ name ∷ [])))
          (with_retry p.env default_retry_config (p.eks.describe_nodegroup cluster name) w)
    rest ← nodegroup_states cluster names
    pure (add_state name ng rest)

  -- `listNodegroupStates`
  unfoldable pub list_nodegroup_states : Text → M W (List NodegroupState)
  unfolding nodegroup_states list_all_pages
  list_nodegroup_states cluster = do
    names ←
        list_all_pages p.env fuel (concat (txt "listing nodegroups for cluster " ∷ cluster ∷ []))
          (p.eks.list_nodegroups cluster)
    nodegroup_states cluster names

  -- How an update that was looked at stands: `none` while it goes on.
  update_verdict : Text → Update → Option (Outcome Unit)
  unfolding update_errors
  update_verdict what u = elim u.status [
    | UpdateStatus.successful ↦ some (returned tt)
    | UpdateStatus.failed ↦
        some (failed (plain (concat (what ∷ txt " failed: " ∷ update_errors u ∷ []))))
    | UpdateStatus.cancelled ↦
        some (failed (plain (concat (what ∷ txt " cancelled: " ∷ update_errors u ∷ []))))
    | UpdateStatus.in_progress ↦ none
    | UpdateStatus.other s ↦ none
  ]

  -- A failed description does not end the wait, and neither does an answer with no update.
  poll_verdict : Text → Outcome (Option Update) → Option (Outcome Unit)
  unfolding update_verdict
  poll_verdict what (returned (some u)) = update_verdict what u
  poll_verdict what (returned none) = none
  poll_verdict what (failed e) = none
  poll_verdict what unfinished = some unfinished

  -- The loop of `waitForUpdate`: each round waits for a tick or for the end of the context.
  unfoldable pub wait_for_update : (rounds interval : ℕ) → UpdateRef → Text → M W Unit
  unfolding poll_verdict
  wait_for_update zero interval ref what w = (unfinished, w)
  wait_for_update (suc rounds) interval ref what w =
      let (ended, v) = p.env.sleep interval w in
      let (r, u) = with_retry p.env default_retry_config (p.eks.describe_update ref) v in
      let again = λ (x : W). wait_for_update rounds interval ref what x in
      elim ended [
        | some e ↦ (failed e, v)
        | none ↦ elim (poll_verdict what r) [ some verdict ↦ (verdict, u) | none ↦ again u ]
      ]
