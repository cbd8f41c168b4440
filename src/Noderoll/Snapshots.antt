-- ===== src/Noderoll/Snapshots.antt =====
-- internal/noderoll/observer.go: a snapshot, with its counts and the pods that are left on a node.
pub mod Counts
pub mod Reports
use refresh.Prelude.{
  ℕ, suc, Bool, true, false, ◌&&◌, List, [], ◌∷◌, ◌++◌, Option, none, some, ltb, if◌then◌else◌,
}
use refresh.Prelude.Int.{pos, ltb_ℤ}
use refresh.Text.{Text, text_eq, compare_text}
use refresh.Go.{Result, ok, err}
use refresh.Noderoll.{
  Node, Pod, NodePhase, phase_ready, phase_joining, phase_draining, NodeView, classify,
  is_evictable_pod,
}

-- The warnings are left out.
pub record Snapshot : Type 0 where
  pub nodes : List NodeView
  pub total : ℕ
  pub ready_target : ℕ
  pub draining : ℕ
  pub joining : ℕ

-- What an observer keeps: the nodes at the start of the roll, if they were captured, and the pods
-- that a node had when it was first seen draining.
pub record Observer : Type 0 where
  pub baseline : Option (Text → Bool)
  pub drain_start : Text → Option ℕ

-- The listings of a cluster: the API's or the informer's.
pub record Kube (W : Type 0) : Type 0 where
  pub list_nodes : W → Result (List Node) × W
  pub list_pods : W → Result (List Pod) × W

abbrev pub is_draining : NodeView → Bool
is_draining v = elim v.phase [ phase_draining ↦ true | _ ↦ false ]

abbrev pub is_joining : NodeView → Bool
is_joining v = elim v.phase [ phase_joining ↦ true | _ ↦ false ]

abbrev pub is_ready_target : NodeView → Bool
is_ready_target v = elim v.phase [ phase_ready ↦ v.on_target | _ ↦ false ]

abbrev pub one_more : Bool → ℕ → ℕ
one_more b n = if b then suc n else n

abbrev pub no_nodes : Snapshot
no_nodes = record { nodes = []; total = 0; ready_target = 0; draining = 0; joining = 0 }

-- One round of the loop of `Snapshot`.
unfoldable pub add_view : Snapshot → NodeView → Snapshot
add_view s v = record {
  nodes = s.nodes ++ v ∷ [];
  total = suc s.total;
  ready_target = one_more (is_ready_target v) s.ready_target;
  draining = one_more (is_draining v) s.draining;
  joining = one_more (is_joining v) s.joining;
}

unfoldable pub add_nodes :
    (target_ami : Text) → Option (Text → Bool) → Snapshot → List Node → Snapshot
unfolding add_view
add_nodes target_ami baseline s [] = s
add_nodes target_ami baseline s (n ∷ ns) =
    add_nodes target_ami baseline (add_view s (classify target_ami baseline n)) ns

-- The evictable pods of a node.
unfoldable pub pods_on : List Pod → Text → ℕ
pods_on [] name = 0
pods_on (p ∷ ps) name = one_more (is_evictable_pod p && text_eq p.node_name name) (pods_on ps name)

started : (Text → Option ℕ) → Text → ℕ → (Text → Option ℕ)
started drain_start name n m = elim (drain_start name) [
  | some _ ↦ drain_start m
  | none ↦ if text_eq m name then some n else drain_start m
]

total_of : Option ℕ → ℕ
total_of none = 0
total_of (some n) = n

-- One round of the loop of `fillPodEviction`.
unfoldable pub fill_view : List Pod → (Text → Option ℕ) → NodeView → NodeView × (Text → Option ℕ)
unfolding started total_of
fill_view pods drain_start v =
    let n = pods_on pods v.name in
    let later = started drain_start v.name n in
    if is_draining v
    then (record v { pods = n; pods_total = total_of (later v.name) }, later)
    else (v, drain_start)

unfoldable pub fill_views :
    List Pod → (Text → Option ℕ) → List NodeView → List NodeView × (Text → Option ℕ)
unfolding fill_view
fill_views pods drain_start [] = ([], drain_start)
fill_views pods drain_start (v ∷ vs) =
    let (v', later) = fill_view pods drain_start v in
    let (vs', last) = fill_views pods later vs in (v' ∷ vs', last)

-- `fillPodEviction` behind the listing: a failed one changes nothing.
unfoldable pub fill_pod_eviction : Result (List Pod) → Observer → Snapshot → Snapshot × Observer
unfolding fill_views
fill_pod_eviction (err e) o s = (s, o)
fill_pod_eviction (ok pods) o s =
    let (vs, later) = fill_views pods o.drain_start s.nodes in
    (record s { nodes = vs }, record o { drain_start = later })

unfoldable pub insert_view : NodeView → List NodeView → List NodeView
insert_view v [] = v ∷ []
insert_view v (u ∷ us) =
    let rest = insert_view v us in
    if ltb_ℤ (compare_text u.name v.name) (pos 0) then u ∷ rest else v ∷ u ∷ us

-- The sort by name; the names of nodes are all different.
unfoldable pub sort_views : List NodeView → List NodeView
unfolding insert_view
sort_views [] = []
sort_views (v ∷ vs) = insert_view v (sort_views vs)

sorted_snapshot : Snapshot × Observer → Result Snapshot × Observer
unfolding sort_views
sorted_snapshot (s, o) = (ok (record s { nodes = sort_views s.nodes }), o)

names_of : List Node → (Text → Bool)
names_of [] name = false
names_of (n ∷ ns) name = if text_eq name n.name then true else names_of ns name

module _ {W : Type 0} (k : Kube W) (target_ami : Text) where
  captured : Observer → Result (List Node) → Result (Unit {0}) × Observer
  unfolding names_of
  captured o (err e) = (err e, o)
  captured o (ok nodes) = (ok tt, record o { baseline = some (names_of nodes) })

  -- `CaptureBaseline`
  unfoldable pub capture_baseline : Observer → W → Result (Unit {0}) × Observer × W
  unfolding captured
  capture_baseline o w =
      let (r, v) = k.list_nodes w in let (done, o') = captured o r in (done, o', v)

  -- Behind the listing of the nodes; the pods are listed where a node is draining.
  unfoldable pub snapshot_of : Observer → List Node → W → Result Snapshot × Observer × W
  unfolding sorted_snapshot fill_pod_eviction add_nodes
  snapshot_of o nodes w =
      let s = add_nodes target_ami o.baseline no_nodes nodes in
      let (pods, v) = k.list_pods w in
      let (r, o') = sorted_snapshot (fill_pod_eviction pods o s) in
      let (r0, o0) = sorted_snapshot (s, o) in if ltb 0 s.draining then (r, o', v) else (r0, o0, w)

  snapshot_from : Observer → Result (List Node) × W → Result Snapshot × Observer × W
  unfolding snapshot_of
  snapshot_from o (err e, w) = (err e, o, w)
  snapshot_from o (ok nodes, w) = snapshot_of o nodes w

  -- `Snapshot`
  unfoldable pub snapshot : Observer → W → Result Snapshot × Observer × W
  unfolding snapshot_from
  snapshot o w = snapshot_from o (k.list_nodes w)
