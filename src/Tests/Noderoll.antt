-- ===== src/Tests/Noderoll.antt =====
-- A nodegroup of two nodes, one of which is replaced.
use refresh.Prelude.{
  ◌∙◌, ℕ, ◌≡◌, refl, ◌≢◌, inl, inr, Bool, true, false, Bool-cases, sym, List, [], ◌∷◌, map, none,
}
use mathlib.Core.Path.{subst}
use refresh.Text.{Text, txt, text_eq, text_eq_iff, compare_text}
use refresh.Go.{ok}
use refresh.Noderoll.{
  Node, Pod, NodePhase, phase_ready, phase_joining, phase_draining, NodeView, classify,
  is_evictable_pod,
}
use refresh.Noderoll.Snapshots.{Snapshot, Observer, Kube, pods_on, snapshot}
use refresh.Noderoll.Snapshots.Reports.{Reports, snapshot-Reports}
use refresh.Noderoll.Tracker.{
  no_phases, new_tracker, Phases, assign_phase, phases_from, observe_snapshot, observe_all,
}
use refresh.Noderoll.Tracker.Events.{replay, Listed, Covers}
use refresh.Noderoll.Tracker.Replay.{Fit, events-replay}

abbrev node_named : Text → (cordoned : Bool) → Node
node_named name cordoned = record {
  name = name;
  unschedulable = cordoned;
  taint_keys = [];
  labels = λ label. txt "ami-1";
  conditions = record { type = txt "Ready"; status = txt "True" } ∷ [];
}

abbrev pod_on : Text → Pod
pod_on name = record {
  node_name = name;
  phase = txt "Running";
  annotations = λ key. none;
  owner_kinds = txt "ReplicaSet" ∷ [];
}

abbrev listing : List Node
listing = node_named (txt "b") false ∷ node_named (txt "a") true ∷ []

abbrev kube : Kube Unit
kube = record {
  list_nodes = λ w. (ok listing, w);
  list_pods = λ w. (ok (pod_on (txt "a") ∷ pod_on (txt "b") ∷ []), w);
}

abbrev watcher : Observer
watcher = record { baseline = none; drain_start = λ name. none }

abbrev seen_view : Text → NodePhase → ℕ → NodeView
seen_view name phase n = record {
  name = name;
  on_target = false;
  ready = true;
  phase = phase;
  pods = n;
  pods_total = n;
  pressure = [];
}

abbrev seen : Snapshot
seen = record {
  nodes = seen_view (txt "a") phase_draining 1 ∷ seen_view (txt "b") phase_ready 0 ∷ [];
  total = 2;
  ready_target = 0;
  draining = 1;
  joining = 0;
}

seen_first : (snapshot kube (txt "ami-2") watcher tt).0 ≡ ok seen
unfolding snapshot classify text_eq compare_text pods_on is_evictable_pod
seen_first = refl

snapshot-Reports_example :
    (nodes : List Node) × (ok listing ≡ ok nodes)
    × Reports (map (classify (txt "ami-2") none) nodes) seen
snapshot-Reports_example = snapshot-Reports kube (txt "ami-2") watcher tt seen seen_first

abbrev order1 : List Text
order1 = txt "b" ∷ txt "a" ∷ []

abbrev order2 : List Text
order2 = txt "a" ∷ txt "c" ∷ txt "b" ∷ []

abbrev roll : List (List Text × List NodeView)
roll =
    (
      order1,
      seen_view (txt "a") phase_draining 3
          ∷ seen_view (txt "b") phase_ready 0
          ∷ seen_view (txt "c") phase_joining 0
          ∷ [],
    )
    ∷ (order2, seen_view (txt "b") phase_ready 0 ∷ seen_view (txt "c") phase_ready 0 ∷ [])
    ∷ []

abbrev at_start : List NodeView
at_start = seen_view (txt "a") phase_ready 0 ∷ seen_view (txt "b") phase_ready 0 ∷ []

apart : (s t : Text) → text_eq s t ≡ false → s ≢ t
apart s t differ e = absurd (false_true (sym differ ∙ (text_eq_iff s t).1 e))
  where
    false_true : false ≡ true → ⊥
    false_true k = cc

Covers-assign :
    (order : List Text) (name : Text) (p : NodePhase) (phases : Phases)
    → Listed name order
    → Covers order phases
    → Covers order (assign_phase name p phases)
Covers-assign order name p phases listed covers n there = elim (Bool-cases (text_eq n name)) [
  | inl same ↦ subst (λ m. Listed m order) (sym ((text_eq_iff n name).0 same)) listed
  | inr other ↦ covers n (rw other at there)
]

Covers-none : (order : List Text) → Covers order no_phases
Covers-none order n there = absurd (there refl)

roll-Fit : Fit (observe_snapshot [] new_tracker at_start) roll
unfolding observe_snapshot phases_from text_eq
roll-Fit = (
  ((apart _ _ refl, (apart _ _ refl, tt)), ((apart _ _ refl, tt), (tt, tt))),
  Covers-assign order1 (txt "b") phase_ready _ (inl refl)
      (Covers-assign order1 (txt "a") phase_ready _ (inr (inl refl)) (Covers-none order1)),
  (
    ((apart _ _ refl, tt), (tt, tt)),
    Covers-assign order2 (txt "c") phase_joining _ (inr (inl refl)) (
        Covers-assign order2 (txt "b") phase_ready _ (inr (inr (inl refl)))
          (Covers-assign order2 (txt "a") phase_draining _ (inl refl) (Covers-none order2))),
    tt,
  ),
)

events-replay_example :
    replay (phases_from no_phases at_start) (observe_all new_tracker (([], at_start) ∷ roll)).events
    ≡ (observe_all new_tracker (([], at_start) ∷ roll)).prev
events-replay_example = events-replay [] at_start roll roll-Fit
