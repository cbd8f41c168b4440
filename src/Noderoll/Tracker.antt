-- ===== src/Noderoll/Tracker.antt =====
-- internal/noderoll/tracker.go: the events that successive snapshots stand for.
pub mod Events
pub mod Replay
use refresh.Prelude.{
  ℕ, ◌-◌, Bool, true, false, List, [], ◌∷◌, ◌++◌, Option, none, some, leb, length, drop,
  if◌then◌else◌,
}
use refresh.Text.{Text, text_eq}
use refresh.Noderoll.{NodePhase, phase_ready, phase_joining, phase_draining, NodeView}

pub data EventKind : Type 0 where
  evt_joining evt_online evt_draining evt_terminated : EventKind

pub record Event : Type 0 where
  pub node : Text
  pub kind : EventKind

-- The phases of the nodes by their names.
abbrev pub Phases : Type 0
Phases = Text → Option NodePhase

-- `prev` and `seeded`, and the events so far.
pub record Tracker : Type 0 where
  pub prev : Phases
  pub seeded : Bool
  pub events : List Event

abbrev pub no_phases : Phases
no_phases name = none

-- `NewTracker`
abbrev pub new_tracker : Tracker
new_tracker = record { prev = no_phases; seeded = false; events = [] }

abbrev pub assign_phase : Text → NodePhase → Phases → Phases
assign_phase name p phases n = if text_eq n name then some p else phases n

-- The phases of a snapshot: of two nodes with one name the later one counts.
unfoldable pub phases_from : Phases → List NodeView → Phases
phases_from phases [] = phases
phases_from phases (v ∷ vs) = phases_from (assign_phase v.name v.phase phases) vs

abbrev pub same_phase : NodePhase → NodePhase → Bool
same_phase phase_ready phase_ready = true
same_phase phase_joining phase_joining = true
same_phase phase_draining phase_draining = true
same_phase _ _ = false

-- `eventForPhase`; every phase has its event.
unfoldable pub event_for_phase : NodePhase → EventKind
event_for_phase phase_joining = evt_joining
event_for_phase phase_ready = evt_online
event_for_phase phase_draining = evt_draining

abbrev pub is_same : Option NodePhase → NodePhase → Bool
is_same none p = false
is_same (some old) p = same_phase old p

-- The nodes that have appeared or changed their phase.
unfoldable pub changes : Phases → List NodeView → List Event
unfolding event_for_phase
changes prev [] = []
changes prev (v ∷ vs) =
    let rest = changes prev vs in
    if is_same (prev v.name) v.phase
    then rest
    else record { node = v.name; kind = event_for_phase v.phase } ∷ rest

-- The nodes that have left, in the order in which the loop over the map comes to them.
unfoldable pub departures : Phases → (order : List Text) → List Event
departures cur [] = []
departures cur (name ∷ names) =
    let rest = departures cur names in
    elim (cur name) [ some _ ↦ rest | none ↦ record { node = name; kind = evt_terminated } ∷ rest ]

-- `Observe`, with the order in which the loop over `prev` takes its names.
unfoldable pub observe_snapshot : (order : List Text) → Tracker → List NodeView → Tracker
unfolding phases_from changes departures
observe_snapshot order t nodes =
    let cur = phases_from no_phases nodes in
    if t.seeded
    then (record {
      prev = cur;
      seeded = true;
      events = t.events ++ (changes t.prev nodes ++ departures cur order);
    })
    else record t { prev = cur; seeded = true }

-- `Recent`, for n ≥ 0.
unfoldable pub recent : ℕ → Tracker → List Event
recent n t =
    if leb n 0
    then t.events
    else if leb (length t.events) n
    then t.events
    else drop (length t.events - n) t.events

-- Snapshots one behind the other, each with its order.
unfoldable pub observe_all : Tracker → List (List Text × List NodeView) → Tracker
unfolding observe_snapshot
observe_all t [] = t
observe_all t ((order, nodes) ∷ more) = observe_all (observe_snapshot order t nodes) more
