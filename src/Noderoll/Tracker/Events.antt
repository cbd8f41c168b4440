-- ===== src/Noderoll/Tracker/Events.antt =====
-- What the events of one snapshot do to the phases before it.
use refresh.Prelude.{
  ◌≡◌, refl, sym, ap, ◌∙◌, ◌≢◌, ◌⊎◌, inl, inr, true, false, Bool-cases, List, [], ◌∷◌, ◌++◌, Option,
  none, some, Option-cases, if◌then◌else◌,
}
use mathlib.Core.Path.{fun_ext}
use refresh.Text.{Text, text_eq, text_eq_iff}
use refresh.Noderoll.{NodePhase, phase_ready, phase_joining, phase_draining, NodeView}
use refresh.Noderoll.Tracker.{
  EventKind, evt_joining, evt_online, evt_draining, evt_terminated, Event, Phases, assign_phase,
  phases_from, event_for_phase, is_same, changes, departures,
}

-- What a kind says of its node.
abbrev pub phase_after : EventKind → Option NodePhase
phase_after evt_joining = some phase_joining
phase_after evt_online = some phase_ready
phase_after evt_draining = some phase_draining
phase_after evt_terminated = none

abbrev pub after_event : Event → Phases → Phases
after_event e phases n = if text_eq n e.node then phase_after e.kind else phases n

abbrev pub replay : Phases → List Event → Phases
replay phases [] = phases
replay phases (e ∷ es) = replay (after_event e phases) es

pub replay-append :
    (phases : Phases) (es fs : List Event) → replay phases (es ++ fs) ≡ replay (replay phases es) fs
replay-append phases [] fs = refl
replay-append phases (e ∷ es) fs = replay-append (after_event e phases) es fs

-- No node of the list has the name.
abbrev pub Absent : Text → List NodeView → Type 0
Absent name [] = Unit
Absent name (v ∷ vs) = (v.name ≢ name) × Absent name vs

-- The names of the nodes are all different.
abbrev pub Distinct : List NodeView → Type 0
Distinct [] = Unit
Distinct (v ∷ vs) = Absent v.name vs × Distinct vs

abbrev pub Listed : Text → List Text → Type 0
Listed name [] = ⊥
Listed name (n ∷ ns) = (name ≡ n) ⊎ Listed name ns

-- The order takes every name of the map.
abbrev pub Covers : List Text → Phases → Type 0
Covers order phases = (name : Text) → phases name ≢ none → Listed name order

text_eq-ne : (s t : Text) → s ≢ t → text_eq s t ≡ false
text_eq-ne s t differ = elim (Bool-cases (text_eq s t)) [
  | inl same ↦ absurd (differ ((text_eq_iff s t).0 same))
  | inr other ↦ other
]

is_same-eq : (old : Option NodePhase) (p : NodePhase) → is_same old p ≡ true → old ≡ some p
is_same-eq none p h = cc
is_same-eq (some phase_ready) phase_ready h = refl
is_same-eq (some phase_joining) phase_joining h = refl
is_same-eq (some phase_draining) phase_draining h = refl
is_same-eq (some _) _ h = cc

phase_after-event : (p : NodePhase) → phase_after (event_for_phase p) ≡ some p
unfolding event_for_phase
phase_after-event phase_ready = refl
phase_after-event phase_joining = refl
phase_after-event phase_draining = refl

-- An assignment of the phase that is there changes nothing.
assign_phase-same :
    (name : Text) (p : NodePhase) (phases : Phases)
    → phases name ≡ some p
    → (n : Text) → assign_phase name p phases n ≡ phases n
assign_phase-same name p phases h n = elim (Bool-cases (text_eq n name)) [
  | inl same ↦ rw same (sym h ∙ ap phases (sym ((text_eq_iff n name).0 same)))
  | inr other ↦ rw other refl
]

-- Where the phases are as in the snapshot before on the nodes of the list.
abbrev pub Agree : Phases → Phases → List NodeView → Type 0
Agree phases prev [] = Unit
Agree phases prev (v ∷ vs) = (phases v.name ≡ prev v.name) × Agree phases prev vs

Agree-assign :
    (name : Text) (p : NodePhase) (phases prev : Phases) (vs : List NodeView)
    → Absent name vs
    → Agree phases prev vs
    → Agree (assign_phase name p phases) prev vs
Agree-assign name p phases prev [] absent agree = tt
Agree-assign name p phases prev (v ∷ vs) (differ, absent) (same, agree) =
    (rw (text_eq-ne v.name name differ) same, Agree-assign name p phases prev vs absent agree)

pub replay-changes :
    (prev phases : Phases) (vs : List NodeView)
    → Distinct vs
    → Agree phases prev vs
    → replay phases (changes prev vs) ≡ phases_from phases vs
unfolding changes phases_from
replay-changes prev phases [] distinct agree = refl
replay-changes prev phases (v ∷ vs) (absent, distinct) (same, agree) =
    elim (Bool-cases (is_same (prev v.name) v.phase)) [
      | inl kept ↦ rw kept (
          replay-changes prev phases vs distinct agree
          ∙ ap (λ (x : Phases). phases_from x vs)
              (sym
                (fun_ext (assign_phase-same v.name v.phase phases (same ∙ is_same-eq _ _ kept)))))
      | inr changed ↦ rw changed (
          ap
            (λ (p : Option NodePhase).
              replay (λ n. if text_eq n v.name then p else phases n) (changes prev vs))
            (phase_after-event v.phase)
          ∙ replay-changes prev (assign_phase v.name v.phase phases) vs distinct
              (Agree-assign v.name v.phase phases prev vs absent agree))
    ]

-- At a name a list either assigns, whatever was there, or leaves what was there.
pub phases_from-cases :
    (vs : List NodeView) (n : Text)
    → ((a b : Phases) → phases_from a vs n ≡ phases_from b vs n)
      ⊎ ((a : Phases) → phases_from a vs n ≡ a n)
unfolding phases_from
phases_from-cases [] n = inr (λ a. refl)
phases_from-cases (v ∷ vs) n = elim (phases_from-cases vs n) [
  | inl fixed ↦ inl (λ a b. fixed (assign_phase v.name v.phase a) (assign_phase v.name v.phase b))
  | inr left ↦ elim (Bool-cases (text_eq n v.name)) [
    | inl same ↦ inl (λ a b.
        left (assign_phase v.name v.phase a)
        ∙ rw same (sym (left (assign_phase v.name v.phase b) ∙ rw same refl)))
    | inr other ↦ inr (λ a. left (assign_phase v.name v.phase a) ∙ rw other refl)
  ]
]

abbrev gone : Text → Event
gone name = record { node = name; kind = evt_terminated }

-- Departures leave the nodes that are there.
pub departures-kept :
    (cur phases : Phases) (order : List Text) (n : Text) (p : NodePhase)
    → cur n ≡ some p
    → replay phases (departures cur order) n ≡ phases n
unfolding departures
departures-kept cur phases [] n p there = refl
departures-kept cur phases (m ∷ ms) n p there = elim (Option-cases (cur m)) [
  | inr (q, stays) ↦ rw (departures, stays) (departures-kept cur phases ms n p there)
  | inl left ↦
      rw (departures, left)
        (departures-kept cur (after_event (gone m) phases) ms n p there
          ∙ rw (text_eq-ne n m (λ e. none_absurd (sym left ∙ ap cur (sym e) ∙ there))) refl)
]
  where
    none_absurd : {A B : Type 0} {x : A} → none ≡ some x → B
    none_absurd h = cc

pub departures-none :
    (cur phases : Phases) (order : List Text) (n : Text)
    → phases n ≡ none
    → cur n ≡ none
    → replay phases (departures cur order) n ≡ none
unfolding departures
departures-none cur phases [] n free there = free
departures-none cur phases (m ∷ ms) n free there = elim (Option-cases (cur m)) [
  | inr (q, stays) ↦ rw (departures, stays) (departures-none cur phases ms n free there)
  | inl left ↦
      rw (departures, left)
        (departures-none cur (after_event (gone m) phases) ms n (gone-none m) there)
]
  where
    gone-none : (m : Text) → after_event (gone m) phases n ≡ none
    gone-none m = elim (Bool-cases (text_eq n m)) [
      | inl same ↦ rw same refl
      | inr other ↦ rw other free
    ]

pub departures-Listed :
    (cur phases : Phases) (order : List Text) (n : Text)
    → cur n ≡ none
    → Listed n order
    → replay phases (departures cur order) n ≡ none
unfolding departures
departures-Listed cur phases [] n there listed = elim listed [ ]
departures-Listed cur phases (m ∷ ms) n there (inl same) =
    rw (departures, sym (ap cur same) ∙ there)
      (departures-none cur (after_event (gone m) phases) ms n (rw ((text_eq_iff n m).1 same) refl)
        there)
departures-Listed cur phases (m ∷ ms) n there (inr later) = elim (Option-cases (cur m)) [
  | inr (q, stays) ↦ rw (departures, stays) (departures-Listed cur phases ms n there later)
  | inl left ↦
      rw (departures, left) (departures-Listed cur (after_event (gone m) phases) ms n there later)
]
