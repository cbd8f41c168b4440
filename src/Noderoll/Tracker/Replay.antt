-- ===== src/Noderoll/Tracker/Replay.antt =====
-- The events of a tracker, replayed over the phases at its start.
use refresh.Prelude.{
  ◌≡◌, refl, sym, ap, ◌∙◌, inl, inr, true, List, [], ◌∷◌, ◌++◌, none, some, Option-cases,
}
use mathlib.Core.Path.{fun_ext}
use refresh.Text.{Text}
use refresh.Noderoll.{NodePhase, NodeView}
use refresh.Noderoll.Tracker.{
  Phases, Tracker, no_phases, new_tracker, phases_from, changes, departures, observe_snapshot,
  observe_all,
}
use refresh.Noderoll.Tracker.Events.{
  replay, replay-append, Distinct, Covers, Agree, replay-changes, phases_from-cases,
  departures-kept, departures-none, departures-Listed,
}

-- The changes and the departures together lead from the phases before to those of the snapshot.
replay-observed :
    (prev : Phases) (order : List Text) (vs : List NodeView)
    → Distinct vs
    → Covers order prev
    → replay prev (changes prev vs ++ departures (phases_from no_phases vs) order)
      ≡ phases_from no_phases vs
replay-observed prev order vs distinct covers =
    replay-append prev (changes prev vs) (departures cur order)
    ∙ ap (λ (x : Phases). replay x (departures cur order))
        (replay-changes prev prev vs distinct (Agree-refl vs))
    ∙ fun_ext departed
  where
    cur : Phases
    cur = phases_from no_phases vs

    Agree-refl : (us : List NodeView) → Agree prev prev us
    Agree-refl [] = tt
    Agree-refl (u ∷ us) = (refl, Agree-refl us)

    kept : (n : Text) (p : NodePhase) → cur n ≡ some p → phases_from prev vs n ≡ some p
    kept n p there = elim (phases_from-cases vs n) [
      | inl fixed ↦ fixed prev no_phases ∙ there
      | inr left ↦ absurd (none_some (sym (left no_phases) ∙ there))
    ]
      where
        none_some : none ≡ some p → ⊥
        none_some h = cc

    left_out : (n : Text) → cur n ≡ none → prev n ≡ none → phases_from prev vs n ≡ none
    left_out n there before = elim (phases_from-cases vs n) [
      | inl fixed ↦ fixed prev no_phases ∙ there
      | inr left ↦ left prev ∙ before
    ]

    departed : (n : Text) → replay (phases_from prev vs) (departures cur order) n ≡ cur n
    departed n = elim (Option-cases (cur n)) [
      | inr (p, there) ↦
          departures-kept cur (phases_from prev vs) order n p there ∙ kept n p there ∙ sym there
      | inl there ↦ elim (Option-cases (prev n)) [
        | inl before ↦
            departures-none cur (phases_from prev vs) order n (left_out n there before) there
            ∙ sym there
        | inr (q, before) ↦
            departures-Listed cur (phases_from prev vs) order n there
              (covers n (λ e. some_none (sym before ∙ e)))
            ∙ sym there
      ]
    ]
      where
        some_none : {q : NodePhase} → some q ≡ none → ⊥
        some_none h = cc

-- Each snapshot has nodes of different names, and the loop over the phases before takes all names.
abbrev pub Fit : Tracker → List (List Text × List NodeView) → Type 0
Fit t [] = Unit
Fit t ((order, nodes) ∷ more) =
    Distinct nodes × Covers order t.prev × Fit (observe_snapshot order t nodes) more

observe_snapshot-replay :
    (base : Phases) (order : List Text) (t : Tracker) (nodes : List NodeView)
    → t.seeded ≡ true
    → replay base t.events ≡ t.prev
    → Distinct nodes
    → Covers order t.prev
    → ((observe_snapshot order t nodes).seeded ≡ true)
      × (replay base (observe_snapshot order t nodes).events
          ≡ (observe_snapshot order t nodes).prev)
unfolding observe_snapshot
observe_snapshot-replay base order t nodes seeded told distinct covers =
    rw (observe_snapshot, seeded)
      (
        refl,
        replay-append base t.events
              (changes t.prev nodes ++ departures (phases_from no_phases nodes) order)
            ∙ ap
                (λ (x : Phases).
                  replay x (changes t.prev nodes ++ departures (phases_from no_phases nodes) order))
                told
            ∙ replay-observed t.prev order nodes distinct covers,
      )

observe_all-replay :
    (base : Phases) (t : Tracker) (more : List (List Text × List NodeView))
    → t.seeded ≡ true
    → replay base t.events ≡ t.prev
    → Fit t more
    → replay base (observe_all t more).events ≡ (observe_all t more).prev
unfolding observe_all
observe_all-replay base t [] seeded told fit = told
observe_all-replay base t ((order, nodes) ∷ more) seeded told (distinct, covers, fit) =
    let (seeded', told') = observe_snapshot-replay base order t nodes seeded told distinct covers in
    observe_all-replay base (observe_snapshot order t nodes) more seeded' told' fit

-- Whatever the order in which the loops over the map take its names: where the nodes of a snapshot
-- have different names, the events of a tracker, replayed over the phases of its first snapshot,
-- lead to the phases of its last one.
pub events-replay :
    (order : List Text) (nodes : List NodeView) (more : List (List Text × List NodeView))
    → Fit (observe_snapshot order new_tracker nodes) more
    → replay (phases_from no_phases nodes) (observe_all new_tracker ((order, nodes) ∷ more)).events
      ≡ (observe_all new_tracker ((order, nodes) ∷ more)).prev
unfolding observe_all observe_snapshot
events-replay order nodes more fit =
    observe_all-replay (phases_from no_phases nodes) (observe_snapshot order new_tracker nodes) more
      refl refl fit
