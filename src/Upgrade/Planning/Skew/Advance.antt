-- ===== src/Upgrade/Planning/Skew/Advance.antt =====
-- Where the simulation puts the nodegroups behind a hop.
use refresh.Prelude.{
  ◌≡◌, refl, inl, inr, Bool, true, false, not, ◌&&◌, List, [], ◌∷◌, Bool-cases, if◌then◌else◌,
}
use refresh.Text.{Text, text_eq, text_eq_iff}
use refresh.Upgrade.Version.{version_at_least}
use refresh.Upgrade.Service.{NodegroupState, matches_any}
use refresh.Upgrade.Planning.Skew.{Simulation, assign, advance}

-- The nodegroups that a hop rolls are at its target, by the simulation.
abbrev pub AtTarget : Text → List Text → List NodegroupState → Simulation → Type 0
AtTarget hop_to skip [] sim = Unit
AtTarget hop_to skip (ng ∷ ngs) sim =
    (ng.custom_ami ≡ false
      → matches_any ng.name skip ≡ false
      → version_at_least (sim ng.name) hop_to ≡ true)
    × AtTarget hop_to skip ngs sim

module _ (hop_to : Text) (skip : List Text) (valid : version_at_least hop_to hop_to ≡ true) where
  assign-keeps :
      (sim : Simulation) (name n : Text) (b : Bool)
      → version_at_least (sim n) hop_to ≡ true
      → version_at_least ((if b then assign sim name hop_to else sim) n) hop_to ≡ true
  assign-keeps sim name n false h = h
  assign-keeps sim name n true h = elim (Bool-cases (text_eq name n)) [
    | inl e ↦ rw e valid
    | inr e ↦ rw e h
  ]

  advance-keeps :
      (ngs : List NodegroupState) (sim : Simulation) (n : Text)
      → version_at_least (sim n) hop_to ≡ true
      → version_at_least (advance hop_to skip ngs sim n) hop_to ≡ true
  unfolding advance
  advance-keeps [] sim n h = h
  advance-keeps (ng ∷ ngs) sim n h = advance-keeps ngs _ n (assign-keeps sim ng.name n _ h)

  assign-reaches :
      (sim : Simulation) (name : Text) (custom skipped behind : Bool)
      → custom ≡ false
      → skipped ≡ false
      → version_at_least (sim name) hop_to ≡ behind
      → version_at_least
          ((if not custom && not skipped && not behind then assign sim name hop_to else sim) name)
          hop_to
        ≡ true
  assign-reaches sim name false false true c k b = b
  assign-reaches sim name false false false c k b = rw ((text_eq_iff name name).1 refl) valid
  assign-reaches sim name true skipped behind c k b = cc
  assign-reaches sim name false true behind c k b = cc

  -- Whatever the simulation said before a hop, behind it every nodegroup that the hop may roll
  -- is at the hop's target or past it, where the target is a version at all.
  pub advance-AtTarget :
      (ngs : List NodegroupState) (sim : Simulation)
      → AtTarget hop_to skip ngs (advance hop_to skip ngs sim)
  unfolding advance
  advance-AtTarget [] sim = tt
  advance-AtTarget (ng ∷ ngs) sim = (
    λ managed kept.
        advance-keeps ngs _ ng.name (assign-reaches sim ng.name _ _ _ managed kept refl),
    advance-AtTarget ngs _,
  )
