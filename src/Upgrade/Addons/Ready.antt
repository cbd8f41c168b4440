-- ===== src/Upgrade/Addons/Ready.antt =====
-- What the addon phase guarantees when it ends without an error.
use refresh.Prelude.{
  ℕ, ◌≡◌, refl, sym, ap, ◌∙◌, ◌⊎◌, inl, inr, true, false, Bool-cases, List, [], ◌∷◌, Option, none,
  some,
}
use refresh.Prelude.Int.{pos, leb_ℤ}
use refresh.Text.{Text, txt, text_eq, text_eq_iff}
use refresh.Go.{
  GoError, Outcome, returned, throw, and_then-eq-returned, returned-eq, map_failure-eq-returned,
}
use refresh.Eks.{AddonStatus, Addon, Platform}
use refresh.Addons.Versions.{compare_versions}
use refresh.Addons.Service.{AddonSummary, list_addons, describe_addon_retrying}
use refresh.Addons.Service.Available.{addon_status-Described}
use refresh.Addons.Dependency.{sort_by_dependency}
use refresh.Addons.Health.{Memo, lifted, lifted-eq-returned}
use refresh.Addons.Update.{AddonUpdateResult}
use refresh.Addons.Update.Completed.{Healthy, update_addon-Healthy}
use refresh.Upgrade.Service.{matches_any}
use refresh.Upgrade.Addons.{
  in_flight, phase_options, attach, version_of, status_behind, reread, settled, chosen_version,
  current_addon, healthy, run_update, converge_addon, toward, upgrade_addon, upgrade_each, ordered,
  no_memo, forget, in_order, sorted, upgrade_addons,
}

module _ {W : Type 0} (p : Platform W) (fuel interval : ℕ) (cluster target : Text) where
  -- The addon was described at the end of the run, with this version.
  abbrev Described : (name version : Text) → W → Type 0
  Described name version end =
      (v : W) × (a : Addon) × (describe_addon_retrying p fuel cluster name v
        ≡ (returned (some a), end))
      × (a.version ≡ version)

  status_behind-Described :
      (name what : Text) (now : Text × AddonStatus) (w end : W)
      → status_behind p fuel interval cluster target name what w ≡ (returned now, end)
      → Described name now.0 end
  unfolding status_behind
  status_behind-Described name what now w end h =
      addon_status-Described p fuel cluster name now w end (map_failure-eq-returned _ _ h)

  version_of-Described :
      (name x : Text) (now : Text × AddonStatus) (w end : W)
      → Described name now.0 w
      → version_of p fuel interval cluster target now w ≡ (returned x, end)
      → Described name x end
  unfolding version_of
  version_of-Described name x (current, status) w end (v, a, d, e) h =
      (v, a, d ∙ ap (λ (r : Outcome Text × W). (returned (some a), r.1)) h, e ∙ returned-eq h)

  settled-Described :
      (name x : Text) (now : Text × AddonStatus) (w end : W)
      → Described name now.0 w
      → settled p fuel interval cluster target name now w ≡ (returned x, end)
      → Described name x end
  unfolding settled reread version_of
  settled-Described name x (current, status) w end seen h = elim (Bool-cases (in_flight status)) [
    | inr still ↦ version_of-Described name x (current, status) w end seen (rw still at h)
    | inl moving ↦
        let (_, v, _, h1) =
          and_then-eq-returned (attach p fuel interval cluster target name w)
            (λ _. reread p fuel interval cluster target name) (rw moving at h) in
        let (now, u, h2, h3) =
          and_then-eq-returned
            (status_behind p fuel interval cluster target name (txt "reading status after attach")
              v)
            (version_of p fuel interval cluster target) h1 in
        version_of-Described name x now u end (status_behind-Described name _ now v u h2) h3
  ]

  current_addon-Described :
      (name x : Text) (w end : W)
      → current_addon p fuel interval cluster target name w ≡ (returned x, end)
      → Described name x end
  unfolding current_addon
  current_addon-Described name x w end h =
      let (now, v, h1, h2) =
        and_then-eq-returned
          (status_behind p fuel interval cluster target name (txt "reading status") w)
          (settled p fuel interval cluster target name) h in
      settled-Described name x now v end (status_behind-Described name _ now w v h1) h2

  -- The addon was described at the end of the run: at the chosen version or past it, or active and
  -- with no issue behind an update to that version.
  abbrev pub Ready : (name chosen : Text) → W → Type 0
  Ready name chosen end =
      ((v : W) × (a : Addon) × (describe_addon_retrying p fuel cluster name v
          ≡ (returned (some a), end))
        × (leb_ℤ (pos 0) (compare_versions a.version chosen) ≡ true))
      ⊎ Healthy p fuel interval cluster name end

  healthy-eq :
      (name chosen : Text) (r : AddonUpdateResult) (w end : Memo × W)
      → healthy p fuel interval cluster target name chosen r w ≡ (returned tt, end)
      → (r.health_issues ≡ []) × (w ≡ end)
  unfolding healthy
  healthy-eq name chosen r w end h = elim (Bool-cases (text_eq r.health_issues [])) [
    | inl clean ↦ ((text_eq_iff r.health_issues []).0 clean, ap (λ x. x.1) (rw clean at h))
    | inr sick ↦ failed_absurd (rw sick at h)
  ]
    where
      failed_absurd :
          {A : Type 0} {e : GoError} {u v : Memo × W} → throw {A = Unit} e u ≡ (returned tt, v) → A
      failed_absurd k = cc

  converge_addon-Ready :
      (name chosen current : Text) (w end : Memo × W)
      → Described name current w.1
      → converge_addon p fuel interval cluster target name chosen current w ≡ (returned tt, end)
      → Ready name chosen end.1
  unfolding converge_addon run_update
  converge_addon-Ready name chosen current w end (v, a, d, e) h =
      elim (Bool-cases (leb_ℤ (pos 0) (compare_versions current chosen))) [
        | inl past ↦ inl (
          v,
          a,
          d ∙ ap (λ (r : Outcome Unit × (Memo × W)). (returned (some a), r.1.1)) (rw past at h),
          rw e past,
        )
        | inr older ↦
            let (result, u, h1, h2) =
              and_then-eq-returned (run_update p fuel interval cluster target name chosen w)
                (healthy p fuel interval cluster target name chosen) (rw older at h) in
            let (clean, same) = healthy-eq name chosen result u end h2 in
            inr (
              rw (sym same) (
                update_addon-Healthy p fuel interval cluster name (phase_options chosen) refl refl
                  result w u (map_failure-eq-returned _ _ h1) clean))
      ]

  -- A run for one addon that ends without an error leaves the addon ready for some version, which
  -- is the one that was chosen for the target.
  upgrade_addon-Ready :
      (name : Text) (w end : Memo × W)
      → upgrade_addon p fuel interval cluster target name w ≡ (returned tt, end)
      → (chosen : Text) × (v : W) × (chosen_version p fuel interval cluster target name w.1
          ≡ (returned chosen, v))
        × Ready name chosen end.1
  unfolding upgrade_addon toward
  upgrade_addon-Ready name (memo, w) end h =
      let (chosen, (memo1, v), h1, h2) =
        and_then-eq-returned (lifted (chosen_version p fuel interval cluster target name) (memo, w))
          (toward p fuel interval cluster target name) h in
      let (current, (memo2, u), h3, h4) =
        and_then-eq-returned (lifted (current_addon p fuel interval cluster target name) (memo1, v))
          (converge_addon p fuel interval cluster target name chosen) h2 in
      (
        chosen,
        v,
        lifted-eq-returned (chosen_version p fuel interval cluster target name) memo memo1 w v h1,
        converge_addon-Ready name chosen current (memo2, u) end
            (current_addon-Described name current v u (
              lifted-eq-returned (current_addon p fuel interval cluster target name) memo1 memo2 v u
                h3))
            h4,
      )

  -- The addons, one behind the other: each is skipped, or a version is chosen for it and it is left
  -- ready for that.
  pub data EachReady (skip : List Text) : List AddonSummary → W → W → Type 0 where
    all_done : (w : W) → EachReady skip [] w w
    passed_over :
        (a : AddonSummary) (addons : List AddonSummary) (w end : W)
        → matches_any a.name skip ≡ true
        → EachReady skip addons w end
        → EachReady skip (a ∷ addons) w end
    one_ready :
        (a : AddonSummary) (addons : List AddonSummary) (chosen : Text) (w v u end : W)
        → matches_any a.name skip ≡ false
        → chosen_version p fuel interval cluster target a.name w ≡ (returned chosen, v)
        → Ready a.name chosen u
        → EachReady skip addons u end
        → EachReady skip (a ∷ addons) w end

  upgrade_each-EachReady :
      (skip : List Text) (addons : List AddonSummary) (w end : Memo × W)
      → upgrade_each p fuel interval cluster target skip addons w ≡ (returned tt, end)
      → EachReady skip addons w.1 end.1
  unfolding upgrade_each
  upgrade_each-EachReady skip [] w end h =
      rw (ap (λ (r : Outcome Unit × (Memo × W)). r.1.1) h) (all_done end.1)
  upgrade_each-EachReady skip (a ∷ addons) w end h = elim (Bool-cases (matches_any a.name skip)) [
    | inl skipped ↦
        passed_over a addons w.1 end.1 skipped
          (upgrade_each-EachReady skip addons w end (rw skipped at h))
    | inr kept ↦
        let (_, u, h1, h2) =
          and_then-eq-returned (upgrade_addon p fuel interval cluster target a.name w)
            (λ _. upgrade_each p fuel interval cluster target skip addons) (rw kept at h) in
        let (chosen, v, c, ready) = upgrade_addon-Ready a.name w u h1 in
        one_ready a addons chosen w.1 v u.1 end.1 kept c ready
          (upgrade_each-EachReady skip addons u end h2)
  ]

  in_order-EachReady :
      (skip : List Text) (addons : List AddonSummary) (w end : W) (r : Outcome Unit × (Memo × W))
      → upgrade_each p fuel interval cluster target skip addons
          (no_memo p fuel interval cluster target, w)
        ≡ r
      → forget p fuel interval cluster target r ≡ (returned tt, end)
      → EachReady skip addons w end
  unfolding forget
  in_order-EachReady skip addons w end (o, (memo, v)) e h =
      upgrade_each-EachReady skip addons (no_memo p fuel interval cluster target, w) (memo, end)
        (e ∙ ap (λ (r : Outcome Unit × W). (r.0, (memo, r.1))) h)

  ordered-eq :
      (o : Option (List AddonSummary)) (addons : List AddonSummary) (w v : W)
      → ordered p fuel interval cluster target o w ≡ (returned addons, v)
      → (o ≡ some addons) × (w ≡ v)
  unfolding ordered
  ordered-eq none addons w v h = cc
  ordered-eq (some addons') addons w v h = (ap some (returned-eq h), ap (λ x. x.1) h)

  -- When `UpgradeAddons` returns no error, it has taken the addons that it listed in the order of
  -- their dependencies, and each is one that it skips, or was described at the end of its turn at
  -- the version chosen for the target or past it, or as active and with no issue behind an update.
  pub upgrade_addons-EachReady :
      (skip : List Text) (w end : W)
      → upgrade_addons p fuel interval cluster target skip w ≡ (returned tt, end)
      → (installed addons : List AddonSummary) × (v : W) × (list_addons p fuel false cluster w
          ≡ (returned installed, v))
        × (sort_by_dependency installed ≡ some addons)
        × EachReady skip addons v end
  unfolding upgrade_addons sorted in_order
  upgrade_addons-EachReady skip w end h =
      let (installed, v, h1, h2) =
        and_then-eq-returned (list_addons p fuel false cluster w)
          (sorted p fuel interval cluster target skip) h in
      let (addons, u, h3, h4) =
        and_then-eq-returned
          (ordered p fuel interval cluster target (sort_by_dependency installed) v)
          (in_order p fuel interval cluster target skip) h2 in
      let (order, same) = ordered-eq (sort_by_dependency installed) addons v u h3 in
      (
        installed,
        addons,
        v,
        h1,
        order,
        in_order-EachReady skip addons v end _ refl (rw (sym same) at h4),
      )
