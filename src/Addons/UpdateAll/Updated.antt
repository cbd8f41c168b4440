-- ===== src/Addons/UpdateAll/Updated.antt =====
-- What the results of an update of all addons say.
use mathlib.Core.Path.{subst}
use refresh.Prelude.{
  ℕ, ◌≡◌, refl, sym, ap, ◌∙◌, ◌≢◌, ◌⊎◌, inl, inr, true, false, Bool-cases, List, [], ◌∷◌, Option,
  none, some, if◌then◌else◌,
}
use refresh.Text.{Text, txt, text_eq, text_eq_iff}
use refresh.Go.{
  GoError, Outcome, returned, failed, unfinished, pure, ◌>>=◌, and_then-eq-returned, returned-eq,
  map_failure, map_failure-eq-returned,
}
use refresh.Eks.{Platform}
use refresh.Addons.Service.{AddonSummary, list_addons}
use refresh.Addons.Health.{wrap_with, Memo, lifted, lifted-eq-returned}
use refresh.Addons.Update.{AddonUpdateResult, update_addon}
use refresh.Addons.Update.Completed.{Healthy, update_addon-Healthy}
use refresh.Addons.UpdateAll.{
  UpdateAllOptions, addon_update_poll_interval, not_skipped, latest_options, failed_result,
  as_result, update_one, update_each, in_update_order, update_ordered, dispatch_each, update_listed,
  update_all,
}

module _ {W : Type 0} (p : Platform W) (fuel : ℕ) (cluster : Text)
    (options : UpdateAllOptions) where
  -- The result is that of an error, or names health issues, or the addon was described as active
  -- and with no issue at the end of its update.
  abbrev pub IsTold : AddonSummary → AddonUpdateResult → W → Type 0
  IsTold a r end =
      ((e : GoError) × (r ≡ failed_result a e))
      ⊎ ((r.health_issues ≢ []) ⊎ Healthy p fuel addon_update_poll_interval cluster a.name end)

  -- The addons, updated one behind the other, each with its result.
  pub data Updated : List AddonSummary → List AddonUpdateResult → W → W → Type 0 where
    all_updated : (w : W) → Updated [] [] w w
    one_updated :
        (a : AddonSummary) (addons : List AddonSummary) (r : AddonUpdateResult)
        (rs : List AddonUpdateResult) (w v end : W)
        → IsTold a r v
        → Updated addons rs v end
        → Updated (a ∷ addons) (r ∷ rs) w end

  Updated-eq :
      (addons : List AddonSummary) {rs rs' : List AddonUpdateResult} {w end end' : W}
      → rs ≡ rs'
      → end ≡ end'
      → Updated addons rs w end
      → Updated addons rs' w end'
  Updated-eq addons {rs} {rs'} {w} {end} {end'} k l u =
      subst (λ x. Updated addons rs' w x) l (subst (λ x. Updated addons x w end) k u)

  module _ (waits : options.wait ≡ true) (wet : options.dry_run ≡ false) where
    told :
        (a : AddonSummary) (r : AddonUpdateResult) (w end : Memo × W)
        (o : Outcome AddonUpdateResult × (Memo × W))
        → update_addon p fuel addon_update_poll_interval cluster a.name (latest_options options) w
          ≡ o
        → ◌≡◌ {A = Outcome AddonUpdateResult × (Memo × W)} (as_result a o.0, o.1) (returned r, end)
        → IsTold a r end.1
    unfolding as_result
    told a r w end (returned r', v) e h = elim (Bool-cases (text_eq r'.health_issues [])) [
      | inl clean ↦ inr (
          inr (
            subst (λ (x : Memo × W). Healthy p fuel addon_update_poll_interval cluster a.name x.1)
              (ap (λ x. x.1) h)
              (update_addon-Healthy p fuel addon_update_poll_interval cluster a.name
                (latest_options options) waits wet r' w v e
                ((text_eq_iff r'.health_issues []).0 clean))))
      | inr sick ↦ inr (
          inl (λ k. true_false (
            sym (
              (text_eq_iff r'.health_issues []).1
                (ap (λ (x : AddonUpdateResult). x.health_issues) (returned-eq h) ∙ k))
            ∙ sick)))
    ]
      where
        true_false : true ≡ false → ⊥
        true_false k = cc
    told a r w end (failed x, v) e h = inl (x, sym (returned-eq h))
    told a r w end (unfinished, v) e h = cc

    update_each-Updated :
        (addons : List AddonSummary) (rs : List AddonUpdateResult) (w end : Memo × W)
        → update_each p fuel cluster options addons w ≡ (returned rs, end)
        → Updated addons rs w.1 end.1
    unfolding update_each update_one
    update_each-Updated [] rs w end h =
        Updated-eq [] (returned-eq h) (ap (λ x. x.1.1) h) (all_updated w.1)
    update_each-Updated (a ∷ addons) rs w end h =
        let (r, v, h1, h2) =
          and_then-eq-returned (update_one p fuel cluster options a w)
            (λ r. update_each p fuel cluster options addons >>= λ rs'. pure (r ∷ rs')) h in
        let (rs', u, h3, h4) =
          and_then-eq-returned (update_each p fuel cluster options addons v) (λ rs'. pure (r ∷ rs'))
            h2 in
        Updated-eq (a ∷ addons) (returned-eq h4) (ap (λ x. x.1.1) h4) (
          one_updated a addons r rs' w.1 v.1 u.1 (told a r w v _ refl h1)
            (update_each-Updated addons rs' v u h3))

    update_listed-Updated :
        options.parallel ≡ false
        → (addons : List AddonSummary) (rs : List AddonUpdateResult) (w end : Memo × W)
        → update_listed p fuel cluster options addons w ≡ (returned rs, end)
        → (ordered : List AddonSummary) × (in_update_order p fuel cluster options
              (not_skipped options.skip_addons addons)
            ≡ some ordered)
          × Updated ordered rs w.1 end.1
    unfolding update_listed update_ordered
    update_listed-Updated one_by_one addons rs w end h =
        by_order (in_update_order p fuel cluster options (not_skipped options.skip_addons addons))
          refl h
      where
        by_order :
            (o : Option (List AddonSummary))
            → in_update_order p fuel cluster options (not_skipped options.skip_addons addons) ≡ o
            → update_ordered p fuel cluster options o w ≡ (returned rs, end)
            → (ordered : List AddonSummary) × (in_update_order p fuel cluster options
                  (not_skipped options.skip_addons addons)
                ≡ some ordered)
              × Updated ordered rs w.1 end.1
        by_order none e k = cc
        by_order (some ordered) e k = (
          ordered,
          e,
          update_each-Updated ordered rs w end (
              ap
                (λ b.
                  if b
                  then dispatch_each p fuel cluster options ordered w
                  else update_each p fuel cluster options ordered w)
                (sym one_by_one)
              ∙ k),
        )

    -- When UpdateAll, told to wait and neither to update in parallel nor to only try, ends without
    -- an error, it has listed the addons, put those that are not to be skipped into the order of
    -- the options, and given each one, in that order, one result: that of its error, one that names
    -- health issues, or one after which the addon was described as active and without an issue.
    pub update_all-Updated :
        options.parallel ≡ false
        → (rs : List AddonUpdateResult) (w end : Memo × W)
        → update_all p fuel cluster options w ≡ (returned rs, end)
        → (addons ordered : List AddonSummary) × (v : W) × (list_addons p fuel false cluster w.1
            ≡ (returned addons, v))
          × (in_update_order p fuel cluster options (not_skipped options.skip_addons addons)
              ≡ some ordered)
          × Updated ordered rs v end.1
    unfolding update_all
    update_all-Updated one_by_one rs (memo, w) end h =
        let (addons, (memo', v), h1, h2) =
          and_then-eq-returned
            (map_failure (wrap_with (txt "listing addons"))
              (lifted (list_addons p fuel false cluster) (memo, w)))
            (update_listed p fuel cluster options) h in
        let (ordered, e, u) = update_listed-Updated one_by_one addons rs (memo', v) end h2 in
        (
          addons,
          ordered,
          v,
          lifted-eq-returned (list_addons p fuel false cluster) memo memo' w v (
              map_failure-eq-returned (wrap_with (txt "listing addons"))
                (lifted (list_addons p fuel false cluster) (memo, w)) h1),
          e,
          u,
        )
