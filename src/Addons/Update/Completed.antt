-- ===== src/Addons/Update/Completed.antt =====
-- What an update of an addon guarantees that was waited for and has no health issue.
use refresh.Prelude.{
  ℕ, ◌≡◌, refl, ap, ◌∙◌, ◌≢◌, inl, inr, true, false, List, [], ◌∷◌, Option, none, some,
  if◌then◌else◌,
}
use refresh.Text.{Text, txt, concat}
use refresh.Go.{
  GoError, error_text, plain, Outcome, returned, failed, unfinished, pure, and_then-eq-returned,
  and_then-eq-failed, returned-eq, map_failure, map_failure-eq-returned, map_failure-eq-failed,
  gate-eq-returned, gate-eq-failed,
}
use refresh.Eks.{AddonStatus, Addon, Issue, Platform}
use refresh.Addons.Service.{describe_addon_retrying}
use refresh.Addons.Health.{
  wrap_with, issues_error, status_error, checked_post, post_update_health_check,
  pre_update_health_check, Memo, lifted, lifted-eq-returned, cluster_k8s_version,
}
use refresh.Addons.Update.{
  AddonUpdateResult, UpdateOptions, wait_until_active, with_health, checked_result, await_update,
  after_submit, submit_update, start_update, update_from, update_to, installed_version,
  resolve_version, update_for, update_addon,
}

-- An error without a text would pass for no issue.
abbrev HasText : GoError → Type 0
HasText e = error_text e ≢ []

wrap_with-HasText : (c : ℕ) (s : Text) (e : GoError) → HasText (wrap_with (c ∷ s) e)
unfolding error_text concat
wrap_with-HasText c s e h = cc

plain-HasText : (c : ℕ) (s : Text) (e : GoError) → some (plain (c ∷ s)) ≡ some e → HasText e
unfolding error_text
plain-HasText c s e h k = cc

status_error-HasText :
    (name : Text) (s : AddonStatus) (issues : List Issue) (e : GoError)
    → status_error name s issues ≡ some e
    → HasText e
unfolding status_error issues_error concat
status_error-HasText name AddonStatus.active [] e h = cc
status_error-HasText name AddonStatus.active (i ∷ is) e h = plain-HasText _ _ e h
status_error-HasText name _ issues e h = plain-HasText _ _ e h

status_error-none :
    (name : Text) (s : AddonStatus) (issues : List Issue)
    → status_error name s issues ≡ none
    → (s ≡ AddonStatus.active) × (issues ≡ [])
unfolding status_error issues_error
status_error-none name AddonStatus.active [] h = (refl, refl)
status_error-none name AddonStatus.active (i ∷ is) h = cc
status_error-none name _ issues h = cc

module _ {W : Type 0} (p : Platform W) (fuel interval : ℕ) (cluster name : Text) where
  -- The addon was described at the end of the run, as active and with no issue.
  abbrev pub Healthy : W → Type 0
  Healthy end =
      (v : W) × (a : Addon) × (describe_addon_retrying p fuel cluster name v
        ≡ (returned (some a), end))
      × (a.status ≡ AddonStatus.active)
      × (a.issues ≡ [])

  checked_post-Healthy :
      (v w end : W) (a : Option Addon)
      → describe_addon_retrying p fuel cluster name v ≡ (returned a, w)
      → checked_post p fuel name a w ≡ (returned tt, end)
      → Healthy end
  unfolding checked_post
  checked_post-Healthy v w end none d h = cc
  checked_post-Healthy v w end (some a) d h =
      let (fine, same) = gate-eq-returned (status_error name a.status a.issues) w h in
      let (active, clean) = status_error-none name a.status a.issues fine in
      (v, a, d ∙ ap (λ (x : W). (returned (some a), x)) same, active, clean)

  checked_post-HasText :
      (a : Option Addon) (w end : W) (e : GoError)
      → checked_post p fuel name a w ≡ (failed e, end)
      → HasText e
  unfolding checked_post
  checked_post-HasText none w end e h = cc
  checked_post-HasText (some a) w end e h =
      status_error-HasText name a.status a.issues e (gate-eq-failed _ w h)

  post_update_health_check-Healthy :
      (w end : W)
      → post_update_health_check p fuel cluster name w ≡ (returned tt, end)
      → Healthy end
  unfolding post_update_health_check
  post_update_health_check-Healthy w end h =
      let (a, v, h1, h2) =
        and_then-eq-returned
          (map_failure (wrap_with (txt "post-update health check"))
            (describe_addon_retrying p fuel cluster name w))
          (checked_post p fuel name) h in
      checked_post-Healthy w v end a (map_failure-eq-returned _ _ h1) h2

  post_update_health_check-HasText :
      (w end : W) (e : GoError)
      → post_update_health_check p fuel cluster name w ≡ (failed e, end)
      → HasText e
  unfolding post_update_health_check
  post_update_health_check-HasText w end e h =
      elim (and_then-eq-failed
        (map_failure (wrap_with (txt "post-update health check"))
          (describe_addon_retrying p fuel cluster name w))
        (checked_post p fuel name) h) [
          | inl h1 ↦
              let (e', same) = map_failure-eq-failed _ _ h1 in rw same (wrap_with-HasText _ _ e')
          | inr (a, v, h1, h2) ↦ checked_post-HasText a v end e h2
        ]

  checked_result-Healthy :
      (result r : AddonUpdateResult) (w end : W) (o : Outcome Unit × W)
      → post_update_health_check p fuel cluster name w ≡ o
      → ◌≡◌ {A = Outcome AddonUpdateResult × W}
          (with_health p fuel interval result o.0, o.1)
          (returned r, end)
      → r.health_issues ≡ []
      → Healthy end
  unfolding with_health
  checked_result-Healthy result r w end (returned tt, v) o h clean =
      post_update_health_check-Healthy w end (o ∙ ap (λ x. (returned tt, x.1)) h)
  checked_result-Healthy result r w end (failed e, v) o h clean = absurd (
      post_update_health_check-HasText w v e o
        (ap (λ (x : AddonUpdateResult). x.health_issues) (returned-eq h) ∙ clean))
  checked_result-Healthy result r w end (unfinished, v) o h clean = cc

  module _ (options : UpdateOptions) (waits : options.wait ≡ true)
      (wet : options.dry_run ≡ false) where
    await_update-Healthy :
        (result r : AddonUpdateResult) (w end : W)
        → await_update p fuel interval cluster name options result w ≡ (returned r, end)
        → r.health_issues ≡ []
        → Healthy end
    unfolding await_update checked_result
    await_update-Healthy result r w end h clean =
        let (_, v, _, h') =
          and_then-eq-returned
            (wait_until_active p fuel interval cluster name options.wait_timeout w)
            (λ _. checked_result p fuel interval cluster name result) (rw waits at h) in
        checked_result-Healthy result r v end _ refl h' clean

    start_update-Healthy :
        (previous target : Text) (r : AddonUpdateResult) (w end : W)
        → start_update p fuel interval cluster name previous target options w ≡ (returned r, end)
        → r.health_issues ≡ []
        → Healthy end
    unfolding start_update after_submit
    start_update-Healthy previous target r w end h clean =
        let (u, v, _, h') =
          and_then-eq-returned
            (submit_update p fuel interval cluster name target options.configuration w)
            (after_submit p fuel interval cluster name previous target options) (rw wet at h) in
        await_update-Healthy _ r v end h' clean

    update_from-Healthy :
        (target previous : Text) (r : AddonUpdateResult) (w end : W)
        → update_from p fuel interval cluster name target options previous w ≡ (returned r, end)
        → r.health_issues ≡ []
        → Healthy end
    unfolding update_from
    update_from-Healthy target previous r w end h clean =
        let (_, v, _, h') =
          and_then-eq-returned
            ((if options.health_check then pre_update_health_check p fuel cluster name else pure tt)
              w)
            (λ _. start_update p fuel interval cluster name previous target options) h in
        start_update-Healthy previous target r v end h' clean

    update_for-Healthy :
        (k8s : Text) (r : AddonUpdateResult) (w end : W)
        → update_for p fuel interval cluster name options k8s w ≡ (returned r, end)
        → r.health_issues ≡ []
        → Healthy end
    unfolding update_for update_to
    update_for-Healthy k8s r w end h clean =
        let (target, v, _, h1) =
          and_then-eq-returned (resolve_version p fuel interval k8s name options.version w)
            (update_to p fuel interval cluster name options) h in
        let (previous, u, _, h2) =
          and_then-eq-returned (installed_version p fuel interval cluster name v)
            (update_from p fuel interval cluster name target options) h1 in
        update_from-Healthy target previous r u end h2 clean

    -- An update that was waited for, and whose result has no health issue, ends with a description
    -- of the addon that shows it active and with no issue.
    pub update_addon-Healthy :
        (r : AddonUpdateResult) (w end : Memo × W)
        → update_addon p fuel interval cluster name options w ≡ (returned r, end)
        → r.health_issues ≡ []
        → Healthy end.1
    unfolding update_addon
    update_addon-Healthy r (memo, w) (memo', end) h clean =
        let (k8s, (memo1, v), _, h') =
          and_then-eq-returned (cluster_k8s_version p fuel cluster (memo, w))
            (λ k8s. lifted (update_for p fuel interval cluster name options k8s)) h in
        update_for-Healthy k8s r v end
          (lifted-eq-returned (update_for p fuel interval cluster name options k8s) memo1 memo' v
            end h')
          clean
