-- ===== src/Upgrade/ControlPlane/Postcondition.antt =====
-- What `UpgradeControlPlane` guarantees when it returns no error, and when it changes nothing.
use refresh.Prelude.{ℕ, ◌≡◌, ap, ◌∙◌, true, Option, Bool-cases, inl, inr, if◌then◌else◌}
use refresh.Text.{Text}
use refresh.Go.{M, returned, pure, ◌>>◌, and_then-eq-returned}
use refresh.Eks.{Update, Cluster, ClusterStatus, Platform}
use refresh.Upgrade.Version.{version_at_least}
use refresh.Upgrade.Service.{describe_cluster}
use refresh.Upgrade.ControlPlane.{
  wait_active, wait_update, check_reached, final_check, submit, settle, id_of, start_upgrade,
  second_look, after_attach, converge, upgrade_control_plane,
}

module _ {W : Type 0} (p : Platform W) (fuel interval : ℕ) (name target : Text) where
  -- The cluster was last described at the end of the run, at the target version or past it.
  abbrev pub Reached : W → Type 0
  Reached end =
      (v : W) × (c : Cluster) × (describe_cluster p fuel name v ≡ (returned c, end))
      × (version_at_least c.version target ≡ true)

  -- The test behind a description: either the target is reached, or something else follows.
  test-Reached :
      (v w end : W) (c : Cluster) (next : M W Unit)
      → describe_cluster p fuel name v ≡ (returned c, w)
      → (next w ≡ (returned tt, end) → Reached end)
      → (if version_at_least c.version target then pure tt else next) w ≡ (returned tt, end)
      → Reached end
  test-Reached v w end c next d k h = elim (Bool-cases (version_at_least c.version target)) [
    | inl reached ↦
        (v, c, d ∙ ap (λ (x : W). (returned c, x)) (ap (λ r. r.1) (rw reached at h)), reached)
    | inr behind ↦ k (rw behind at h)
  ]

  check_reached-Reached :
      (v w end : W) (c : Cluster)
      → describe_cluster p fuel name v ≡ (returned c, w)
      → check_reached p fuel interval target c w ≡ (returned tt, end)
      → Reached end
  unfolding check_reached
  check_reached-Reached v w end c d h = test-Reached v w end c _ d (λ e. cc) h

  final_check-Reached :
      (w end : W) → final_check p fuel interval name target w ≡ (returned tt, end) → Reached end
  unfolding final_check
  final_check-Reached w end h =
      let (c, v, d, h') =
        and_then-eq-returned (describe_cluster p fuel name w) (check_reached p fuel interval target)
          h in
      check_reached-Reached w v end c d h'

  settle-Reached :
      (out : Option Update) (w end : W)
      → settle p fuel interval name target out w ≡ (returned tt, end)
      → Reached end
  unfolding settle
  settle-Reached out w end h =
      let (_, v, _, h1) =
        and_then-eq-returned (wait_update p fuel interval name target (id_of out) w)
          (λ _. wait_active p fuel interval fuel name >> final_check p fuel interval name target)
          h in
      let (_, u, _, h2) =
        and_then-eq-returned (wait_active p fuel interval fuel name v)
          (λ _. final_check p fuel interval name target) h1 in
      final_check-Reached u end h2

  start_upgrade-Reached :
      (w end : W) → start_upgrade p fuel interval name target w ≡ (returned tt, end) → Reached end
  unfolding start_upgrade
  start_upgrade-Reached w end h =
      let (out, v, _, h') =
        and_then-eq-returned (submit p fuel interval name target w)
          (settle p fuel interval name target) h in
      settle-Reached out v end h'

  second_look-Reached :
      (w end : W) → second_look p fuel interval name target w ≡ (returned tt, end) → Reached end
  unfolding second_look
  second_look-Reached w end h =
      let (c, v, d, h') =
        and_then-eq-returned (describe_cluster p fuel name w)
          (λ c.
            if version_at_least c.version target
            then pure tt
            else start_upgrade p fuel interval name target)
          h in
      test-Reached w v end c (start_upgrade p fuel interval name target) d
        (start_upgrade-Reached v end) h'

  after_attach-Reached :
      (w end : W) → after_attach p fuel interval name target w ≡ (returned tt, end) → Reached end
  unfolding after_attach
  after_attach-Reached w end h =
      let (_, v, _, h') =
        and_then-eq-returned (wait_active p fuel interval fuel name w)
          (λ _. second_look p fuel interval name target) h in
      second_look-Reached v end h'

  converge-Reached :
      (v w end : W) (c : Cluster)
      → describe_cluster p fuel name v ≡ (returned c, w)
      → converge p fuel interval name target c w ≡ (returned tt, end)
      → Reached end
  unfolding converge
  converge-Reached v w end c d h = test-Reached v w end c _ d (attach_or_start c.status) h
    where
      attach_or_start :
          (s : ClusterStatus)
          → (elim s as (λ _. M W Unit) [
            | ClusterStatus.updating ↦ after_attach p fuel interval name target
            | _ ↦ start_upgrade p fuel interval name target
          ])
              w
            ≡ (returned tt, end)
          → Reached end
      attach_or_start ClusterStatus.updating e = after_attach-Reached w end e
      attach_or_start ClusterStatus.active e = start_upgrade-Reached w end e
      attach_or_start ClusterStatus.failed e = start_upgrade-Reached w end e
      attach_or_start ClusterStatus.other e = start_upgrade-Reached w end e

  -- When `UpgradeControlPlane` returns no error, the last thing that it did was a description of
  -- the cluster, and that showed a version at the target or past it.
  pub upgrade_control_plane-Reached :
      (w end : W)
      → upgrade_control_plane p fuel interval name target w ≡ (returned tt, end)
      → Reached end
  unfolding upgrade_control_plane
  upgrade_control_plane-Reached w end h =
      let (c, w1, d, h1) =
        and_then-eq-returned (describe_cluster p fuel name w) (converge p fuel interval name target)
          h in
      converge-Reached w w1 end c d h1
