-- ===== src/Support/Cached.antt =====
-- What the cache of the support windows keeps.
use mathlib.Core.Path.{subst}
use refresh.Prelude.{
  ℕ, Option-cases, ◌≡◌, refl, sym, ap, ◌∙◌, ◌⊎◌, inl, inr, true, false, Bool-cases, List, [], ◌∷◌,
  Option, none, some,
}
use refresh.Text.{Text, text_eq, text_eq_iff}
use refresh.Go.{
  M, Outcome, returned, failed, unfinished, pure, ◌>>=◌, and_then-eq-returned, returned-eq,
}
use refresh.Support.{
  SupportPosture, ClusterVersion, unknown_posture, SupportCache, cached, keep, found,
  resolve_support_posture, resolve_support, resolve_each,
}

cached-here : (u : Text) (r : SupportPosture) (c : SupportCache) → cached u ((u, r) ∷ c) ≡ some r
unfolding cached
cached-here u r c = simp ((text_eq_iff u u).1 refl)

cached-there :
    (u v : Text) (r p : SupportPosture) (c : SupportCache)
    → cached u c ≡ none
    → cached v c ≡ some p
    → cached v ((u, r) ∷ c) ≡ some p
unfolding cached
cached-there u v r p c h k = elim (Bool-cases (text_eq u v)) [
  | inl e ↦ absurd (sym h ∙ ap (λ x. cached x c) ((text_eq_iff u v).0 e) ∙ k)
  | inr e ↦ simp (e, k)
]
  where
    absurd : none ≡ some p → cached v ((u, r) ∷ c) ≡ some p
    absurd n = cc

module _ {W : Type 0} (api : Option (Text → M W (Option (List ClusterVersion))))
    (clock : W → ℕ) where
  resolve_support-empty :
      (v : Text) (c : SupportCache) (w : W)
      → text_eq v [] ≡ true
      → resolve_support api clock v (c, w) ≡ (returned unknown_posture, (c, w))
  unfolding resolve_support
  resolve_support-empty v c w h = simp (h)

  resolve_support-hit :
      (v : Text) (c : SupportCache) (w : W) (p : SupportPosture)
      → text_eq v [] ≡ false
      → cached v c ≡ some p
      → resolve_support api clock v (c, w) ≡ (returned p, (c, w))
  unfolding resolve_support found
  resolve_support-hit v c w p h k = simp (h, k)

  resolve_support-miss :
      (v : Text) (c : SupportCache) (w : W)
      → text_eq v [] ≡ false
      → cached v c ≡ none
      → resolve_support api clock v (c, w)
        ≡ keep v c (resolve_support_posture api clock v (clock w) w)
  unfolding resolve_support found
  resolve_support-miss v c w h k = simp (h, k)

  -- The version is empty and its posture that of no version, or the cache has its posture.
  IsSettled : Text → SupportPosture → SupportCache → Type 0
  IsSettled v p c =
      ((text_eq v [] ≡ true) × (unknown_posture ≡ p))
      ⊎ ((text_eq v [] ≡ false) × (cached v c ≡ some p))

  IsSettled-resolve_support :
      (v : Text) (p : SupportPosture) (c : SupportCache) (w : W)
      → IsSettled v p c
      → resolve_support api clock v (c, w) ≡ (returned p, (c, w))
  unfolding IsSettled
  IsSettled-resolve_support v p c w (inl (h, k)) =
      resolve_support-empty v c w h ∙ ap (λ q. (returned q, (c, w))) k
  IsSettled-resolve_support v p c w (inr (h, k)) = resolve_support-hit v c w p h k

  IsSettled-keep :
      (v u : Text) (p q : SupportPosture) (c c' : SupportCache) (w' : W)
      (o : Outcome SupportPosture × W)
      → cached u c ≡ none
      → IsSettled v p c
      → keep u c o ≡ (returned q, (c', w'))
      → IsSettled v p c'
  unfolding keep IsSettled
  IsSettled-keep v u p q c c' w' (returned r, w) h (inl s) k = inl s
  IsSettled-keep v u p q c c' w' (returned r, w) h (inr (s, t)) k =
      inr (s, ap (λ x. cached v x.1.0) (sym k) ∙ cached-there u v r p c h t)
  IsSettled-keep v u p q c c' w' (failed e, w) h s k = cc
  IsSettled-keep v u p q c c' w' (unfinished, w) h s k = cc

  keep-cached :
      (u : Text) (q : SupportPosture) (c c' : SupportCache) (w' : W)
      (o : Outcome SupportPosture × W)
      → keep u c o ≡ (returned q, (c', w'))
      → cached u c' ≡ some q
  unfolding keep
  keep-cached u q c c' w' (returned r, w) k =
      ap (λ x. cached u x.1.0) (sym k) ∙ cached-here u r c ∙ ap some (returned-eq k)
  keep-cached u q c c' w' (failed e, w) k = cc
  keep-cached u q c c' w' (unfinished, w) k = cc

  resolve_support-IsSettled :
      (v u : Text) (p q : SupportPosture) (c c' : SupportCache) (w w' : W)
      → IsSettled v p c
      → resolve_support api clock u (c, w) ≡ (returned q, (c', w'))
      → IsSettled v p c'
  resolve_support-IsSettled v u p q c c' w w' s h = elim (Bool-cases (text_eq u [])) [
    | inl e ↦ subst (IsSettled v p) (ap (λ x. x.1.0) (sym (resolve_support-empty u c w e) ∙ h)) s
    | inr e ↦ elim (Option-cases (cached u c)) [
      | inl n ↦
          IsSettled-keep v u p q c c' w' (resolve_support_posture api clock u (clock w) w) n s
            (sym (resolve_support-miss u c w e n) ∙ h)
      | inr (r, k) ↦
          subst (IsSettled v p) (ap (λ x. x.1.0) (sym (resolve_support-hit u c w r e k) ∙ h)) s
    ]
  ]

  resolve_each-IsSettled :
      (v : Text) (p : SupportPosture) (versions : List Text) (ps : List SupportPosture)
      (x y : SupportCache × W)
      → IsSettled v p x.0
      → resolve_each api clock versions x ≡ (returned ps, y)
      → IsSettled v p y.0
  unfolding resolve_each
  resolve_each-IsSettled v p [] ps x y s h = subst (IsSettled v p) (ap (λ x. x.1.0) h) s
  resolve_each-IsSettled v p (u ∷ versions) ps (c, w) y s h =
      let (q, (c1, w1), h1, h2) =
        and_then-eq-returned (resolve_support api clock u (c, w))
          (λ q. resolve_each api clock versions >>= λ qs. pure (q ∷ qs)) h in
      let (qs, z, h3, h4) =
        and_then-eq-returned (resolve_each api clock versions (c1, w1)) (λ qs. pure (q ∷ qs)) h2 in
      subst (IsSettled v p) (ap (λ x. x.1.0) h4) (
        resolve_each-IsSettled v p versions qs (c1, w1) z
          (resolve_support-IsSettled v u p q c c1 w w1 s h1) h3)

  first-IsSettled :
      (v : Text) (p : SupportPosture) (c c' : SupportCache) (w w' : W)
      → resolve_support api clock v (c, w) ≡ (returned p, (c', w'))
      → IsSettled v p c'
  unfolding IsSettled
  first-IsSettled v p c c' w w' h = elim (Bool-cases (text_eq v [])) [
    | inl e ↦ inl (e, returned-eq (sym (resolve_support-empty v c w e) ∙ h))
    | inr e ↦ elim (Option-cases (cached v c)) [
      | inl n ↦ inr (
        e,
        keep-cached v p c c' w' (resolve_support_posture api clock v (clock w) w)
            (sym (resolve_support-miss v c w e n) ∙ h),
      )
      | inr (r, k) ↦
          let hit = sym (resolve_support-hit v c w r e k) ∙ h in
          inr (e, ap (λ x. cached v x.1.0) (sym hit) ∙ k ∙ ap some (returned-eq hit))
    ]
  ]

  -- Once resolveSupport has returned a posture for a version, and then answered for any versions,
  -- it returns the same posture for that version again, and neither asks the API nor changes the
  -- cache.
  pub resolve_support-once :
      (v : Text) (p : SupportPosture) (versions : List Text) (ps : List SupportPosture)
      (x y z : SupportCache × W)
      → resolve_support api clock v x ≡ (returned p, y)
      → resolve_each api clock versions y ≡ (returned ps, z)
      → resolve_support api clock v z ≡ (returned p, z)
  resolve_support-once v p versions ps (c, w) (c1, w1) (c2, w2) h k =
      IsSettled-resolve_support v p c2 w2 (
        resolve_each-IsSettled v p versions ps (c1, w1) (c2, w2) (first-IsSettled v p c c1 w w1 h)
          k)
