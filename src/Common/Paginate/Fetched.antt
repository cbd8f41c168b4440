-- ===== src/Common/Paginate/Fetched.antt =====
-- What `Paginate` returns: the items of a chain of pages.
use mathlib.Core.List.{append_assoc}
use refresh.Prelude.{
  ℕ, zero, suc, ◌≡◌, refl, sym, ap, ◌∙◌, ◌↔◌, inl, inr, true, false, Bool-cases, List, [], ◌++◌,
  Option, none, some,
}
use refresh.Text.{Text}
use refresh.Go.{GoError, M, Outcome, returned, failed, unfinished, returned-eq}
use refresh.Common.Retry.{Env}
use refresh.Common.Paginate.{Page, is_last, after_page, one_page, pages_from, paginate}

-- The pages from a token on, fetched from a world, hold these items, and the last of them leaves
-- this world. The context has not ended before any page.
pub data Fetched {W Item : Type 0} (env : Env W) (fetch : Option Text → M W (Page Item))
    : Option Text → W → List Item → W → Type 0 where
  last_page :
      (token : Option Text) (w v : W) (page : Page Item)
      → env.ctx_err w ≡ none
      → fetch token w ≡ (returned page, v)
      → is_last token page.next ≡ true
      → Fetched env fetch token w page.items v
  next_page :
      (token : Option Text) (w v end : W) (page : Page Item) (items : List Item)
      → env.ctx_err w ≡ none
      → fetch token w ≡ (returned page, v)
      → is_last token page.next ≡ false
      → Fetched env fetch page.next v items end
      → Fetched env fetch token w (page.items ++ items) end

module _ {W Item : Type 0} (env : Env W) (fetch : Option Text → M W (Page Item)) where
  -- The loop has added the items of the rest of the chain to those that it had.
  abbrev Adds : List Item → Option Text → W → List Item → W → Type 0
  Adds all token w out end =
      (items : List Item) × (out ≡ all ++ items) × Fetched env fetch token w items end

  -- What a loop does that goes on like `again`.
  abbrev Sound : (List Item → Option Text → M W (List Item)) → Type 0
  Sound again =
      (all : List Item) (token : Option Text) (w end : W) (out : List Item)
      → again all token w ≡ (returned out, end)
      → Adds all token w out end

  after_page-Adds :
      (again : List Item → Option Text → M W (List Item)) (all : List Item) (token : Option Text)
      (w end : W) (out : List Item) (r : Outcome (Page Item) × W)
      → Sound again
      → env.ctx_err w ≡ none
      → fetch token w ≡ r
      → after_page env fetch again all token r ≡ (returned out, end)
      → Adds all token w out end
  unfolding after_page
  after_page-Adds again all token w end out (failed e, v) sound c f h = cc
  after_page-Adds again all token w end out (unfinished, v) sound c f h = cc
  after_page-Adds again all token w end out (returned page, v) sound c f h =
      elim (Bool-cases (is_last token page.next)) [
        | inl done ↦ (
          page.items,
          sym (returned-eq (rw done at h)),
          Fetched.last_page token w end page c (f ∙ ap (λ x. (returned page, x.1)) (rw done at h))
              done,
        )
        | inr more ↦
            let (items, e, rest) = sound (all ++ page.items) page.next v end out (rw more at h) in
            (
              page.items ++ items,
              e ∙ append_assoc all page.items items,
              Fetched.next_page token w v end page items c f more rest,
            )
      ]

  one_page-Adds :
      (again : List Item → Option Text → M W (List Item)) (all : List Item) (token : Option Text)
      (w end : W) (out : List Item) (c : Option GoError)
      → Sound again
      → env.ctx_err w ≡ c
      → one_page env fetch again all token c w ≡ (returned out, end)
      → Adds all token w out end
  unfolding one_page
  one_page-Adds again all token w end out (some e) sound c h = cc
  one_page-Adds again all token w end out none sound c h =
      after_page-Adds again all token w end out _ sound c refl h

  pages_from-Adds : (fuel : ℕ) → Sound (λ all token w. pages_from env fetch fuel all token w)
  unfolding pages_from
  pages_from-Adds zero all token w end out h = cc
  pages_from-Adds (suc fuel) all token w end out h =
      one_page-Adds (λ items next v. pages_from env fetch fuel items next v) all token w end out _
        (pages_from-Adds fuel) refl h

  -- Enough pages are enough.
  Fetched-pages_from :
      (token : Option Text) (w end : W) (items : List Item)
      → Fetched env fetch token w items end
      → (all : List Item)
      → (fuel : ℕ) × (pages_from env fetch fuel all token w ≡ (returned (all ++ items), end))
  unfolding pages_from one_page after_page
  Fetched-pages_from _ _ _ _ (last_page token w v page c f done) all =
      (1, rw c (rw f (rw done refl)))
  Fetched-pages_from _ _ _ _ (next_page token w v end page items c f more rest) all =
      let (fuel, h) = Fetched-pages_from page.next v end items rest (all ++ page.items) in
      (
        suc fuel,
        rw c (rw f (rw more (h ∙ ap (λ x. (returned x, end)) (append_assoc all page.items items)))),
      )

  -- `Paginate` returns a list, within some number of pages, exactly where the list is the items of
  -- a chain of pages: each is fetched with the token of the page before it while the context has
  -- not ended, and the last names no page, the empty token, or the token that it was asked for with.
  pub paginate_fetches :
      (w end : W) (items : List Item)
      → ((fuel : ℕ) × (paginate env fetch fuel w ≡ (returned items, end)))
        ↔ Fetched env fetch none w items end
  unfolding paginate
  paginate_fetches w end items = (
    λ (fuel, h). let (found, e, chain) = pages_from-Adds fuel [] none w end items h in rw e chain,
    λ chain. Fetched-pages_from none w end items chain [],
  )
