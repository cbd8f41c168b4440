-- ===== src/Common/Paginate.antt =====
-- internal/services/common/paginate.go: all pages of a list.
pub mod Fetched
use refresh.Prelude.{
  ℕ, zero, suc, Bool, true, false, ◌||◌, List, [], ◌++◌, Option, none, some, if◌then◌else◌,
}
use refresh.Text.{Text, text_eq}
use refresh.Go.{GoError, M, Outcome, returned, failed, unfinished}
use refresh.Common.Retry.{Env}

-- One page: its items and the token of the next page.
pub record Page (Item : Type 0) : Type 0 where
  pub items : List Item
  pub next : Option Text

-- Is this the last page? It is if it names no next page, or the page that was asked for.
abbrev pub is_last : Option Text → Option Text → Bool
is_last token none = true
is_last none (some next) = text_eq next []
is_last (some token) (some next) = text_eq next [] || text_eq next token

module _ {W Item : Type 0} (env : Env W) (fetch : Option Text → M W (Page Item)) where
  -- Behind the call for a page: the end, or the next page.
  after_page :
      (again : List Item → Option Text → M W (List Item))
      → List Item
      → Option Text
      → Outcome (Page Item) × W
      → Outcome (List Item) × W
  after_page again all token (failed e, w) = (failed e, w)
  after_page again all token (unfinished, w) = (unfinished, w)
  after_page again all token (returned page, w) =
      if is_last token page.next
      then (returned (all ++ page.items), w)
      else again (all ++ page.items) page.next w

  -- Behind the look at the context. The items so far, which the source returns with its error too,
  -- are left out: the callers return nothing with an error.
  one_page :
      (again : List Item → Option Text → M W (List Item))
      → List Item
      → Option Text
      → Option GoError
      → M W (List Item)
  unfolding after_page
  one_page again all token (some e) w = (failed e, w)
  one_page again all token none w = after_page again all token (fetch token w)

  -- The loop of `Paginate`; `fuel` bounds the pages. The items of the pages so far are in `all`.
  unfoldable pub pages_from : (fuel : ℕ) → List Item → Option Text → M W (List Item)
  unfolding one_page
  pages_from zero all token w = (unfinished, w)
  pages_from (suc fuel) all token w =
      one_page (λ items next v. pages_from fuel items next v) all token (env.ctx_err w) w

  unfoldable pub paginate : (fuel : ℕ) → M W (List Item)
  unfolding pages_from
  paginate fuel = pages_from fuel [] none
