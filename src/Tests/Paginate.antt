-- ===== src/Tests/Paginate.antt =====
-- A list of two pages.
use refresh.Prelude.{ℕ, suc, ◌≡◌, refl, ◌↔◌, [], ◌∷◌, Option, none, some}
use refresh.Text.{Text, txt, text_eq}
use refresh.Go.{M, returned}
use refresh.Common.Retry.{Env}
use refresh.Common.Paginate.{Page, paginate}
use refresh.Common.Paginate.Fetched.{Fetched, paginate_fetches}

-- The world counts the calls.
abbrev env : Env ℕ
env = record { ctx_err = λ w. none; sleep = λ n w. (none, w) }

abbrev fetch : Option Text → M ℕ (Page ℕ)
fetch none w = (returned (record { items = 1 ∷ 2 ∷ []; next = some (txt "b") }), suc w)
fetch (some token) w = (returned (record { items = 3 ∷ []; next = some token }), suc w)

two_pages : paginate env fetch 5 0 ≡ (returned (1 ∷ 2 ∷ 3 ∷ []), 2)
unfolding paginate text_eq
two_pages = refl

paginate_fetches_example :
    ((fuel : ℕ) × (paginate env fetch fuel 0 ≡ (returned (1 ∷ 2 ∷ 3 ∷ []), 2)))
    ↔ Fetched env fetch none 0 (1 ∷ 2 ∷ 3 ∷ []) 2
paginate_fetches_example = paginate_fetches env fetch 0 2 (1 ∷ 2 ∷ 3 ∷ [])
