-- ===== src/Aws/Pages.antt =====
-- internal/aws/paginate.go: every page of a list, each call retried and its error explained.
use refresh.Prelude.{ℕ, List, Option}
use refresh.Text.{Text}
use refresh.Go.{M, map_failure}
use refresh.Common.Retry.{Env, default_retry_config, with_retry}
use refresh.Common.Paginate.{Page, paginate}
use refresh.Aws.Errors.{format_aws_error}

-- `extract` is part of `call` here: a call gives the page's items and the next token.
unfoldable pub list_all_pages :
    {W Item : Type 0}
    → Env W
    → (fuel : ℕ) → Text
    → (Option Text → M W (Page Item))
    → M W (List Item)
unfolding paginate
list_all_pages env fuel operation call =
    paginate env
      (λ token w.
        map_failure (λ e. format_aws_error e operation)
          (with_retry env default_retry_config (call token) w))
      fuel
