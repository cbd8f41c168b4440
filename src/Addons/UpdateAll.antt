-- ===== src/Addons/UpdateAll.antt =====
-- internal/services/addons/service.go: the update of all the addons of a cluster.
pub mod Updated
use refresh.Prelude.{
  ℕ, ◌+◌, Bool, true, false, ◌&&◌, ◌||◌, List, [], ◌∷◌, map, Option, none, some, leb, ◌==◌,
  if◌then◌else◌,
}
use refresh.Text.{Text, txt, concat, text_eq}
use refresh.Go.{
  GoError, wrapped, error_text, M, Outcome, returned, failed, unfinished, pure, and_then, ◌>>=◌,
  map_failure,
}
use refresh.Aws.Errors.{to_lower}
use refresh.Eks.{Platform}
use refresh.Addons.Service.{AddonSummary, list_addons}
use refresh.Addons.Dependency.{sort_by_dependency}
use refresh.Addons.Health.{wrap_with, Memo, lifted}
use refresh.Addons.Update.{AddonUpdateResult, UpdateOptions, update_addon}

pub record UpdateAllOptions : Type 0 where
  pub dry_run : Bool
  pub parallel : Bool
  pub health_check : Bool
  pub wait : Bool
  pub wait_timeout : ℕ
  pub skip_addons : List Text
  pub dependency_order : Bool

-- `addonUpdatePollInterval`, 5 seconds.
abbrev pub addon_update_poll_interval : ℕ
addon_update_poll_interval = 5000000000

-- `skipSet[strings.ToLower(name)]`; the names that EKS gives to addons are in ASCII, where `to_lower`
-- is `strings.ToLower`.
unfoldable pub in_skip_set : List Text → Text → Bool
unfolding to_lower
in_skip_set [] name = false
in_skip_set (s ∷ skip) name = text_eq (to_lower s) (to_lower name) || in_skip_set skip name

unfoldable pub not_skipped : List Text → List AddonSummary → List AddonSummary
unfolding in_skip_set
not_skipped skip [] = []
not_skipped skip (a ∷ addons) =
    let rest = not_skipped skip addons in if in_skip_set skip a.name then rest else a ∷ rest

abbrev pub latest_options : UpdateAllOptions → UpdateOptions
latest_options options = record {
  version = txt "latest";
  configuration = [];
  health_check = options.health_check;
  dry_run = options.dry_run;
  wait = options.wait;
  wait_timeout = options.wait_timeout;
}

-- The result of an update that ended with an error.
unfoldable pub failed_result : AddonSummary → GoError → AddonUpdateResult
failed_result a e = record {
  addon_name = a.name;
  previous_version = a.version;
  new_version = [];
  update_id = [];
  status = concat (txt "FAILED: " ∷ error_text e ∷ []);
  health_issues = [];
}

abbrev pub zero_result : AddonUpdateResult
zero_result = record {
  addon_name = [];
  previous_version = [];
  new_version = [];
  update_id = [];
  status = [];
  health_issues = [];
}

-- No error leaves it.
unfoldable pub as_result : AddonSummary → Outcome AddonUpdateResult → Outcome AddonUpdateResult
as_result a (returned r) = returned r
as_result a (failed e) = returned (failed_result a e)
as_result a unfinished = unfinished

module _ {W : Type 0} (p : Platform W) (fuel : ℕ) (cluster : Text)
    (options : UpdateAllOptions) where
  -- `updateOne`
  unfoldable pub update_one : AddonSummary → M (Memo × W) AddonUpdateResult
  unfolding as_result
  update_one a w =
      let (r, v) =
        update_addon p fuel addon_update_poll_interval cluster a.name (latest_options options) w in
      (as_result a r, v)

  -- The loop without `Parallel`.
  unfoldable pub update_each : List AddonSummary → M (Memo × W) (List AddonUpdateResult)
  update_each [] = pure []
  update_each (a ∷ addons) =
      let later = update_each addons in do r ← update_one a; rs ← later; pure (r ∷ rs)

  -- The loop with `Parallel`, by the schedule in which each update ends before the next one is
  -- dispatched; what is not dispatched because the context has ended keeps the zero value.
  unfoldable pub dispatch_each : List AddonSummary → M (Memo × W) (List AddonUpdateResult)
  dispatch_each [] (memo, w) = (returned [], (memo, w))
  dispatch_each (a ∷ addons) (memo, w) =
      let later = λ (x : Memo × W). dispatch_each addons x in
      let next : M (Memo × W) (List AddonUpdateResult) = (do
        r ← update_one a
        rs ← later
        pure (r ∷ rs)) in
      elim (p.env.ctx_err w) [
        | some e ↦ (returned (map (λ _. zero_result) (a ∷ addons)), (memo, w))
        | none ↦ next (memo, w)
      ]

  -- `toUpdate`, in the order in which it is updated.
  unfoldable pub in_update_order : List AddonSummary → Option (List AddonSummary)
  in_update_order addons =
      if options.dependency_order then sort_by_dependency addons else some addons

  unfoldable pub update_ordered : Option (List AddonSummary) → M (Memo × W) (List AddonUpdateResult)
  unfolding update_each dispatch_each
  update_ordered none w = (unfinished, w)
  update_ordered (some addons) w =
      if options.parallel then dispatch_each addons w else update_each addons w

  unfoldable pub update_listed : List AddonSummary → M (Memo × W) (List AddonUpdateResult)
  unfolding in_update_order update_ordered not_skipped
  update_listed addons = update_ordered (in_update_order (not_skipped options.skip_addons addons))

  -- `UpdateAll`
  unfoldable pub update_all : M (Memo × W) (List AddonUpdateResult)
  unfolding update_listed
  update_all =
      (λ w.
        map_failure (wrap_with (txt "listing addons"))
          (lifted (list_addons p fuel false cluster) w))
      >>= update_listed
