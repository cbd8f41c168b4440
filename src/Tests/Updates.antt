-- ===== src/Tests/Updates.antt =====
-- Releases, and a machine with a clock that stands still and no network.
use refresh.Prelude.{ℕ, suc, ◌≡◌, refl, ◌≢◌, ◌↔◌, true, false, [], Option, none, some, arith}
use refresh.Text.{Text, txt, text_eq}
use refresh.Text.Decimal.{format_nat}
use refresh.Go.{plain, ok, err}
use refresh.Updates.{Semver, parse_semver, upgrade_hint}
use refresh.Updates.Releases.{
  release_name, semver, parse_semver-release_name, Newer, upgrade_hint_iff,
}
use refresh.Updates.Checker.{Cache, Machine, is_recent, checks}
use refresh.Updates.Checker.Requests.{IsObserved, checks_recent, checks_offline}

parse_semver-release_name_example : parse_semver (release_name 1 12 0) ≡ some (semver 1 12 0)
parse_semver-release_name_example =
    parse_semver-release_name 1 12 0 (omega arith) (omega arith) (omega arith)

upgrade_hint_iff_example : (upgrade_hint (txt "v1.9.3") (txt "1.10.0") ≢ []) ↔ (
    (x y : Semver) × (parse_semver (txt "v1.9.3") ≡ some x)
    × (parse_semver (txt "1.10.0") ≡ some y)
    × Newer y x)
upgrade_hint_iff_example = upgrade_hint_iff (txt "v1.9.3") (txt "1.10.0")

pub record Desk : Type 0 where
  pub requests : ℕ
  pub file : Option Text

abbrev checked_at : ℕ → Cache
checked_at t = record { last_check = t; latest_tag = txt "v1.2.0" }

abbrev desk : (time : ℕ) → Machine Desk
desk time = record {
  now = λ w. (time, w);
  dir = λ p. txt "c";
  read_file = λ p w. (w.file, w);
  mkdir_all = λ p w. (true, w);
  write_file = λ p b w. record w { file = some b };
  parse_cache = λ b. some (checked_at 1000);
  print_cache = λ c. some (format_nat c.last_check);
  new_request = λ url. none;
  get = λ url w. (err (plain (txt "no route to host")), record w { requests = suc w.requests });
  parse_release = λ b. ok b;
}

desk-IsObserved :
    (time : ℕ) → IsObserved (desk time) (txt "c/update-check.json") (λ w. w.requests) (λ w. w.file)
desk-IsObserved time = record {
  reads = λ w. refl;
  read_requests = λ w. refl;
  read_keeps = λ w. refl;
  now_requests = λ w. refl;
  now_keeps = λ w. refl;
  get_requests = λ url w. refl;
  get_keeps = λ url w. refl;
}

abbrev checked : Desk
checked = record { requests = 1; file = some (txt "1000") }

path_named : text_eq (txt "c/update-check.json") [] ≡ false
unfolding text_eq
path_named = refl

recently : is_recent (desk 2000) (txt "u") (txt "c/update-check.json") (checked_at 1000) 2000 ≡ true
unfolding is_recent
recently = refl

much_later :
    is_recent
      (desk 99999999999999)
      (txt "u")
      (txt "c/update-check.json")
      (checked_at 1000)
      99999999999999
    ≡ false
unfolding is_recent
much_later = refl

checks_recent_example :
    (checks (desk 2000) (txt "u") (txt "c/update-check.json") 5 checked).requests ≡ 1
checks_recent_example =
    checks_recent (desk 2000) (txt "u") (txt "c/update-check.json") (λ w. w.requests) (λ w. w.file)
      (desk-IsObserved 2000) path_named (txt "1000") (checked_at 1000) refl (λ v. recently) 5
      checked refl

checks_offline_example :
    (checks (desk 99999999999999) (txt "u") (txt "c/update-check.json") 5 checked).requests ≡ 6
checks_offline_example =
    checks_offline (desk 99999999999999) (txt "u") (txt "c/update-check.json") (λ w. w.requests)
      (λ w. w.file) (desk-IsObserved 99999999999999) path_named (txt "1000") (checked_at 1000) refl
      (λ v. much_later) refl (plain (txt "no route to host")) (λ v. refl) 5 checked refl
