-- ===== src/Tests/Contexts.antt =====
-- Contexts of two clusters, and a disk with two files.
use refresh.Prelude.{
  ◌≡◌, refl, sym, ap, ◌≢◌, inl, true, false, List, [], ◌∷◌, Option, none, some, if◌then◌else◌,
}
use refresh.Text.{Text, txt, concat, text_eq}
use refresh.Go.{plain, M, Outcome, returned, failed, ok}
use refresh.Contexts.{
  Context, File, empty_file, insert, active, is_dash, remove_context, Operation, use_name, set_name,
  apply_all,
}
use refresh.Contexts.Pointers.{IsSound, apply_all-IsSound}
use refresh.Contexts.Switching.{use_context-back, active-remove_context}
use refresh.Contexts.Disk.{Disk, path, load, save}
use refresh.Contexts.Disk.Atomic.{IsFileSystem, Fate, save-Fate}
use refresh.Contexts.Disk.RoundTrip.{load-save}

abbrev in_region : Text → Context
in_region cluster = record { cluster = cluster; region = txt "eu-west-1"; profile = [] }

abbrev filling : List Operation
filling =
    set_name (txt "dev") (in_region (txt "d1"))
    ∷ set_name (txt "prod") (in_region (txt "p1"))
    ∷ set_name [] (in_region (txt "x"))
    ∷ []

-- Two contexts, and one refused.
abbrev filled : File
filled = apply_all filling empty_file

empty-IsSound : IsSound empty_file
empty-IsSound = record {
  current_known = inl refl;
  previous_known = inl refl;
  named = refl;
  clustered = λ name c h. cc;
}

apply_all-IsSound_example : IsSound filled
apply_all-IsSound_example = apply_all-IsSound filling empty_file empty-IsSound

filled-IsSound : IsSound filled
filled-IsSound = apply_all-IsSound filling empty_file empty-IsSound

dev_word : is_dash (txt "dev") ≡ false
unfolding is_dash text_eq
dev_word = refl

prod_word : is_dash (txt "prod") ≡ false
unfolding is_dash text_eq
prod_word = refl

dev_known : filled.contexts (txt "dev") ≢ none
unfolding apply_all insert text_eq
dev_known = λ e. cc

prod_known : filled.contexts (txt "prod") ≢ none
unfolding apply_all insert text_eq
prod_known = λ e. cc

use_context-back_example :
    (apply_all (use_name (txt "dev") ∷ use_name (txt "prod") ∷ use_name (txt "-") ∷ []) filled
      ≡ record { current = txt "dev"; previous = txt "prod"; contexts = filled.contexts })
    × (apply_all
          (use_name (txt "dev")
            ∷ use_name (txt "prod")
            ∷ use_name (txt "-")
            ∷ use_name (txt "-")
            ∷ [])
          filled
        ≡ record { current = txt "prod"; previous = txt "dev"; contexts = filled.contexts })
use_context-back_example =
    use_context-back (txt "dev") (txt "prod") filled filled-IsSound dev_word prod_word (λ e. cc)
      dev_known prod_known

abbrev on_prod : File
on_prod = apply_all (use_name (txt "prod") ∷ []) filled

abbrev prod_entry : Text × Context
prod_entry = (txt "prod", in_region (txt "p1"))

prod_active : active (txt "gone") (remove_context (txt "dev") on_prod).1 ≡ some prod_entry
unfolding active remove_context apply_all insert text_eq is_dash
prod_active = refl

active-remove_context_example :
    (prod_entry.0 ≢ txt "dev") × (on_prod.contexts prod_entry.0 ≡ some prod_entry.1)
active-remove_context_example =
    active-remove_context (txt "gone") (txt "dev") on_prod prod_entry prod_active

-- The file of the contexts, and a temporary file.
pub record Files : Type 0 where
  pub config : Option Text
  pub temp : Option Text

abbrev config_path : Text
config_path = txt "c/context.yaml"

abbrev content : Files → Text → Option Text
content w q =
    if text_eq q config_path then w.config else if text_eq q (txt "t") then w.temp else none

abbrev answer : Option Text → M Files Text
answer none w = (failed (plain (txt "no such file")), w)
answer (some b) w = (returned b, w)

abbrev disk : Disk Files Unit
disk = record {
  getenv = λ name. txt "c/";
  user_home_dir = ok (txt "/root");
  join = concat;
  dir = λ p. txt "c";
  is_not_exist = λ e. true;
  read_file = λ p w. answer (content w p) w;
  mkdir_all = λ p w. (returned tt, w);
  create_temp = λ p pattern w. (returned tt, record w { temp = some [] });
  name_of = λ h. txt "t";
  write = λ h b w. (returned tt, record w { temp = some b });
  close = λ h w. (returned tt, w);
  remove_file =
      λ name w. (returned tt, record w { temp = if text_eq name (txt "t") then none else w.temp });
  rename_file = λ old new w. (returned tt, record { config = content w old; temp = none });
  marshal_yaml = λ f. ok f.current;
  unmarshal_yaml = λ b. ok (record on_prod { current = b });
}

disk-IsFileSystem : IsFileSystem disk content config_path
unfolding text_eq
disk-IsFileSystem = record {
  mkdir_keeps = λ q w. refl;
  create_keeps = λ q pattern w. refl;
  create_fresh = λ q pattern w v h made. (λ e. cc, ap (λ x. content x.1 (txt "t")) (sym made));
  write_keeps = λ h b w other. refl;
  write_fills = λ h b w v empty made. ap (λ x. content x.1 (txt "t")) (sym made);
  close_keeps = λ h w q. refl;
  remove_keeps = λ name w other. refl;
  rename_moves = λ name w v made. ap (λ x. content x.1 config_path) (sym made);
  rename_fails = λ name e w v made. cc;
  rename_stops = λ name w v made. cc;
}

path_known : path disk ≡ ok config_path
unfolding path text_eq concat
path_known = refl

current_bytes : disk.marshal_yaml on_prod ≡ ok (txt "prod")
unfolding apply_all insert text_eq is_dash
current_bytes = refl

current_parses : disk.unmarshal_yaml (txt "prod") ≡ ok on_prod
unfolding apply_all insert text_eq is_dash
current_parses = refl

reads :
    (u : Files)
    → content u config_path ≡ some (txt "prod")
    → disk.read_file config_path u ≡ (returned (txt "prod"), u)
unfolding text_eq
reads u h = ap (λ o. answer o u) h

abbrev before : Files
before = record { config = some (txt "dev"); temp = none }

abbrev saving : Outcome Unit × Files
saving = save disk on_prod before

saved : saving ≡ (returned tt, saving.1)
unfolding save path text_eq concat
saved = refl

save-Fate_example :
    Fate (some (txt "dev")) (some (txt "prod")) saving.0 (content saving.1 config_path)
unfolding text_eq
save-Fate_example =
    save-Fate disk content config_path disk-IsFileSystem on_prod (txt "prod") before path_known
      current_bytes

load-save_example : load disk saving.1 ≡ (returned on_prod, saving.1)
load-save_example =
    load-save disk content config_path disk-IsFileSystem on_prod (txt "prod") before saving.1
      path_known current_bytes current_parses reads saved
