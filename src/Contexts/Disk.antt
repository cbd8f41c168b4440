-- ===== src/Contexts/Disk.antt =====
-- internal/cliconfig/store.go: the file of the contexts, read and written.
pub mod Atomic
pub mod RoundTrip
use refresh.Prelude.{◌≡◌, Bool, true, false, List, [], ◌∷◌, Option, none, some, if◌then◌else◌}
use refresh.Text.{Text, txt, concat, text_eq}
use refresh.Go.{
  GoError, error_text, wrapped, M, Outcome, returned, failed, unfinished, Result, ok, err,
  of_result, pure, and_then, ◌>>=◌, ◌>>◌,
}
use refresh.Contexts.{File, empty_file}

-- What the store uses of the packages `os`, `path/filepath` and `yaml`: a world `W` with files, and
-- handles `H` of open files. `is_not_exist` tells the errors of a missing file.
pub record Disk (W H : Type 0) : Type 0 where
  pub getenv : Text → Text
  pub user_home_dir : Result Text
  pub join : List Text → Text
  pub dir : Text → Text
  pub is_not_exist : GoError → Bool
  pub read_file : Text → M W Text
  pub mkdir_all : Text → M W Unit
  pub create_temp : (dir pattern : Text) → M W H
  pub name_of : H → Text
  pub write : H → Text → M W Unit
  pub close : H → M W Unit
  pub remove_file : Text → M W Unit
  pub rename_file : (old new : Text) → M W Unit
  pub marshal_yaml : File → Result Text
  pub unmarshal_yaml : Text → Result File

module _ {W H : Type 0} (d : Disk W H) where
  home_path : Result Text → Result Text
  home_path (err e) = err e
  home_path (ok home) = ok (d.join (home ∷ txt ".config" ∷ txt "refresh" ∷ txt "context.yaml" ∷ []))

  -- `Path`
  unfoldable pub path : Result Text
  unfolding home_path
  path =
      let p = d.getenv (txt "REFRESH_CONFIG_HOME") in
      let x = d.getenv (txt "XDG_CONFIG_HOME") in
      if text_eq p []
      then (if text_eq x []
          then home_path d.user_home_dir
          else ok (d.join (x ∷ txt "refresh" ∷ txt "context.yaml" ∷ [])))
      else ok (d.join (p ∷ txt "context.yaml" ∷ []))

  about_path : (what p : Text) → GoError → GoError
  about_path what p e = wrapped (concat (what ∷ p ∷ txt ": " ∷ error_text e ∷ [])) e

  parsed : Text → Result File → Outcome File
  unfolding about_path
  parsed p (ok f) = returned f
  parsed p (err e) = failed (about_path (txt "parsing ") p e)

  unfoldable pub load_read : Text → Outcome Text × W → Outcome File × W
  unfolding parsed about_path
  load_read p (returned b, w) = (parsed p (d.unmarshal_yaml b), w)
  load_read p (failed e, w) =
      if d.is_not_exist e
      then (returned empty_file, w)
      else (failed (about_path (txt "reading ") p e), w)
  load_read p (unfinished, w) = (unfinished, w)

  unfoldable pub load_from : Text → M W File
  unfolding load_read
  load_from p w = load_read p (d.read_file p w)

  -- `Load`
  unfoldable pub load : M W File
  unfolding load_from
  load = (λ w. (of_result path, w)) >>= load_from

  -- The first error is returned, however the call behind it ends.
  unfoldable pub keeping : GoError → Outcome Unit × W → Outcome Unit × W
  keeping e (unfinished, w) = (unfinished, w)
  keeping e (_, w) = (failed e, w)

  -- What fails behind the creation of the temporary file removes it.
  unfoldable pub or_discard : Text → Outcome Unit × W → Outcome Unit × W
  unfolding keeping
  or_discard name (returned _, w) = (returned tt, w)
  or_discard name (failed e, w) = keeping e (d.remove_file name w)
  or_discard name (unfinished, w) = (unfinished, w)

  -- A write that fails closes the file as well.
  unfoldable pub or_close : H → Outcome Unit × W → Outcome Unit × W
  unfolding keeping
  or_close h (returned _, w) = (returned tt, w)
  or_close h (unfinished, w) = (unfinished, w)
  or_close h (failed e, w) = keeping e (d.close h w)

  write_temp : H → Text → M W Unit
  unfolding or_discard or_close
  write_temp h b w = or_discard (d.name_of h) (or_close h (d.write h b w))

  close_temp : H → M W Unit
  unfolding or_discard
  close_temp h w = or_discard (d.name_of h) (d.close h w)

  commit : (p : Text) → H → M W Unit
  unfolding or_discard
  commit p h w = or_discard (d.name_of h) (d.rename_file (d.name_of h) p w)

  -- Behind the creation of the temporary file.
  unfoldable pub fill_temp : (p b : Text) → H → M W Unit
  unfolding write_temp close_temp commit
  fill_temp p b h = write_temp h b >> (close_temp h >> commit p h)

  save_bytes : (p b : Text) → M W Unit
  unfolding fill_temp
  save_bytes p b = d.create_temp (d.dir p) (txt ".context-*.yaml") >>= fill_temp p b

  unfoldable pub save_to : File → (p : Text) → M W Unit
  unfolding save_bytes
  save_to f p = d.mkdir_all (d.dir p) >> ((λ w. (of_result (d.marshal_yaml f), w)) >>= save_bytes p)

  -- `Save`
  unfoldable pub save : File → M W Unit
  unfolding save_to
  save f = (λ w. (of_result path, w)) >>= save_to f
