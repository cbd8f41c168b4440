-- ===== src/Contexts/Disk/RoundTrip.antt =====
-- A file that was written is read back.
use refresh.Prelude.{◌≡◌, refl, Option, some}
use mathlib.Core.Path.{subst}
use refresh.Text.{Text}
use refresh.Go.{Outcome, returned, ok}
use refresh.Contexts.{File}
use refresh.Contexts.Disk.{Disk, path, load_read, load_from, load, save}
use refresh.Contexts.Disk.Atomic.{IsFileSystem, Fate, save-Fate}

module _ {W H : Type 0} (d : Disk W H) (content : W → Text → Option Text) (p : Text)
    (fs : IsFileSystem d content p) where
  -- Where a file is read as it is, and the contexts have a text that parses back to them: `Load`
  -- behind a `Save` that returned no error gives the contexts that were saved.
  pub load-save :
      (f : File) (b : Text) (w v : W)
      → path d ≡ ok p
      → d.marshal_yaml f ≡ ok b
      → d.unmarshal_yaml b ≡ ok f
      → ((u : W) → content u p ≡ some b → d.read_file p u ≡ (returned b, u))
      → save d f w ≡ (returned tt, v)
      → load d v ≡ (returned f, v)
  unfolding load load_from load_read
  load-save f b w v there bytes parses reads saved =
      rw (there, reads v (written saved), parses) refl
    where
      written : save d f w ≡ (returned tt, v) → content v p ≡ some b
      written h =
          subst (λ (x : Outcome Unit × W). Fate (content w p) (some b) x.0 (content x.1 p)) h
            (save-Fate d content p fs f b w there bytes)
