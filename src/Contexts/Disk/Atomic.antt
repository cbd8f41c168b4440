-- ===== src/Contexts/Disk/Atomic.antt =====
-- What a write of the file leaves at its path, however it ends.
use refresh.Prelude.{◌≡◌, refl, sym, ap, ◌∙◌, ◌≢◌, ◌⊎◌, inl, inr, [], Option, some}
use refresh.Text.{Text, txt}
use refresh.Go.{
  GoError, M, Outcome, returned, failed, unfinished, ok, of_result, and_then, ◌>>=◌, ◌>>◌,
}
use refresh.Contexts.{File}
use refresh.Contexts.Disk.{
  Disk, path, keeping, or_discard, or_close, write_temp, close_temp, commit, fill_temp, save_bytes,
  save_to, save,
}

-- What the store relies on: `content` is what a name holds in a world. A temporary file is new and
-- empty and is not the file at `p`; a call changes no file but its own; a rename puts the whole of
-- the file in place or changes nothing. A call that is `unfinished` stands for one that the process
-- does not survive.
pub record IsFileSystem {W H : Type 0} (d : Disk W H) (content : W → Text → Option Text) (p : Text)
    : Type 0 where
  pub mkdir_keeps : (q : Text) (w : W) → content (d.mkdir_all q w).1 p ≡ content w p
  pub create_keeps :
      (q pattern : Text) (w : W) → content (d.create_temp q pattern w).1 p ≡ content w p
  pub create_fresh :
      (q pattern : Text) (w v : W) (h : H)
      → d.create_temp q pattern w ≡ (returned h, v)
      → (d.name_of h ≢ p) × (content v (d.name_of h) ≡ some [])
  pub write_keeps :
      (h : H) (b : Text) (w : W) → d.name_of h ≢ p → content (d.write h b w).1 p ≡ content w p
  pub write_fills :
      (h : H) (b : Text) (w v : W)
      → content w (d.name_of h) ≡ some []
      → d.write h b w ≡ (returned tt, v)
      → content v (d.name_of h) ≡ some b
  pub close_keeps : (h : H) (w : W) (q : Text) → content (d.close h w).1 q ≡ content w q
  pub remove_keeps :
      (name : Text) (w : W) → name ≢ p → content (d.remove_file name w).1 p ≡ content w p
  pub rename_moves :
      (name : Text) (w v : W)
      → d.rename_file name p w ≡ (returned tt, v)
      → content v p ≡ content w name
  pub rename_fails :
      (name : Text) (e : GoError) (w v : W)
      → d.rename_file name p w ≡ (failed e, v)
      → content v p ≡ content w p
  pub rename_stops :
      (name : Text) (w v : W)
      → d.rename_file name p w ≡ (unfinished, v)
      → (content v p ≡ content w p) ⊎ (content v p ≡ content w name)

-- What is there now, for a write that was to put the new content where the old one was.
abbrev pub Fate : (old new : Option Text) → Outcome Unit → (now : Option Text) → Type 0
Fate old new (returned _) now = now ≡ new
Fate old new (failed e) now = now ≡ old
Fate old new unfinished now = (now ≡ old) ⊎ (now ≡ new)

module _ {W H : Type 0} (d : Disk W H) (content : W → Text → Option Text) (p : Text)
    (fs : IsFileSystem d content p) where
  chain :
      {A : Type 0} (old new : Option Text) (r : Outcome A × W) (k : A → M W Unit)
      → content r.1 p ≡ old
      → ((a : A) (v : W)
          → r ≡ (returned a, v)
          → content v p ≡ old
          → Fate old new (k a v).0 (content (k a v).1 p))
      → Fate old new (and_then r k).0 (content (and_then r k).1 p)
  chain old new (returned a, v) k kept go = go a v refl kept
  chain old new (failed e, v) k kept go = kept
  chain old new (unfinished, v) k kept go = inl kept

  keeping-world : (e : GoError) (r : Outcome Unit × W) → (keeping d e r).1 ≡ r.1
  unfolding keeping
  keeping-world e (returned _, w) = refl
  keeping-world e (failed e', w) = refl
  keeping-world e (unfinished, w) = refl

  or_discard-keeps :
      (name : Text) (r : Outcome Unit × W)
      → name ≢ p
      → content (or_discard d name r).1 p ≡ content r.1 p
  unfolding or_discard
  or_discard-keeps name (returned _, v) other = refl
  or_discard-keeps name (failed e, v) other =
      ap (λ x. content x p) (keeping-world e _) ∙ fs.remove_keeps name v other
  or_discard-keeps name (unfinished, v) other = refl

  or_close-keeps :
      (h : H) (q : Text) (r : Outcome Unit × W) → content (or_close d h r).1 q ≡ content r.1 q
  unfolding or_close
  or_close-keeps h q (returned _, v) = refl
  or_close-keeps h q (failed e, v) =
      ap (λ x. content x q) (keeping-world e _) ∙ fs.close_keeps h v q
  or_close-keeps h q (unfinished, v) = refl

  keeping-not_returned :
      {A : Type 0} (e : GoError) (r : Outcome Unit × W) (v : W)
      → keeping d e r ≡ (returned tt, v)
      → A
  unfolding keeping
  keeping-not_returned e (returned _, w) v h = cc
  keeping-not_returned e (failed e', w) v h = cc
  keeping-not_returned e (unfinished, w) v h = cc

  or_discard-returned :
      (name : Text) (r : Outcome Unit × W) (v : W)
      → or_discard d name r ≡ (returned tt, v)
      → r ≡ (returned tt, v)
  unfolding or_discard
  or_discard-returned name (returned tt, w) v h = h
  or_discard-returned name (failed e, w) v h = keeping-not_returned e (d.remove_file name w) v h
  or_discard-returned name (unfinished, w) v h = cc

  or_close-returned :
      (h : H) (r : Outcome Unit × W) (v : W)
      → or_close d h r ≡ (returned tt, v)
      → r ≡ (returned tt, v)
  unfolding or_close
  or_close-returned h (returned tt, w) v e = e
  or_close-returned h (failed x, w) v e = keeping-not_returned x (d.close h w) v e
  or_close-returned h (unfinished, w) v e = cc

  keeping-Fate :
      (e : GoError) (old new : Option Text) (r : Outcome Unit × W)
      → content r.1 p ≡ old
      → Fate old new (keeping d e r).0 (content (keeping d e r).1 p)
  unfolding keeping
  keeping-Fate e old new (returned _, w) h = h
  keeping-Fate e old new (failed e', w) h = h
  keeping-Fate e old new (unfinished, w) h = inl h

  renamed-Fate :
      (name b : Text) (old : Option Text) (w : W) (r : Outcome Unit × W)
      → name ≢ p
      → content w p ≡ old
      → content w name ≡ some b
      → d.rename_file name p w ≡ r
      → Fate old (some b) (or_discard d name r).0 (content (or_discard d name r).1 p)
  unfolding or_discard
  renamed-Fate name b old w (returned tt, v) other here there h = fs.rename_moves name w v h ∙ there
  renamed-Fate name b old w (failed e, v) other here there h =
      keeping-Fate e old (some b) (d.remove_file name v)
        (fs.remove_keeps name v other ∙ fs.rename_fails name e w v h ∙ here)
  renamed-Fate name b old w (unfinished, v) other here there h = elim (fs.rename_stops name w v h) [
    | inl kept ↦ inl (kept ∙ here)
    | inr moved ↦ inr (moved ∙ there)
  ]

  fill_temp-Fate :
      (b : Text) (h : H) (old : Option Text) (w : W)
      → d.name_of h ≢ p
      → content w p ≡ old
      → content w (d.name_of h) ≡ some []
      → Fate old (some b) (fill_temp d p b h w).0 (content (fill_temp d p b h w).1 p)
  unfolding fill_temp write_temp close_temp commit
  fill_temp-Fate b h old w other here empty =
      let name = d.name_of h in
      chain old (some b) (write_temp d h b w) (λ _. close_temp d h >> commit d p h)
        (or_discard-keeps name _ other
          ∙ or_close-keeps h p (d.write h b w)
          ∙ fs.write_keeps h b w other
          ∙ here)
        (λ _ v e kept.
          chain old (some b) (close_temp d h v) (λ _. commit d p h)
            (or_discard-keeps name _ other ∙ fs.close_keeps h v p ∙ kept)
            (λ _ u e' kept'.
              renamed-Fate name b old u (d.rename_file name p u) other kept'
                (ap (λ (x : Outcome Unit × W). content x.1 name)
                    (sym (or_discard-returned name (d.close h v) u e'))
                  ∙ fs.close_keeps h v name
                  ∙ fs.write_fills h b w v empty
                      (or_close-returned h (d.write h b w) v (or_discard-returned name _ v e)))
                refl))

  save_to-Fate :
      (f : File) (b : Text) (w : W)
      → d.marshal_yaml f ≡ ok b
      → Fate (content w p) (some b) (save_to d f p w).0 (content (save_to d f p w).1 p)
  unfolding save_to save_bytes
  save_to-Fate f b w bytes =
      chain (content w p) (some b) (d.mkdir_all (d.dir p) w)
        (λ _. (λ u. (of_result (d.marshal_yaml f), u)) >>= save_bytes d p)
        (fs.mkdir_keeps (d.dir p) w)
        (λ _ v e kept. rw bytes (
          chain (content w p) (some b) (d.create_temp (d.dir p) (txt ".context-*.yaml") v)
            (fill_temp d p b) (fs.create_keeps (d.dir p) (txt ".context-*.yaml") v ∙ kept)
            (λ h u made kept'.
              let (other, empty) = fs.create_fresh (d.dir p) (txt ".context-*.yaml") v u h made in
              fill_temp-Fate b h (content w p) u other kept' empty)))

  -- Where the path of the file is known and the contexts have a text: `Save` that returns no error
  -- has put that text at the path, one that returns an error has left there what was there before,
  -- and one that the process does not survive has done one or the other.
  pub save-Fate :
      (f : File) (b : Text) (w : W)
      → path d ≡ ok p
      → d.marshal_yaml f ≡ ok b
      → Fate (content w p) (some b) (save d f w).0 (content (save d f w).1 p)
  unfolding save
  save-Fate f b w where_ bytes = rw where_ (save_to-Fate f b w bytes)
