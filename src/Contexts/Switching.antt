-- ===== src/Contexts/Switching.antt =====
-- Which context is active behind a switch and behind a removal.
use refresh.Prelude.{
  ◌≡◌, refl, sym, ap, ◌∙◌, ◌≢◌, inl, inr, true, false, Bool-cases, [], ◌∷◌, none, some,
  Option-cases,
}
use mathlib.Core.Path.{subst}
use refresh.Text.{Text, txt, text_eq, text_eq_iff}
use refresh.Contexts.Pointers.{IsSound}
use refresh.Contexts.{
  Context, Contexts, File, erase, chosen, active, is_dash, swap_back, rotate, use_context,
  remove_context, use_name, apply, apply_all,
}

text_eq-false : (s t : Text) → s ≢ t → text_eq s t ≡ false
text_eq-false s t other = elim (Bool-cases (text_eq s t)) [
  | inl same ↦ absurd (other ((text_eq_iff s t).0 same))
  | inr differ ↦ differ
]

use_context-known :
    (name : Text) (f : File)
    → is_dash name ≡ false
    → f.contexts name ≢ none
    → (use_context name f).1 ≡ rotate name f
unfolding use_context
use_context-known name f word known = elim (Option-cases (f.contexts name)) [
  | inl unknown ↦ absurd (known unknown)
  | inr (c, found) ↦ rw (use_context, word, found) refl
]

-- Behind a switch to one context and then to another, the pointers are at both.
switched :
    (a b : Text) (f : File)
    → is_dash a ≡ false
    → is_dash b ≡ false
    → a ≢ b
    → f.contexts a ≢ none
    → f.contexts b ≢ none
    → apply_all (use_name a ∷ use_name b ∷ []) f
      ≡ record { current = b; previous = a; contexts = f.contexts }
unfolding apply_all apply rotate
switched a b f word_a word_b differ known_a known_b =
    ap (λ (g : File). (use_context b g).1) (use_context-known a f word_a known_a)
    ∙ use_context-known b (rotate a f) word_b known_b
    ∙ rw (text_eq-false a b differ) refl

known-word : (name : Text) (f : File) → IsSound f → f.contexts name ≢ none → text_eq name [] ≡ false
known-word name f sound known = text_eq-false name [] (λ e. known (ap f.contexts e ∙ sound.named))

-- The dash swaps the pointers, where there is a context before.
swapped :
    (f : File)
    → text_eq f.previous [] ≡ false
    → (use_context (txt "-") f).1 ≡ record f { current = f.previous; previous = f.current }
unfolding use_context is_dash swap_back text_eq
swapped f there = rw there refl

-- On a sound file: after a switch to one context and one to another, `refresh use -` goes back to
-- the first, and a second one goes to the other again.
pub use_context-back :
    (a b : Text) (f : File)
    → IsSound f
    → is_dash a ≡ false
    → is_dash b ≡ false
    → a ≢ b
    → f.contexts a ≢ none
    → f.contexts b ≢ none
    → (apply_all (use_name a ∷ use_name b ∷ use_name (txt "-") ∷ []) f
        ≡ record { current = a; previous = b; contexts = f.contexts })
      × (apply_all (use_name a ∷ use_name b ∷ use_name (txt "-") ∷ use_name (txt "-") ∷ []) f
          ≡ record { current = b; previous = a; contexts = f.contexts })
unfolding apply_all apply
use_context-back a b f sound word_a word_b differ known_a known_b =
    let both = switched a b f word_a word_b differ known_a known_b in
    let first =
      ap (λ (g : File). (use_context (txt "-") g).1) both
      ∙ swapped _ (known-word a f sound known_a) in
    (
      first,
      ap (λ (g : File). (use_context (txt "-") g).1) first
          ∙ swapped _ (known-word b f sound known_b),
    )

some_eq : {A : Type 0} {x y : A} → some x ≡ some y → x ≡ y
some_eq h = cc

none_absurd : {A B : Type 0} {x : A} → none ≡ some x → B
none_absurd h = cc

chosen-found :
    (name : Text) (found : Text × Context) (contexts : Contexts)
    → chosen name contexts ≡ some found
    → contexts found.0 ≡ some found.1
unfolding chosen
chosen-found name found contexts h = elim (Bool-cases (text_eq name [])) [
  | inl nameless ↦ none_absurd (rw (chosen, nameless) at h)
  | inr word ↦ elim (Option-cases (contexts name)) [
    | inl unknown ↦ none_absurd (rw (chosen, word, unknown) at h)
    | inr (d, there) ↦
        subst (λ (x : Text × Context). contexts x.0 ≡ some x.1)
          (some_eq (rw (chosen, word, there) at h)) there
  ]
]

active-found :
    (override : Text) (found : Text × Context) (f : File)
    → active override f ≡ some found
    → f.contexts found.0 ≡ some found.1
unfolding active
active-found override found f h = elim (Option-cases (chosen override f.contexts)) [
  | inl other ↦ chosen-found f.current found f.contexts (rw (active, other) at h)
  | inr (d, there) ↦ chosen-found override found f.contexts (there ∙ (rw (active, there) at h))
]

erased-found :
    (name n : Text) (c : Context) (contexts : Contexts)
    → erase name contexts n ≡ some c
    → (n ≢ name) × (contexts n ≡ some c)
unfolding erase
erased-found name n c contexts h = elim (Bool-cases (text_eq n name)) [
  | inl same ↦ none_absurd (rw same at h)
  | inr other ↦ (λ e. true_false (sym ((text_eq_iff n name).1 e) ∙ other), rw other at h)
]
  where
    true_false : true ≡ false → ⊥
    true_false k = cc

remove_context-found :
    (name n : Text) (c : Context) (f : File)
    → (remove_context name f).1.contexts n ≡ some c
    → (n ≢ name) × (f.contexts n ≡ some c)
unfolding remove_context erase
remove_context-found name n c f h = elim (Option-cases (f.contexts name)) [
  | inl unknown ↦
      let kept : f.contexts n ≡ some c = rw (remove_context, unknown) at h in
      (λ e. none_absurd (sym unknown ∙ ap f.contexts (sym e) ∙ kept), kept)
  | inr (d, there) ↦ erased-found name n c f.contexts (rw (remove_context, there) at h)
]

-- The context that is active behind a removal, whatever the override, has kept its entry, and its
-- name is not the one that was removed.
pub active-remove_context :
    (override name : Text) (f : File) (found : Text × Context)
    → active override (remove_context name f).1 ≡ some found
    → (found.0 ≢ name) × (f.contexts found.0 ≡ some found.1)
active-remove_context override name f found h =
    remove_context-found name found.0 found.1 f
      (active-found override found (remove_context name f).1 h)
