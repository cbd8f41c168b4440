-- ===== src/Contexts/Pointers.antt =====
-- What the operations keep true of the contexts and of the pointers to them.
use refresh.Prelude.{
  ◌≡◌, refl, sym, ◌∙◌, ◌≢◌, ◌⊎◌, inl, inr, true, false, Bool-cases, List, [], ◌∷◌, none,
  Option-cases, some,
}
use mathlib.Core.Path.{subst}
use refresh.Text.{Text, text_eq, text_eq_iff}
use refresh.Contexts.{
  Context, Contexts, File, insert, erase, is_dash, swap_back, rotate, use_context, set_context,
  unless_named, remove_context, Operation, use_name, set_name, remove_name, apply, apply_all,
}

-- A pointer is empty or names a context.
abbrev pub IsKnown : Text → Contexts → Type 0
IsKnown name contexts = (name ≡ []) ⊎ (contexts name ≢ none)

-- Both pointers are known, and every context has a name and a cluster.
pub record IsSound (f : File) : Type 0 where
  pub current_known : IsKnown f.current f.contexts
  pub previous_known : IsKnown f.previous f.contexts
  pub named : f.contexts [] ≡ none
  pub clustered : (name : Text) (c : Context) → f.contexts name ≡ some c → c.cluster ≢ []

IsKnown-insert :
    (pointer name : Text) (c : Context) (contexts : Contexts)
    → IsKnown pointer contexts
    → IsKnown pointer (insert name c contexts)
unfolding insert
IsKnown-insert pointer name c contexts (inl e) = inl e
IsKnown-insert pointer name c contexts (inr h) = elim (Bool-cases (text_eq pointer name)) [
  | inl same ↦ inr (rw same (λ e. cc))
  | inr other ↦ inr (rw other h)
]

IsKnown-erase_other :
    (pointer name : Text) (contexts : Contexts)
    → text_eq pointer name ≡ false
    → IsKnown pointer contexts
    → IsKnown pointer (erase name contexts)
unfolding erase
IsKnown-erase_other pointer name contexts other (inl e) = inl e
IsKnown-erase_other pointer name contexts other (inr h) = inr (rw other h)

IsKnown-erase :
    (pointer name : Text) (contexts : Contexts)
    → IsKnown pointer contexts
    → IsKnown (unless_named name pointer) (erase name contexts)
unfolding unless_named
IsKnown-erase pointer name contexts known = elim (Bool-cases (text_eq pointer name)) [
  | inl same ↦ inl (rw same refl)
  | inr other ↦ rw other (IsKnown-erase_other pointer name contexts other known)
]

-- No other name is the empty one.
not_empty : (name : Text) → text_eq name [] ≡ false → text_eq [] name ≡ false
unfolding text_eq
not_empty [] h = h
not_empty (c ∷ name) h = refl

cluster_named : (s : Text) → text_eq s [] ≡ false → s ≢ []
cluster_named s h e = absurd (false_true (sym h ∙ (text_eq_iff s []).1 e))
  where
    false_true : false ≡ true → ⊥
    false_true k = cc

erased_some :
    (name n : Text) (contexts : Contexts) (c : Context)
    → erase name contexts n ≡ some c
    → contexts n ≡ some c
unfolding erase
erased_some name n contexts c h = elim (Bool-cases (text_eq n name)) [
  | inl same ↦ absurd (none_some (rw same at h))
  | inr other ↦ rw other at h
]
  where
    none_some : none ≡ some c → ⊥
    none_some k = cc

erased_none :
    (name n : Text) (contexts : Contexts) → contexts n ≡ none → erase name contexts n ≡ none
unfolding erase
erased_none name n contexts h = elim (Bool-cases (text_eq n name)) [
  | inl same ↦ rw same refl
  | inr other ↦ rw other h
]

swap_back-IsSound : (f : File) → IsSound f → IsSound (swap_back f).1
unfolding swap_back
swap_back-IsSound f h = elim (Bool-cases (text_eq f.previous [])) [
  | inl nothing ↦ rw nothing h
  | inr there ↦ rw there (record {
    current_known = h.previous_known;
    previous_known = h.current_known;
    named = h.named;
    clustered = h.clustered;
  })
]

rotate-IsSound :
    (name : Text) (f : File) → f.contexts name ≢ none → IsSound f → IsSound (rotate name f)
unfolding rotate
rotate-IsSound name f known h = record {
  current_known = inr known;
  previous_known = elim (Bool-cases (text_eq f.current name)) [
    | inl same ↦ rw same h.previous_known
    | inr other ↦ rw other h.current_known
  ];
  named = h.named;
  clustered = h.clustered;
}

use_context-IsSound : (name : Text) (f : File) → IsSound f → IsSound (use_context name f).1
unfolding use_context
use_context-IsSound name f h = elim (Bool-cases (is_dash name)) [
  | inl dash ↦ rw (use_context, dash) (swap_back-IsSound f h)
  | inr word ↦ elim (Option-cases (f.contexts name)) [
    | inl unknown ↦ rw (use_context, word, unknown) h
    | inr (c, known) ↦ rw (use_context, word, known) (rotate-IsSound name f (λ e. cc) h)
  ]
]

inserted-IsSound :
    (name : Text) (c : Context) (f : File)
    → text_eq name [] ≡ false
    → text_eq c.cluster [] ≡ false
    → IsSound f
    → IsSound (record f { contexts = insert name c f.contexts })
unfolding insert
inserted-IsSound name c f word cluster h = record {
  current_known = IsKnown-insert f.current name c f.contexts h.current_known;
  previous_known = IsKnown-insert f.previous name c f.contexts h.previous_known;
  named = rw (not_empty name word) h.named;
  clustered = λ n d e. elim (Bool-cases (text_eq n name)) [
    | inl same ↦
        subst (λ (x : Context). x.cluster ≢ []) (some_eq (rw same at e))
          (cluster_named c.cluster cluster)
    | inr other ↦ h.clustered n d (rw other at e)
  ];
}
  where
    some_eq : {d : Context} → some c ≡ some d → c ≡ d
    some_eq k = cc

set_context-IsSound :
    (name : Text) (c : Context) (f : File) → IsSound f → IsSound (set_context name c f).1
unfolding set_context
set_context-IsSound name c f h = elim (Bool-cases (text_eq name [])) [
  | inl nameless ↦ rw nameless h
  | inr word ↦ elim (Bool-cases (text_eq c.cluster [])) [
    | inl clusterless ↦ rw (word, clusterless) h
    | inr cluster ↦ rw (word, cluster) (inserted-IsSound name c f word cluster h)
  ]
]

remove_context-IsSound : (name : Text) (f : File) → IsSound f → IsSound (remove_context name f).1
unfolding remove_context
remove_context-IsSound name f h = elim (Option-cases (f.contexts name)) [
  | inl unknown ↦ rw (remove_context, unknown) h
  | inr (c, known) ↦
      rw (remove_context, known)
        (record {
          current_known = IsKnown-erase f.current name f.contexts h.current_known;
          previous_known = IsKnown-erase f.previous name f.contexts h.previous_known;
          named = erased_none name [] f.contexts h.named;
          clustered = λ n d e. h.clustered n d (erased_some name n f.contexts d e);
        })
]

-- Whatever operations are asked for, and whether they fail or not: the pointers stay empty or name
-- contexts, and every context keeps a name and a cluster.
pub apply_all-IsSound : (ops : List Operation) (f : File) → IsSound f → IsSound (apply_all ops f)
unfolding apply_all apply
apply_all-IsSound [] f h = h
apply_all-IsSound (use_name name ∷ ops) f h =
    apply_all-IsSound ops (use_context name f).1 (use_context-IsSound name f h)
apply_all-IsSound (set_name name c ∷ ops) f h =
    apply_all-IsSound ops (set_context name c f).1 (set_context-IsSound name c f h)
apply_all-IsSound (remove_name name ∷ ops) f h =
    apply_all-IsSound ops (remove_context name f).1 (remove_context-IsSound name f h)
