-- ===== src/Contexts.antt =====
-- internal/cliconfig/store.go: the named contexts, the one in use and the one that was in use before.
pub mod Pointers
pub mod Switching
pub mod Disk
use refresh.Prelude.{
  ◌≡◌, Bool, true, false, ◌&&◌, not, List, [], ◌∷◌, Option, none, some, if◌then◌else◌,
}
use refresh.Text.{Text, txt, concat, text_eq}
use refresh.Text.Decimal.{quote}
use refresh.Go.{GoError, plain}

pub record Context : Type 0 where
  pub cluster : Text
  pub region : Text
  pub profile : Text

-- The map of contexts; a name without an entry has `none`.
abbrev pub Contexts : Type 0
Contexts = Text → Option Context

pub record File : Type 0 where
  pub current : Text
  pub previous : Text
  pub contexts : Contexts

abbrev pub no_contexts : Contexts
no_contexts name = none

abbrev pub empty_file : File
empty_file = record { current = []; previous = []; contexts = no_contexts }

unfoldable pub insert : Text → Context → Contexts → Contexts
insert name c contexts n = if text_eq n name then some c else contexts n

unfoldable pub erase : Text → Contexts → Contexts
erase name contexts n = if text_eq n name then none else contexts n

-- The context of a name, with the name; the empty name stands for none.
unfoldable pub chosen : Text → Contexts → Option (Text × Context)
chosen name contexts = elim (text_eq name []) [
  | true ↦ none
  | false ↦ elim (contexts name) [ none ↦ none | some c ↦ some (name, c) ]
]

-- `Active`, with the value of `REFRESH_CONTEXT`
unfoldable pub active : (override : Text) → File → Option (Text × Context)
unfolding chosen
active override f = elim (chosen override f.contexts) [
  | some found ↦ some found
  | none ↦ chosen f.current f.contexts
]

-- The operations change the file in place; beside it stands the error that they return, if any.
abbrev pub Change : Type 0
Change = Option GoError × File

swap_back : File → Change
swap_back f =
    if text_eq f.previous []
    then (some (plain (txt "no previous context to switch to")), f)
    else (none, record f { current = f.previous; previous = f.current })

unknown_context : Text → GoError
unknown_context name = plain (concat (txt "unknown context " ∷ quote name ∷ []))

rotate : Text → File → File
rotate name f = record f {
  current = name;
  previous = if text_eq f.current name then f.previous else f.current;
}

-- The name that stands for the context before.
unfoldable pub is_dash : Text → Bool
is_dash name = text_eq name (txt "-")

-- `Use`
unfoldable pub use_context : Text → File → Change
unfolding swap_back unknown_context rotate
use_context name f = elim (is_dash name) [
  | true ↦ swap_back f
  | false ↦ elim (f.contexts name) [
    | none ↦ (some (unknown_context name), f)
    | some c ↦ (none, rotate name f)
  ]
]

-- `Set`
unfoldable pub set_context : Text → Context → File → Change
unfolding insert
set_context name c f =
    if text_eq name []
    then (some (plain (txt "context name is required")), f)
    else if text_eq c.cluster []
    then (some (plain (txt "cluster is required")), f)
    else (none, record f { contexts = insert name c f.contexts })

unless_named : Text → Text → Text
unless_named name pointer = if text_eq pointer name then [] else pointer

-- `Remove`
unfoldable pub remove_context : Text → File → Change
unfolding unknown_context erase unless_named
remove_context name f = elim (f.contexts name) [
  | none ↦ (some (unknown_context name), f)
  | some c ↦ (
    none,
    record {
      current = unless_named name f.current;
      previous = unless_named name f.previous;
      contexts = erase name f.contexts;
    },
  )
]

-- An operation on the file, as one of the commands asks for it.
pub data Operation : Type 0 where
  use_name : Text → Operation
  set_name : Text → Context → Operation
  remove_name : Text → Operation

unfoldable pub apply : Operation → File → Change
unfolding use_context set_context remove_context
apply (use_name name) f = use_context name f
apply (set_name name c) f = set_context name c f
apply (remove_name name) f = remove_context name f

-- Operations one behind the other, errors included.
unfoldable pub apply_all : List Operation → File → File
unfolding apply
apply_all [] f = f
apply_all (op ∷ ops) f = apply_all ops (apply op f).1
