-- ===== src/Tests/Cache.antt =====
-- A cache whose entry ends, is replaced between the sections of a `Get`, and ends again.
use refresh.Prelude.{ℕ, ◌≡◌, refl, arith, List, [], ◌∷◌, none, some}
use refresh.Text.{txt, text_eq}
use refresh.Common.TtlCache.{
  TtlCache, Section, look_up, drop_entry, store, store_default, run, drop_expired, set, set_default,
}
use refresh.Common.TtlCache.Lazily.{without_drops, InOrder, run-without_drops}

abbrev empty : TtlCache ℕ
empty = record { items = λ key. none; default_ttl = 5 }

abbrev sections : List (Section ℕ)
sections =
    store_default (txt "a") 1 0
    ∷ look_up (txt "a") 5
    ∷ look_up (txt "a") 6
    ∷ store (txt "a") 2 10 6
    ∷ drop_entry (txt "a") 7
    ∷ look_up (txt "a") 8
    ∷ drop_entry (txt "a") 17
    ∷ look_up (txt "a") 17
    ∷ []

answers : run sections empty ≡ some 1 ∷ none ∷ some 2 ∷ none ∷ []
unfolding run drop_expired set set_default text_eq
answers = refl

in_order : InOrder 0 sections
in_order = ground arith

run-without_drops_example : run sections empty ≡ run (without_drops sections) empty
run-without_drops_example = run-without_drops sections 0 empty in_order
