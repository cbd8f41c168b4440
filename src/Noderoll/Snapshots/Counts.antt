-- ===== src/Noderoll/Snapshots/Counts.antt =====
-- The counts of a snapshot are those of its nodes.
use refresh.Prelude.{
  ℕ, suc, ◌≡◌, refl, sym, ap, ◌∙◌, inl, inr, Bool, Bool-cases, List, [], ◌∷◌, ◌++◌, Option, arith,
  length,
}
use refresh.Text.{Text}
use refresh.Noderoll.{Node, Pod, NodeView, classify}
use refresh.Noderoll.Snapshots.{
  Snapshot, is_draining, is_joining, is_ready_target, one_more, add_view, add_nodes, fill_view,
  fill_views, insert_view, sort_views,
}

-- How many of the nodes pass a test.
abbrev pub count : (NodeView → Bool) → List NodeView → ℕ
count test [] = 0
count test (v ∷ vs) = one_more (test v) (count test vs)

-- The four counts of a snapshot are those of its nodes.
pub record IsCounted (s : Snapshot) : Type 0 where
  pub all : s.total ≡ length s.nodes
  pub targets : s.ready_target ≡ count is_ready_target s.nodes
  pub drains : s.draining ≡ count is_draining s.nodes
  pub joins : s.joining ≡ count is_joining s.nodes

count-snoc :
    (test : NodeView → Bool) (vs : List NodeView) (v : NodeView)
    → count test (vs ++ v ∷ []) ≡ one_more (test v) (count test vs)
count-snoc test [] v = refl
count-snoc test (u ∷ us) v = ground (arith, count-snoc test us v)

length-snoc : (vs : List NodeView) (v : NodeView) → length (vs ++ v ∷ []) ≡ suc (length vs)
length-snoc [] v = refl
length-snoc (u ∷ us) v = ap suc (length-snoc us v)

add_view-IsCounted : (s : Snapshot) (v : NodeView) → IsCounted s → IsCounted (add_view s v)
unfolding add_view
add_view-IsCounted s v h = record {
  all = ap suc h.all ∙ sym (length-snoc s.nodes v);
  targets =
      ap (one_more (is_ready_target v)) h.targets ∙ sym (count-snoc is_ready_target s.nodes v);
  drains = ap (one_more (is_draining v)) h.drains ∙ sym (count-snoc is_draining s.nodes v);
  joins = ap (one_more (is_joining v)) h.joins ∙ sym (count-snoc is_joining s.nodes v);
}

pub add_nodes-IsCounted :
    (target_ami : Text) (baseline : Option (Text → Bool)) (s : Snapshot) (ns : List Node)
    → IsCounted s
    → IsCounted (add_nodes target_ami baseline s ns)
unfolding add_nodes
add_nodes-IsCounted target_ami baseline s [] h = h
add_nodes-IsCounted target_ami baseline s (n ∷ ns) h =
    add_nodes-IsCounted target_ami baseline (add_view s (classify target_ami baseline n)) ns
      (add_view-IsCounted s (classify target_ami baseline n) h)

-- A test that sees neither the pods of a node nor their total.
abbrev pub SeesNoPods : (NodeView → Bool) → Type 0
SeesNoPods test = (v : NodeView) (n m : ℕ) → test (record v { pods = n; pods_total = m }) ≡ test v

fill_view-test :
    (test : NodeView → Bool) (pods : List Pod) (start : Text → Option ℕ) (v : NodeView)
    → SeesNoPods test
    → test (fill_view pods start v).0 ≡ test v
unfolding fill_view
fill_view-test test pods start v blind = elim (Bool-cases (is_draining v)) [
  | inl drains ↦ rw drains (blind v _ _)
  | inr stays ↦ rw stays refl
]

pub count-fill_views :
    (test : NodeView → Bool) (pods : List Pod) (start : Text → Option ℕ) (vs : List NodeView)
    → SeesNoPods test
    → count test (fill_views pods start vs).0 ≡ count test vs
unfolding fill_views
count-fill_views test pods start [] blind = refl
count-fill_views test pods start (v ∷ vs) blind =
    ap (λ b. one_more b (count test (fill_views pods (fill_view pods start v).1 vs).0))
      (fill_view-test test pods start v blind)
    ∙ ap (one_more (test v)) (count-fill_views test pods (fill_view pods start v).1 vs blind)

pub length-fill_views :
    (pods : List Pod) (start : Text → Option ℕ) (vs : List NodeView)
    → length (fill_views pods start vs).0 ≡ length vs
unfolding fill_views
length-fill_views pods start [] = refl
length-fill_views pods start (v ∷ vs) =
    ap suc (length-fill_views pods (fill_view pods start v).1 vs)

count-insert_view :
    (test : NodeView → Bool) (v : NodeView) (vs : List NodeView)
    → count test (insert_view v vs) ≡ one_more (test v) (count test vs)
unfolding insert_view
count-insert_view test v [] = refl
count-insert_view test v (u ∷ us) = ground (arith, count-insert_view test v us)

length-insert_view :
    (v : NodeView) (vs : List NodeView) → length (insert_view v vs) ≡ suc (length vs)
unfolding insert_view
length-insert_view v [] = refl
length-insert_view v (u ∷ us) = ground (arith, length-insert_view v us)

pub count-sort_views :
    (test : NodeView → Bool) (vs : List NodeView) → count test (sort_views vs) ≡ count test vs
unfolding sort_views
count-sort_views test [] = refl
count-sort_views test (v ∷ vs) =
    count-insert_view test v (sort_views vs) ∙ ap (one_more (test v)) (count-sort_views test vs)

pub length-sort_views : (vs : List NodeView) → length (sort_views vs) ≡ length vs
unfolding sort_views
length-sort_views [] = refl
length-sort_views (v ∷ vs) = length-insert_view v (sort_views vs) ∙ ap suc (length-sort_views vs)
