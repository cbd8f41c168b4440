-- ===== src/Noderoll/Snapshots/Reports.antt =====
-- A snapshot shows the nodes that were listed.
use refresh.Prelude.{
  ℕ, ◌≡◌, refl, sym, ap, ◌∙◌, inl, inr, Bool, Bool-cases, List, [], ◌∷◌, ◌++◌, map, Option, ltb,
  length,
}
use mathlib.Core.Path.{subst}
use refresh.Text.{Text}
use refresh.Go.{Result, ok, err}
use refresh.Noderoll.{Node, Pod, NodeView, classify}
use refresh.Noderoll.Snapshots.{
  Snapshot, Observer, Kube, is_draining, is_joining, is_ready_target, no_nodes, add_view, add_nodes,
  fill_views, fill_pod_eviction, sort_views, sorted_snapshot, snapshot_of, snapshot_from, snapshot,
}
use refresh.Noderoll.Snapshots.Counts.{
  count, IsCounted, SeesNoPods, add_nodes-IsCounted, count-fill_views, length-fill_views,
  count-sort_views, length-sort_views,
}

-- A list of other nodes in another order, or with other pods, as far as the counts can see.
pub record IsLike (vs us : List NodeView) : Type 0 where
  pub same_length : length vs ≡ length us
  pub same_counts : (test : NodeView → Bool) → SeesNoPods test → count test vs ≡ count test us

IsLike-refl : (vs : List NodeView) → IsLike vs vs
IsLike-refl vs = record { same_length = refl; same_counts = λ test blind. refl }

IsLike-trans : {us vs ws : List NodeView} → IsLike us vs → IsLike vs ws → IsLike us ws
IsLike-trans h k = record {
  same_length = h.same_length ∙ k.same_length;
  same_counts = λ test blind. h.same_counts test blind ∙ k.same_counts test blind;
}

sort_views-IsLike : (vs : List NodeView) → IsLike (sort_views vs) vs
sort_views-IsLike vs = record {
  same_length = length-sort_views vs;
  same_counts = λ test blind. count-sort_views test vs;
}

fill_views-IsLike :
    (pods : List Pod) (start : Text → Option ℕ) (vs : List NodeView)
    → IsLike (fill_views pods start vs).0 vs
fill_views-IsLike pods start vs = record {
  same_length = length-fill_views pods start vs;
  same_counts = λ test blind. count-fill_views test pods start vs blind;
}

with_nodes-IsCounted :
    (s : Snapshot) (vs : List NodeView)
    → IsLike vs s.nodes
    → IsCounted s
    → IsCounted (record s { nodes = vs })
with_nodes-IsCounted s vs like h = record {
  all = h.all ∙ sym like.same_length;
  targets = h.targets ∙ sym (like.same_counts is_ready_target (λ v n m. refl));
  drains = h.drains ∙ sym (like.same_counts is_draining (λ v n m. refl));
  joins = h.joins ∙ sym (like.same_counts is_joining (λ v n m. refl));
}

append-nil : (vs : List NodeView) → vs ++ [] ≡ vs
append-nil [] = refl
append-nil (v ∷ vs) = ap (λ (us : List NodeView). v ∷ us) (append-nil vs)

append_snoc : (us vs : List NodeView) (v : NodeView) → (us ++ v ∷ []) ++ vs ≡ us ++ v ∷ vs
append_snoc [] vs v = refl
append_snoc (u ∷ us) vs v = ap (λ (ws : List NodeView). u ∷ ws) (append_snoc us vs v)

nodes-add_nodes :
    (target_ami : Text) (baseline : Option (Text → Bool)) (s : Snapshot) (ns : List Node)
    → (add_nodes target_ami baseline s ns).nodes ≡ s.nodes ++ map (classify target_ami baseline) ns
unfolding add_nodes add_view
nodes-add_nodes target_ami baseline s [] = sym (append-nil s.nodes)
nodes-add_nodes target_ami baseline s (n ∷ ns) =
    nodes-add_nodes target_ami baseline (add_view s (classify target_ami baseline n)) ns
    ∙ append_snoc s.nodes (map (classify target_ami baseline) ns) (classify target_ami baseline n)

no_nodes-IsCounted : IsCounted no_nodes
no_nodes-IsCounted = record { all = refl; targets = refl; drains = refl; joins = refl }

-- A snapshot with right counts, of such nodes.
abbrev pub Reports : List NodeView → Snapshot → Type 0
Reports views s = IsCounted s × IsLike s.nodes views

Reports-fill :
    (views : List NodeView) (pods : Result (List Pod)) (o : Observer) (s : Snapshot)
    → Reports views s
    → Reports views (fill_pod_eviction pods o s).0
unfolding fill_pod_eviction
Reports-fill views (err e) o s h = h
Reports-fill views (ok pods) o s (counted, like) =
    let filled = fill_views-IsLike pods o.drain_start s.nodes in
    (with_nodes-IsCounted s _ filled counted, IsLike-trans filled like)

Reports-sort :
    (views : List NodeView) (s : Snapshot)
    → Reports views s
    → Reports views (record s { nodes = sort_views s.nodes })
Reports-sort views s (counted, like) = (
  with_nodes-IsCounted s (sort_views s.nodes) (sort_views-IsLike s.nodes) counted,
  IsLike-trans (sort_views-IsLike s.nodes) like,
)

sorted_snapshot-Reports :
    (views : List NodeView) (q : Snapshot × Observer) (s : Snapshot)
    → Reports views q.0
    → (sorted_snapshot q).0 ≡ ok s
    → Reports views s
unfolding sorted_snapshot
sorted_snapshot-Reports views (s0, o) s h e =
    subst (Reports views) (ok_eq e) (Reports-sort views s0 h)
  where
    ok_eq : {A : Type 0} {a b : A} → ok a ≡ ok b → a ≡ b
    ok_eq k = cc

module _ {W : Type 0} (k : Kube W) (target_ami : Text) where
  snapshot_of-Reports :
      (o : Observer) (nodes : List Node) (w : W) (s : Snapshot)
      → (snapshot_of k target_ami o nodes w).0 ≡ ok s
      → Reports (map (classify target_ami o.baseline) nodes) s
  unfolding snapshot_of
  snapshot_of-Reports o nodes w s h =
      let views = map (classify target_ami o.baseline) nodes in
      let s0 = add_nodes target_ami o.baseline no_nodes nodes in
      let fresh : Reports views s0 = (
        add_nodes-IsCounted target_ami o.baseline no_nodes nodes no_nodes-IsCounted,
        subst (λ vs. IsLike vs views) (sym (nodes-add_nodes target_ami o.baseline no_nodes nodes))
            (IsLike-refl views),
      ) in
      elim (Bool-cases (ltb 0 s0.draining)) [
        | inl drains ↦
            sorted_snapshot-Reports views (fill_pod_eviction (k.list_pods w).0 o s0) s
              (Reports-fill views (k.list_pods w).0 o s0 fresh) (rw drains at h)
        | inr still ↦ sorted_snapshot-Reports views (s0, o) s fresh (rw still at h)
      ]

  snapshot_from-Reports :
      (o : Observer) (r : Result (List Node) × W) (s : Snapshot)
      → (snapshot_from k target_ami o r).0 ≡ ok s
      → (nodes : List Node) × (r.0 ≡ ok nodes)
        × Reports (map (classify target_ami o.baseline) nodes) s
  unfolding snapshot_from
  snapshot_from-Reports o (err e, w) s h = cc
  snapshot_from-Reports o (ok nodes, w) s h = (nodes, refl, snapshot_of-Reports o nodes w s h)

  -- A snapshot that `Snapshot` returns has the nodes that were listed, classified and in another
  -- order, but for the pods on them, and its counts are those of its nodes.
  pub snapshot-Reports :
      (o : Observer) (w : W) (s : Snapshot)
      → (snapshot k target_ami o w).0 ≡ ok s
      → (nodes : List Node) × ((k.list_nodes w).0 ≡ ok nodes)
        × Reports (map (classify target_ami o.baseline) nodes) s
  unfolding snapshot
  snapshot-Reports o w s h = snapshot_from-Reports o (k.list_nodes w) s h
