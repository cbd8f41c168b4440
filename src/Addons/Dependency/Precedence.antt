-- ===== src/Addons/Dependency/Precedence.antt =====
-- What the rounds of the sort leave to be counted.
use mathlib.Core.Path.{subst}
use refresh.Prelude.{
  ℕ, suc, ◌+◌, ◌≡◌, refl, sym, ap, ◌∙◌, ◌⊎◌, inl, inr, Bool, true, false, not, ◌&&◌, Bool-cases,
  List, [], ◌∷◌, ◌++◌, arith, ==_iff, if◌then◌else◌,
}
use refresh.Prelude.Int.{ℤ, pos, ◌-ℤ◌, -ℤ_parts, eq_of_parts}
use refresh.Text.{Text, text_eq, text_eq_iff}
use refresh.Addons.Service.{AddonSummary}
use refresh.Addons.Dependency.{
  Graph, release, is_ready, find_addon, is_some, dependencies, has_name,
}
use refresh.Addons.Dependency.Waiting.{Names, AllNamed, one_less}
use refresh.Addons.Dependency.Distinct.{In}
use refresh.Addons.Dependency.Joining.{true_false, In-snoc}
use refresh.Addons.Dependency.Counting.{times, apart_text}

-- The dependencies that are installed and were not taken.
abbrev pub pending_edges : (addons taken : List AddonSummary) → List Text → ℕ
pending_edges addons taken [] = 0
pending_edges addons taken (d ∷ deps) =
    if is_some (find_addon addons d) && not (has_name taken d)
    then suc (pending_edges addons taken deps)
    else pending_edges addons taken deps

pub has_name-snoc :
    (taken : List AddonSummary) (a : AddonSummary) (d : Text)
    → has_name (taken ++ a ∷ []) d ≡ (if text_eq a.name d then true else has_name taken d)
unfolding has_name
has_name-snoc [] a d = ground arith
has_name-snoc (b ∷ taken) a d = rw (has_name-snoc taken a d) (ground arith)

-- An addon that is taken takes its edges out of those that are pending.
pub pending_edges-snoc :
    (addons taken : List AddonSummary) (a : AddonSummary) (deps : List Text)
    → is_some (find_addon addons a.name) ≡ true
    → has_name taken a.name ≡ false
    → pending_edges addons taken deps
      ≡ pending_edges addons (taken ++ a ∷ []) deps + times deps a.name
pending_edges-snoc addons taken a [] there new = omega arith
pending_edges-snoc addons taken a (d ∷ deps) there new =
    let rest = pending_edges-snoc addons taken a deps there new in
    elim (Bool-cases (text_eq a.name d)) [
      | inl e ↦
          let name = (text_eq_iff a.name d).0 e in
          let found = ap (λ x. is_some (find_addon addons x)) (sym name) ∙ there in
          let fresh = ap (has_name taken) (sym name) ∙ new in
          let seen = has_name-snoc taken a d ∙ ap (λ b. if b then true else has_name taken d) e in
          let back = (text_eq_iff d a.name).1 (sym name) in
          rw (found, fresh, seen, back) (omega arith)
      | inr e ↦
          let seen = has_name-snoc taken a d ∙ ap (λ b. if b then true else has_name taken d) e in
          let back =
            apart_text d a.name (λ k. true_false (sym ((text_eq_iff a.name d).1 (sym k)) ∙ e)) in
          rw (seen, back) (ground arith)
    ]

last_edge : (z : ℤ) (k : ℕ) → z ≡ pos (suc k) → z -ℤ pos 1 ≡ pos k
last_edge z k h = subst (λ y. y -ℤ pos 1 ≡ pos k) (sym h) difference
  where
    difference : pos (suc k) -ℤ pos 1 ≡ pos k
    difference =
        let parts = -ℤ_parts (pos (suc k)) (pos 1) in
        eq_of_parts (pos (suc k) -ℤ pos 1) (pos k) (omega arith)

is_ready-pos : (k : ℕ) → is_ready (pos k) ≡ true → k ≡ 0
unfolding is_ready
is_ready-pos k h = (==_iff k 0).0 h

-- While the dependents of an addon are released: the edges of an addon that are counted are those
-- that are pending, and those that are still to be released; the queue holds addons without pending
-- edges; and an addon that has not joined it still waits.
pub record Waits (addons taken : List AddonSummary) (queue ds : List Text) (g : Graph)
    : Type 0 where
  pub degree :
      (n : Text)
      → Names addons n
      → g.in_degree n ≡ pos (pending_edges addons taken (dependencies n) + times ds n)
  pub done : (n : Text) → In queue n → pending_edges addons taken (dependencies n) ≡ 0
  pub left :
      (n : Text)
      → Names addons n
      → (In queue n ⊎ Names taken n) ⊎ (is_ready (g.in_degree n) ≡ false)

In-snoc-left : (ns : List Text) (m n : Text) → In ns n → In (ns ++ m ∷ []) n
In-snoc-left [] m n h = elim h [ ]
In-snoc-left (k ∷ ns) m n (inl e) = inl e
In-snoc-left (k ∷ ns) m n (inr h) = inr (In-snoc-left ns m n h)

In-last : (ns : List Text) (m n : Text) → m ≡ n → In (ns ++ m ∷ []) n
In-last [] m n e = inl e
In-last (k ∷ ns) m n e = inr (In-last ns m n e)

module _ (addons taken : List AddonSummary) (queue ds : List Text) (g : Graph) (d : Text)
    (here : Names addons d) (w : Waits addons taken queue (d ∷ ds) g) where
  degree_after :
      (n : Text)
      → Names addons n
      → one_less g.in_degree d n ≡ pos (pending_edges addons taken (dependencies n) + times ds n)
  degree_after n h = elim (Bool-cases (text_eq d n)) [
    | inl e ↦ rw e (
        last_edge (g.in_degree d) (pending_edges addons taken (dependencies n) + times ds n)
          (ap g.in_degree ((text_eq_iff d n).0 e) ∙ w.degree n h ∙ ap pos (one_more e)))
    | inr e ↦ rw e (w.degree n h ∙ ap pos (no_more e))
  ]
    where
      one_more :
          text_eq d n ≡ true
          → pending_edges addons taken (dependencies n) + times (d ∷ ds) n
            ≡ suc (pending_edges addons taken (dependencies n) + times ds n)
      one_more e = rw e (omega arith)

      no_more :
          text_eq d n ≡ false
          → pending_edges addons taken (dependencies n) + times (d ∷ ds) n
            ≡ pending_edges addons taken (dependencies n) + times ds n
      no_more e = rw e refl

  is_ready_after :
      (n : Text)
      → text_eq d n ≡ false
      → is_ready (g.in_degree n) ≡ false
      → is_ready (one_less g.in_degree d n) ≡ false
  is_ready_after n e h = rw e h

  Waits-freed :
      is_ready (one_less g.in_degree d d) ≡ true
      → Waits addons taken (queue ++ d ∷ []) ds (record g { in_degree = one_less g.in_degree d })
  Waits-freed freed = record {
    degree = degree_after;
    done = λ n h. elim (In-snoc queue d n h) [
      | inl i ↦ w.done n i
      | inr e ↦ subst (λ m. pending_edges addons taken (dependencies m) ≡ 0) e none_left
    ];
    left = λ n h. still n h;
  }
    where
      none_left : pending_edges addons taken (dependencies d) ≡ 0
      none_left =
          let zero_now =
            is_ready-pos (pending_edges addons taken (dependencies d) + times ds d)
              (ap is_ready (sym (degree_after d here)) ∙ freed) in
          omega arith

      still :
          (n : Text)
          → Names addons n
          → (In (queue ++ d ∷ []) n ⊎ Names taken n) ⊎ (is_ready (one_less g.in_degree d n) ≡ false)
      still n h = elim (Bool-cases (text_eq d n)) [
        | inl e ↦ inl (inl (In-last queue d n ((text_eq_iff d n).0 e)))
        | inr e ↦ elim (w.left n h) [
          | inl (inl i) ↦ inl (inl (In-snoc-left queue d n i))
          | inl (inr k) ↦ inl (inr k)
          | inr waits ↦ inr (is_ready_after n e waits)
        ]
      ]

  Waits-kept :
      is_ready (one_less g.in_degree d d) ≡ false
      → Waits addons taken queue ds (record g { in_degree = one_less g.in_degree d })
  Waits-kept waits = record { degree = degree_after; done = w.done; left = λ n h. still n h }
    where
      still :
          (n : Text)
          → Names addons n
          → (In queue n ⊎ Names taken n) ⊎ (is_ready (one_less g.in_degree d n) ≡ false)
      still n h = elim (Bool-cases (text_eq d n)) [
        | inl e ↦
            inr (
              subst (λ m. is_ready (one_less g.in_degree d m) ≡ false) ((text_eq_iff d n).0 e)
                waits)
        | inr e ↦ elim (w.left n h) [
          | inl joined ↦ inl joined
          | inr waited ↦ inr (is_ready_after n e waited)
        ]
      ]

pub release-Waits :
    (addons taken : List AddonSummary) (ds : List Text) (g : Graph) (queue : List Text)
    → AllNamed addons ds
    → Waits addons taken queue ds g
    → Waits addons taken (release ds g queue).1 [] (release ds g queue).0
unfolding release
release-Waits addons taken [] g queue named w = w
release-Waits addons taken (d ∷ ds) g queue (here, named) w =
    let g1 : Graph = record g { in_degree = one_less g.in_degree d } in
    let queue_with = λ (b : Bool). if b then queue ++ d ∷ [] else queue in
    let Kept = λ (b : Bool).
      Waits addons taken (release ds g1 (queue_with b)).1 [] (release ds g1 (queue_with b)).0 in
    elim (Bool-cases (is_ready (one_less g.in_degree d d))) [
      | inl freed ↦ subst Kept (sym freed) (
          release-Waits addons taken ds g1 (queue ++ d ∷ []) named
            (Waits-freed addons taken queue ds g d here w freed))
      | inr waits ↦ subst Kept (sym waits) (
          release-Waits addons taken ds g1 queue named
            (Waits-kept addons taken queue ds g d here w waits))
    ]
