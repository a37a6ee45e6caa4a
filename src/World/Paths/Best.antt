-- ===== src/World/Paths/Best.antt =====
-- getBestNode (src/map.cpp) finds the cheapest open node.
use baiak_fonticak.Base.{ℕ, zero, suc, ◌+◌, ◌≤◌, ◌<◌, ◌≡◌, refl, sym, ap, subst, ◌∙◌, ◌⊎◌}
use baiak_fonticak.Base.{inl, inr, true, false, ◌&&◌, Option, none, some, arith, ltb, ◌==◌}
use baiak_fonticak.Base.{Bool-cases}
use baiak_fonticak.World.Paths.{AStarNodes, best_loop, get_best_node, int32_max}

-- No open node below `n` is cheaper than `f`.
abbrev pub IsBound : AStarNodes → ℕ → ℕ → Type 0
IsBound s n f = (j : ℕ) → j < n → s.open_nodes j ≡ true → f ≤ (s.nodes j).f

-- The node `b` is an open node below `n`, and none there is cheaper.
pub record IsBest (s : AStarNodes) (n b : ℕ) : Type 0 where
  is_open : s.open_nodes b ≡ true
  inside : b < n
  least : IsBound s n (s.nodes b).f

-- The cost and the node that the loop holds behind the nodes below `i`.
record IsHeld (s : AStarNodes) (i f : ℕ) (b : Option ℕ) : Type 0 where
  bound : IsBound s i f
  node :
      ((b ≡ none) × (f ≡ int32_max))
      ⊎ ((k : ℕ) × (b ≡ some k) × (s.open_nodes k ≡ true) × (k < i) × ((s.nodes k).f ≡ f))

IsBound-suc :
    (s : AStarNodes) (i f : ℕ)
    → IsBound s i f
    → (s.open_nodes i ≡ true → f ≤ (s.nodes i).f)
    → IsBound s (suc i) f
IsBound-suc s i f before here j below is_open = elim (Bool-cases (j == i)) [
  | inl last ↦
      let same : i ≡ j = ground (arith, last) in
      subst (λ k. s.open_nodes k ≡ true → f ≤ (s.nodes k).f) same here is_open
  | inr other ↦ before j (ground (arith, other, below)) is_open
]

take_next :
    (s : AStarNodes) (n i f : ℕ) (b : Option ℕ)
    → (s.open_nodes i && ltb (s.nodes i).f f) ≡ true
    → best_loop s (suc n) i f b ≡ best_loop s n (suc i) (s.nodes i).f (some i)
unfolding best_loop
take_next s n i f b h = ground (arith, h)

skip_next :
    (s : AStarNodes) (n i f : ℕ) (b : Option ℕ)
    → (s.open_nodes i && ltb (s.nodes i).f f) ≡ false
    → best_loop s (suc n) i f b ≡ best_loop s n (suc i) f b
unfolding best_loop
skip_next s n i f b h = ground (arith, h)

IsHeld-take :
    (s : AStarNodes) (i f : ℕ) (b : Option ℕ)
    → IsHeld s i f b
    → (s.open_nodes i && ltb (s.nodes i).f f) ≡ true
    → IsHeld s (suc i) (s.nodes i).f (some i)
IsHeld-take s i f b h better =
    let is_open : s.open_nodes i ≡ true = ground (arith, better) in
    let less : (s.nodes i).f < f = ground (arith, better) in
    record {
      bound =
          IsBound-suc s i (s.nodes i).f
            (λ j below open_j. let old = h.bound j below open_j in omega (arith, old, less))
            (λ open_i. omega arith);
      node = inr (i, refl, is_open, omega arith, refl);
    }

IsHeld-skip :
    (s : AStarNodes) (i f : ℕ) (b : Option ℕ)
    → IsHeld s i f b
    → (s.open_nodes i && ltb (s.nodes i).f f) ≡ false
    → IsHeld s (suc i) f b
IsHeld-skip s i f b h worse = record {
  bound = IsBound-suc s i f h.bound (λ open_i. ground (arith, worse, open_i));
  node = elim h.node [
    | inl empty ↦ inl empty
    | inr (k, same, is_open, below, cost) ↦ inr (k, same, is_open, omega (arith, below), cost)
  ];
}

IsHeld-start : (s : AStarNodes) → IsHeld s 0 int32_max none
IsHeld-start s = record {
  bound = λ j below is_open. absurd (omega (arith, below));
  node = inl (refl, refl);
}

best_done :
    (s : AStarNodes) (i f : ℕ) (b : Option ℕ)
    → IsHeld s i f b
    → (f' : ℕ) × IsHeld s (0 + i) f' (best_loop s 0 i f b)
unfolding best_loop
best_done s i f b h = let same : i ≡ 0 + i = omega arith in (f, subst (λ n. IsHeld s n f b) same h)

shift :
    (s : AStarNodes) (n i f : ℕ) (b : Option ℕ)
    → IsHeld s (n + suc i) f b
    → IsHeld s (suc n + i) f b
shift s n i f b h =
    let same : n + suc i ≡ suc n + i = omega arith in subst (λ m. IsHeld s m f b) same h

-- The test of an empty search makes no difference: the loop finds none there.
whole_run : (s : AStarNodes) → get_best_node s ≡ best_loop s s.cur_node 0 int32_max none
unfolding get_best_node best_loop
whole_run s = elim (Bool-cases (s.cur_node == 0)) [
  | inl empty ↦
      let same : s.cur_node ≡ 0 = ground (arith, empty) in
      (let nowhere : get_best_node s ≡ none = ground (arith, empty) in
        nowhere ∙ sym (ap (λ n. best_loop s n 0 int32_max none) same))
  | inr some_nodes ↦ ground (arith, some_nodes)
]

best_loop_lem :
    (s : AStarNodes) (n i f : ℕ) (b : Option ℕ)
    → IsHeld s i f b
    → (f' : ℕ) × IsHeld s (n + i) f' (best_loop s n i f b)
best_loop_lem s zero i f b h = best_done s i f b h
best_loop_lem s (suc n) i f b h = elim (Bool-cases (s.open_nodes i && ltb (s.nodes i).f f)) [
  | inl better ↦
      let (f', rest) =
        best_loop_lem s n (suc i) (s.nodes i).f (some i) (IsHeld-take s i f b h better) in
      (
        f',
        subst (IsHeld s (suc n + i) f') (sym (take_next s n i f b better))
            (shift s n i f' (best_loop s n (suc i) (s.nodes i).f (some i)) rest),
      )
  | inr worse ↦
      let (f', rest) = best_loop_lem s n (suc i) f b (IsHeld-skip s i f b h worse) in
      (
        f',
        subst (IsHeld s (suc n + i) f') (sym (skip_next s n i f b worse))
            (shift s n i f' (best_loop s n (suc i) f b) rest),
      )
]

-- getBestNode gives an open node of the search that no open node undercuts, or none when every
-- open node costs as much as the greatest 32-bit integer or more.
pub get_best_node-IsBest :
    (s : AStarNodes)
    → ((get_best_node s ≡ none) × IsBound s s.cur_node int32_max)
      ⊎ ((b : ℕ) × (get_best_node s ≡ some b) × IsBest s s.cur_node b)
get_best_node-IsBest s =
    let (f, held) = best_loop_lem s s.cur_node 0 int32_max none (IsHeld-start s) in
    let whole = whole_run s in
    let same : s.cur_node + 0 ≡ s.cur_node = omega arith in
    let held1 = subst (λ n. IsHeld s n f (best_loop s s.cur_node 0 int32_max none)) same held in
    elim held1.node [
      | inl (empty, top) ↦ inl (whole ∙ empty, subst (IsBound s s.cur_node) top held1.bound)
      | inr (k, answer, is_open, below, cost) ↦ inr (
        k,
        whole ∙ answer,
        record {
          is_open = is_open;
          inside = below;
          least = subst (IsBound s s.cur_node) (sym cost) held1.bound;
        },
      )
    ]
