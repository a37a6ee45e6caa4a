-- ===== src/World/Paths/Counting.antt =====
-- A search for paths (src/map.cpp) keeps account of its closed nodes and of where they stand.
use baiak_fonticak.Base.Int.{pos}
use baiak_fonticak.World.Paths.{AStarNodes, max_nodes, write, key, start_nodes}
use baiak_fonticak.World.Paths.{create_open_node, close_node, open_node, improve}
use baiak_fonticak.Base.{ℕ, zero, suc, ◌+◌, ◌^◌, ◌≤◌, ◌<◌, ◌≡◌, refl, subst, inl, inr, Bool}
use baiak_fonticak.Base.{true, false, Option, some, arith, ◌==◌, if◌then◌else◌, Bool-cases}

-- The closed nodes below `n`.
unfoldable pub count_closed : (ℕ → Bool) → ℕ → ℕ
count_closed open_nodes zero = 0
count_closed open_nodes (suc n) = (if open_nodes n then 0 else 1) + count_closed open_nodes n

pub record IsCounted (s : AStarNodes) : Type 0 where
  pub positive : 1 ≤ s.cur_node
  pub bounded : s.cur_node ≤ max_nodes
  pub closed : s.closed_nodes ≡ pos (count_closed s.open_nodes s.cur_node)
  pub table :
      (k i : ℕ) → s.node_table k ≡ some i → (i < s.cur_node) × (key (s.nodes i).x (s.nodes i).y ≡ k)

-- What the search does with its nodes: it closes only open ones. It opens a node
-- again after it wrote the better f and parent into it.
pub data Step (s : AStarNodes) : AStarNodes → Type 0 where
  create :
      (parent : Option ℕ) (x y f : ℕ)
      → x < 2 ^ 16
      → y < 2 ^ 16
      → Step s (create_open_node parent x y f s).1
  close :
      (i : ℕ) (t : AStarNodes)
      → i < s.cur_node
      → s.open_nodes i ≡ true
      → close_node i s ≡ some t
      → Step s t
  reopen :
      (i f parent : ℕ) (t : AStarNodes)
      → i < s.cur_node
      → open_node i (improve i f parent s) ≡ some t
      → Step s t

pub data IsReached (x y : ℕ) : AStarNodes → Type 0 where
  start : IsReached x y (start_nodes x y)
  next : (s t : AStarNodes) → IsReached x y s → Step s t → IsReached x y t

pub count_write_beyond :
    (o : ℕ → Bool) (n i : ℕ) (v : Bool) → n ≤ i → count_closed (write o i v) n ≡ count_closed o n
unfolding count_closed write
count_write_beyond o zero i v beyond = refl
count_write_beyond o (suc n) i v beyond =
    let rest = count_write_beyond o n i v (omega (arith, beyond)) in ground (arith, rest, beyond)

pub count_write_closed :
    (o : ℕ → Bool) (n i : ℕ)
    → i < n
    → o i ≡ true
    → count_closed (write o i false) n ≡ suc (count_closed o n)
unfolding count_closed write
count_write_closed o zero i below is_open = absurd (omega (arith, below))
count_write_closed o (suc n) i below is_open = elim (Bool-cases (n == i)) [
  | inl last ↦
      let same : i ≡ n = ground (arith, last) in
      let open_n : o n ≡ true = subst (λ k. o k ≡ true) same is_open in
      let rest = count_write_beyond o n i false (omega (arith, same)) in
      ground (arith, rest, last, open_n)
  | inr other ↦
      let rest = count_write_closed o n i (ground (arith, other, below)) is_open in
      ground (arith, rest, other)
]

pub count_write_open :
    (o : ℕ → Bool) (n i : ℕ)
    → i < n
    → o i ≡ false
    → suc (count_closed (write o i true) n) ≡ count_closed o n
unfolding count_closed write
count_write_open o zero i below is_closed = absurd (omega (arith, below))
count_write_open o (suc n) i below is_closed = elim (Bool-cases (n == i)) [
  | inl last ↦
      let same : i ≡ n = ground (arith, last) in
      let closed_n : o n ≡ false = subst (λ k. o k ≡ false) same is_closed in
      let rest = count_write_beyond o n i true (omega (arith, same)) in
      ground (arith, rest, last, closed_n)
  | inr other ↦
      let rest = count_write_open o n i (ground (arith, other, below)) is_closed in
      ground (arith, rest, other)
]
