-- ===== src/World/Paths/Searching.antt =====
-- The account of a whole search for paths (src/map.cpp), by induction on its steps.
use baiak_fonticak.World.Paths.Keeping.{improve-IsCounted, write_same, write_other}
use baiak_fonticak.World.Paths.Keeping.{key_words, create_full, create_added}
use baiak_fonticak.World.Paths.Keeping.{added-IsCounted, close_node-IsCounted}
use baiak_fonticak.World.Paths.Keeping.{open_node-IsCounted}
use baiak_fonticak.World.Paths.{improve, AStarNodes, max_nodes, write, key, start_nodes}
use baiak_fonticak.Base.{ℕ, ◌^◌, ◌<◌, ◌≡◌, refl, sym, subst, ◌∙◌, inl, inr, Option, none}
use baiak_fonticak.Base.{some, arith, leb, ◌==◌, Bool-cases}
use baiak_fonticak.World.Paths.Counting.{count_closed, IsCounted, Step, create, close}
use baiak_fonticak.World.Paths.Counting.{reopen, IsReached, start, next}
use mathlib.Core.Option.{none-ne-some, some-injective}

abbrev empty_table : ℕ → Option ℕ
empty_table k = none

start_table :
    (x y : ℕ)
    → x < 2 ^ 16
    → y < 2 ^ 16
    → (k i : ℕ) → (start_nodes x y).node_table k ≡ some i
    → (i < 1) × (key ((start_nodes x y).nodes i).x ((start_nodes x y).nodes i).y ≡ k)
unfolding start_nodes
start_table x y hx hy k i found = elim (Bool-cases (k == key x y)) [
  | inl new ↦
      let same : 0 ≡ i =
        some-injective 0 i (sym (write_same empty_table (key x y) k (some 0) new) ∙ found) in
      let place : key x y ≡ k = ground (arith, new) in
      subst (λ n. (n < 1) × (key ((start_nodes x y).nodes n).x ((start_nodes x y).nodes n).y ≡ k))
        same (omega arith, key_words x y hx hy ∙ place)
  | inr old ↦
      absurd (none-ne-some i (sym (write_other empty_table (key x y) k (some 0) old) ∙ found))
]

start-IsCounted : (x y : ℕ) → x < 2 ^ 16 → y < 2 ^ 16 → IsCounted (start_nodes x y)
unfolding start_nodes count_closed write
start-IsCounted x y hx hy = record {
  positive = omega arith;
  bounded = omega arith;
  closed = refl;
  table = start_table x y hx hy;
}

Step-IsCounted : (s t : AStarNodes) → Step s t → IsCounted s → IsCounted t
Step-IsCounted s _ (create parent x y f hx hy) h = elim (Bool-cases (leb max_nodes s.cur_node)) [
  | inl full ↦ subst IsCounted (sym (create_full parent x y f s full)) h
  | inr room ↦
      subst IsCounted (sym (create_added parent x y f s room))
        (added-IsCounted parent x y f s hx hy (ground (arith, room)) h)
]
Step-IsCounted s _ (close i t below is_open done) h =
    close_node-IsCounted i s t below is_open done h
Step-IsCounted s _ (reopen i f parent t below done) h =
    open_node-IsCounted i (improve i f parent s) t (unfold improve in below) done
      (improve-IsCounted i f parent s h)

-- In every search that starts at a place with 16-bit coordinates, creates nodes at such places,
-- closes open nodes and reopens nodes, closedNodes is the number of created nodes that are not
-- open, at most 512 nodes are created, and every entry of the table leads to a created node at
-- the entry's own place.
pub IsReached-IsCounted :
    (x y : ℕ) (s : AStarNodes) → x < 2 ^ 16 → y < 2 ^ 16 → IsReached x y s → IsCounted s
IsReached-IsCounted x y _ hx hy start = start-IsCounted x y hx hy
IsReached-IsCounted x y _ hx hy (next r s before step) =
    Step-IsCounted r s step (IsReached-IsCounted x y r hx hy before)
