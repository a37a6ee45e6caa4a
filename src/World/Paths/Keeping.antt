-- ===== src/World/Paths/Keeping.antt =====
-- Creating, closing and reopening a node (src/map.cpp) keep the account of a search.
use baiak_fonticak.Base.{==_iff, ℕ, suc, ◌+◌, ◌^◌, ◌<◌, ◌≡◌, sym, ap, ap₂, subst, ◌∙◌, inl}
use baiak_fonticak.Base.{inr, Bool, true, false, Option, some, arith, leb, ◌==◌}
use baiak_fonticak.Base.{if◌then◌else◌, ==_self, Bool-cases}
use baiak_fonticak.World.Paths.{improve, AStarNode, AStarNodes, max_nodes, write, key}
use baiak_fonticak.World.Paths.{create_open_node, close_node, open_node}
use baiak_fonticak.Base.Words.{u16}
use baiak_fonticak.Base.Int.{pos, ◌+ℤ◌, ◌-ℤ◌}
use baiak_fonticak.World.Paths.Counting.{count_closed, IsCounted, count_write_closed}
use baiak_fonticak.World.Paths.Counting.{count_write_open, count_write_beyond}
use mathlib.Core.Option.{some-injective}

pub write_same {ℓ} :
    {A : Type ℓ} (array : ℕ → A) (i j : ℕ) (v : A) → (j == i) ≡ true → write array i v j ≡ v
unfolding write
write_same {A} array i j v same = ap (λ b. if b then v else array j) same

pub write_other {ℓ} :
    {A : Type ℓ} (array : ℕ → A) (i j : ℕ) (v : A) → (j == i) ≡ false → write array i v j ≡ array j
unfolding write
write_other {A} array i j v other = ap (λ b. if b then v else array j) other

abbrev pub added : Option ℕ → ℕ → ℕ → ℕ → AStarNodes → AStarNodes
added parent x y f s = record {
  nodes = write s.nodes s.cur_node (record { parent = parent; x = u16 x; y = u16 y; f = f });
  open_nodes = write s.open_nodes s.cur_node true;
  node_table = write s.node_table (key x y) (some s.cur_node);
  cur_node = s.cur_node + 1;
  closed_nodes = s.closed_nodes;
}

pub create_full :
    (parent : Option ℕ) (x y f : ℕ) (s : AStarNodes)
    → leb max_nodes s.cur_node ≡ true
    → (create_open_node parent x y f s).1 ≡ s
unfolding create_open_node
create_full parent x y f s full = ground (arith, full)

pub create_added :
    (parent : Option ℕ) (x y f : ℕ) (s : AStarNodes)
    → leb max_nodes s.cur_node ≡ false
    → (create_open_node parent x y f s).1 ≡ added parent x y f s
unfolding create_open_node
create_added parent x y f s room = ground (arith, room)

count_added : (o : ℕ → Bool) (n : ℕ) → count_closed (write o n true) (n + 1) ≡ count_closed o n
unfolding count_closed
count_added o n =
    let same : suc n ≡ n + 1 = omega arith in
    let here : write o n true n ≡ true = write_same o n n true (==_self n) in
    let below = count_write_beyond o n n true (omega arith) in
    let whole = ap (count_closed (write o n true)) same in
    let step : count_closed (write o n true) (suc n) ≡ 0 + count_closed (write o n true) n =
      ap (λ b. (if b then 0 else 1) + count_closed (write o n true) n) here in
    omega (arith, whole, step, below)

pub key_words : (x y : ℕ) → x < 2 ^ 16 → y < 2 ^ 16 → key (u16 x) (u16 y) ≡ key x y
key_words x y hx hy =
    let same_x : u16 x ≡ x = omega (arith, hx) in
    let same_y : u16 y ≡ y = omega (arith, hy) in ap₂ key same_x same_y

added_table :
    (parent : Option ℕ) (x y f : ℕ) (s : AStarNodes)
    → x < 2 ^ 16
    → y < 2 ^ 16
    → IsCounted s
    → (k i : ℕ) → (added parent x y f s).node_table k ≡ some i
    → (i < s.cur_node + 1)
      × (key ((added parent x y f s).nodes i).x ((added parent x y f s).nodes i).y ≡ k)
added_table parent x y f s hx hy h k i found =
    let v : AStarNode = record { parent = parent; x = u16 x; y = u16 y; f = f } in
    elim (Bool-cases (k == key x y)) [
      | inl new ↦
          let same : s.cur_node ≡ i =
            some-injective s.cur_node i
              (sym (write_same s.node_table (key x y) k (some s.cur_node) new) ∙ found) in
          let node = write_same s.nodes s.cur_node i v (ground (arith, same)) in
          let place : key x y ≡ k = ground (arith, new) in
          (
            omega (arith, same),
            ap (λ (m : AStarNode). key m.x m.y) node ∙ key_words x y hx hy ∙ place,
          )
      | inr old ↦
          let (below, place) =
            h.table k i
              (sym (write_other s.node_table (key x y) k (some s.cur_node) old) ∙ found) in
          let node = write_other s.nodes s.cur_node i v (ground (arith, below)) in
          (omega (arith, below), ap (λ (m : AStarNode). key m.x m.y) node ∙ place)
    ]

pub added-IsCounted :
    (parent : Option ℕ) (x y f : ℕ) (s : AStarNodes)
    → x < 2 ^ 16
    → y < 2 ^ 16
    → s.cur_node < max_nodes
    → IsCounted s
    → IsCounted (added parent x y f s)
added-IsCounted parent x y f s hx hy room h = record {
  positive = omega arith;
  bounded = omega (arith, room);
  closed = h.closed ∙ ap pos (sym (count_added s.open_nodes s.cur_node));
  table = added_table parent x y f s hx hy h;
}

add_one : (n : ℕ) → pos n +ℤ pos 1 ≡ pos (suc n)
unfolding ◌+ℤ◌
add_one n = ground arith

sub_one : (n : ℕ) → pos (suc n) -ℤ pos 1 ≡ pos n
unfolding ◌-ℤ◌
sub_one n = ground arith

close_node_eq :
    (i : ℕ) (s : AStarNodes)
    → i < max_nodes
    → close_node i s
      ≡ some (record s {
        open_nodes = write s.open_nodes i false;
        closed_nodes = s.closed_nodes +ℤ pos 1;
      })
unfolding close_node
close_node_eq i s inside = ground (arith, inside)

pub close_node-IsCounted :
    (i : ℕ) (s t : AStarNodes)
    → i < s.cur_node
    → s.open_nodes i ≡ true
    → close_node i s ≡ some t
    → IsCounted s
    → IsCounted t
close_node-IsCounted i s t below is_open done h =
    let u : AStarNodes = record s {
      open_nodes = write s.open_nodes i false;
      closed_nodes = s.closed_nodes +ℤ pos 1;
    } in
    let same : u ≡ t =
      some-injective u t (sym (close_node_eq i s (omega (arith, below, h.bounded))) ∙ done) in
    subst IsCounted same (record {
      positive = h.positive;
      bounded = h.bounded;
      closed =
          ap (λ z. z +ℤ pos 1) h.closed
          ∙ add_one (count_closed s.open_nodes s.cur_node)
          ∙ ap pos (sym (count_write_closed s.open_nodes s.cur_node i below is_open));
      table = h.table;
    })

open_node_kept :
    (i : ℕ) (s : AStarNodes) → i < max_nodes → s.open_nodes i ≡ true → open_node i s ≡ some s
unfolding open_node
open_node_kept i s inside is_open = ground (arith, inside, is_open)

open_node_changed :
    (i : ℕ) (s : AStarNodes)
    → i < max_nodes
    → s.open_nodes i ≡ false
    → open_node i s
      ≡ some (record s {
        open_nodes = write s.open_nodes i true;
        closed_nodes = s.closed_nodes -ℤ pos 1;
      })
unfolding open_node
open_node_changed i s inside is_closed = ground (arith, inside, is_closed)

pub open_node-IsCounted :
    (i : ℕ) (s t : AStarNodes) → i < s.cur_node → open_node i s ≡ some t → IsCounted s → IsCounted t
open_node-IsCounted i s t below done h =
    let inside : i < max_nodes = omega (arith, below, h.bounded) in
    elim (Bool-cases (s.open_nodes i)) [
      | inl is_open ↦
          subst IsCounted (some-injective s t (sym (open_node_kept i s inside is_open) ∙ done)) h
      | inr is_closed ↦
          let u : AStarNodes = record s {
            open_nodes = write s.open_nodes i true;
            closed_nodes = s.closed_nodes -ℤ pos 1;
          } in
          let same : u ≡ t =
            some-injective u t (sym (open_node_changed i s inside is_closed) ∙ done) in
          let fewer = count_write_open s.open_nodes s.cur_node i below is_closed in
          subst IsCounted same (record {
            positive = h.positive;
            bounded = h.bounded;
            closed =
                ap (λ z. z -ℤ pos 1) (h.closed ∙ ap pos (sym fewer))
                ∙ sub_one (count_closed (write s.open_nodes i true) s.cur_node);
            table = h.table;
          })
    ]

pub improve-IsCounted :
    (i f parent : ℕ) (s : AStarNodes) → IsCounted s → IsCounted (improve i f parent s)
unfolding improve write
improve-IsCounted i f parent s h = record {
  positive = h.positive;
  bounded = h.bounded;
  closed = h.closed;
  table = λ k j found.
      let (below, placed) = h.table k j found in
      (
        below,
        elim (Bool-cases (j == i)) [
          | inl same ↦
              rw same
                (subst (λ n. key (s.nodes n).x (s.nodes n).y ≡ k) ((==_iff _ _).0 same) placed)
          | inr other ↦ rw other placed
        ],
      );
}
