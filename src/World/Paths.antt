-- ===== src/World/Paths.antt =====
-- The nodes of the search for paths: struct AStarNode and class AStarNodes of src/map.h and
-- src/map.cpp. Arrays are functions of the index, and a pointer into them is the index. Walk
-- costs are not negative.
pub mod Best
pub mod Counting
pub mod Keeping
pub mod Searching
use baiak_fonticak.Base.Words.{u16, u32}
use baiak_fonticak.Base.Int.{ℤ, pos, ◌+ℤ◌, ◌-ℤ◌}
use baiak_fonticak.Base.{ℕ, zero, suc, ◌+◌, ◌-◌, ◌*◌, ◌/◌, ◌%◌, ◌^◌, ◌≤◌, ◌<◌, min, max}
use baiak_fonticak.Base.{bit_and, bit_or, bit_xor, String, ◌≡◌, refl, sym, ap, ap₂, subst}
use baiak_fonticak.Base.{fun_ext, ◌∙◌, ◌≢◌, ◌↔◌, ◌⊎◌, inl, inr, Bool, true, false, not, ◌&&◌}
use baiak_fonticak.Base.{◌||◌, Option, none, some, option_map, List, [], ◌∷◌, ◌++◌, map}
use baiak_fonticak.Base.{append-nil, append_assoc, arith, str_eq, length, is_empty}
use baiak_fonticak.Base.{get_elem?, set, get_or, take, drop, length-append, take_prefix}
use baiak_fonticak.Base.{drop_prefix, take-append-drop, length-take-le, length-drop-le}
use baiak_fonticak.Base.{length-set, All, contains, erase_first, count, IsDistinct}
use baiak_fonticak.Base.{count-append, contains-iff-count, count-erase_first}
use baiak_fonticak.Base.{length-erase_first-le, ltb, leb, ◌==◌, ◌!=◌, if◌then◌else◌, ltb→lt}
use baiak_fonticak.Base.{lt→ltb, leb→le, le→leb, lt→leb_false, lt→ltb_false, ==_iff, ==_self}
use baiak_fonticak.Base.{tests, Bool-cases, Option-cases}

pub record AStarNode : Type 0 where
  pub parent : Option ℕ
  pub x : ℕ
  pub y : ℕ
  pub f : ℕ

pub record AStarNodes : Type 0 where
  pub nodes : ℕ → AStarNode
  pub open_nodes : ℕ → Bool
  pub node_table : ℕ → Option ℕ
  pub cur_node : ℕ
  pub closed_nodes : ℤ

abbrev pub max_nodes : ℕ
max_nodes = 512

-- std::numeric_limits<int32_t>::max()
abbrev pub int32_max : ℕ
int32_max = 2 ^ 31 - 1

-- An array, or a table, with one entry written.
unfoldable pub write {ℓ} : {A : Type ℓ} → (ℕ → A) → ℕ → A → ℕ → A
write array i v j = if j == i then v else array j

-- (x << 16) | y
unfoldable pub key : ℕ → ℕ → ℕ
key x y = bit_or (u32 (x * 2 ^ 16)) y

-- The constructor: only the start is open.
unfoldable pub start_nodes : ℕ → ℕ → AStarNodes
start_nodes x y = record {
  nodes = λ i. record {
    parent = none;
    x = if i == 0 then u16 x else 0;
    y = if i == 0 then u16 y else 0;
    f = 0;
  };
  open_nodes = write (λ i. false) 0 true;
  node_table = write (λ k. none) (key x y) (some 0);
  cur_node = 1;
  closed_nodes = pos 0;
}

unfoldable pub create_open_node : Option ℕ → ℕ → ℕ → ℕ → AStarNodes → Option ℕ × AStarNodes
create_open_node parent x y f s = if leb max_nodes s.cur_node then (none, s) else (
  some s.cur_node,
  record {
    nodes = write s.nodes s.cur_node (record { parent = parent; x = u16 x; y = u16 y; f = f });
    open_nodes = write s.open_nodes s.cur_node true;
    node_table = write s.node_table (key x y) (some s.cur_node);
    cur_node = s.cur_node + 1;
    closed_nodes = s.closed_nodes;
  },
)

-- The loop of getBestNode over the next `n` nodes from `i` on.
unfoldable pub best_loop : AStarNodes → ℕ → ℕ → ℕ → Option ℕ → Option ℕ
best_loop s zero i best_node_f best_node = best_node
best_loop s (suc n) i best_node_f best_node =
    elim (s.open_nodes i && ltb (s.nodes i).f best_node_f) [
      | true ↦ best_loop s n (suc i) (s.nodes i).f (some i)
      | false ↦ best_loop s n (suc i) best_node_f best_node
    ]

unfoldable pub get_best_node : AStarNodes → Option ℕ
get_best_node s = if s.cur_node == 0 then none else best_loop s s.cur_node 0 int32_max none

-- A failed assertion is none.
unfoldable pub close_node : ℕ → AStarNodes → Option AStarNodes
close_node i s =
    if ltb i max_nodes
    then some (record s {
      open_nodes = write s.open_nodes i false;
      closed_nodes = s.closed_nodes +ℤ pos 1;
    })
    else none

-- What getPathMatching writes into a node that it found a better way to, before openNode.
unfoldable pub improve : ℕ → ℕ → ℕ → AStarNodes → AStarNodes
improve i f parent s = record s {
  nodes = write s.nodes i (record (s.nodes i) { f = f; parent = some parent });
}

unfoldable pub open_node : ℕ → AStarNodes → Option AStarNodes
open_node i s =
    if ltb i max_nodes
    then (if s.open_nodes i
        then some s
        else some (record s {
          open_nodes = write s.open_nodes i true;
          closed_nodes = s.closed_nodes -ℤ pos 1;
        }))
    else none

unfoldable pub get_node_by_position : ℕ → ℕ → AStarNodes → Option ℕ
get_node_by_position x y s = s.node_table (key x y)
