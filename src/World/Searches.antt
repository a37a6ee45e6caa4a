-- ===== src/World/Searches.antt =====
-- A search for a path that has opened a neighbour of its start and closed the start.
use baiak_fonticak.Base.{ℕ, ◌≡◌, refl, ◌⊎◌, false, none, some, arith}
use baiak_fonticak.World.Paths.{AStarNodes, start_nodes, create_open_node, close_node, write}
use baiak_fonticak.World.Paths.{get_best_node, best_loop, int32_max}
use baiak_fonticak.World.Paths.Best.{IsBound, IsBest, get_best_node-IsBest}
use baiak_fonticak.World.Paths.Counting.{IsCounted, IsReached, start, next, create, close}
use baiak_fonticak.World.Paths.Searching.{IsReached-IsCounted}
use baiak_fonticak.Base.Int.{◌+ℤ◌, pos}

abbrev one_open : AStarNodes
one_open = (create_open_node (some 0) 101 100 10 (start_nodes 100 100)).1

abbrev start_closed : AStarNodes
start_closed = record one_open {
  open_nodes = write one_open.open_nodes 0 false;
  closed_nodes = one_open.closed_nodes +ℤ pos 1;
}

start_closed-IsReached : IsReached 100 100 start_closed
unfolding close_node create_open_node start_nodes write
start_closed-IsReached =
    next one_open start_closed
      (next (start_nodes 100 100) one_open start
        (create (some 0) 101 100 10 (omega arith) (omega arith)))
      (close 0 start_closed (omega arith) refl refl)

IsReached-IsCounted_example : IsCounted start_closed
IsReached-IsCounted_example =
    IsReached-IsCounted 100 100 start_closed (omega arith) (omega arith) start_closed-IsReached

get_best_node-IsBest_example :
    ((get_best_node start_closed ≡ none) × IsBound start_closed start_closed.cur_node int32_max)
    ⊎ ((b : ℕ) × (get_best_node start_closed ≡ some b)
        × IsBest start_closed start_closed.cur_node b)
get_best_node-IsBest_example = get_best_node-IsBest start_closed

-- The best node is the neighbour.
best_is_neighbour : get_best_node start_closed ≡ some 1
unfolding get_best_node best_loop create_open_node start_nodes write
best_is_neighbour = refl
