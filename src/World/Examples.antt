-- ===== src/World/Examples.antt =====
-- Concrete positions and directions, and the theorems about them there.
use baiak_fonticak.World.Sight.Answers.{Answers}
use baiak_fonticak.Base.{ℕ, Bool, ◌+◌, ◌^◌, refl, some, none, length, List, if◌then◌else◌}
use baiak_fonticak.Base.{◌&&◌, ◌==◌, ◌≤◌, ◌≡◌, ◌↔◌, ◌⊎◌, true, false, not, arith}
use baiak_fonticak.World.Sight.{Tiles, check_sight_line, walk, line_to, next_x, next_y}
use baiak_fonticak.World.Sight.{moves_x, moves_y, off_line, is_tile_clear, way_to}
use baiak_fonticak.World.Sight.{can_throw_object_to}
use baiak_fonticak.World.Sight.Lines.{dist}
use baiak_fonticak.World.Sight.Ends.{IsWay, all_clear, check_sight_line-IsWay}
use baiak_fonticak.World.Sight.Both.{can_throw_object_to_symmetric}
use baiak_fonticak.Base.Words.{abs_int32}
use baiak_fonticak.World.Position.{Position, is_less, is_greater, is_equal, is_not_equal}
use baiak_fonticak.World.Position.Laws.{less_total_order}
use baiak_fonticak.World.Direction.{northwest, southeast, get_next_position}
use baiak_fonticak.World.Direction.{get_direction_to, get_direction}
use baiak_fonticak.World.Direction.Laws.{direction_to-next_position}

abbrev temple : Position
temple = record { x = 1000; y = 2000; z = 7 }

abbrev depot : Position
depot = record { x = 1010; y = 1995; z = 7 }

abbrev cellar : Position
cellar = record { x = 1000; y = 2000; z = 8 }

less_total_order_example :
    (is_less temple temple ≡ false)
    × (is_less temple depot ≡ true → is_less depot cellar ≡ true → is_less temple cellar ≡ true)
    × ((is_less temple depot ≡ true)
        ⊎ (is_less depot temple ≡ true)
        ⊎ (is_equal temple depot ≡ true))
    × ((is_equal temple depot ≡ true) ↔ (temple ≡ depot))
    × (is_not_equal temple depot ≡ not (is_equal temple depot))
    × ((is_greater temple depot ≡ true)
        ↔ ((is_less depot temple ≡ true) ⊎ (is_equal temple depot ≡ true)))
less_total_order_example = less_total_order temple depot cellar

-- A wall at one place.
abbrev wall : Tiles
wall x y z =
    if x == 1001 && y == 1000
    then some (record { has_ground = true; blocks_projectile = true })
    else none

check_sight_line-IsWay_example :
    (way : List (ℕ × ℕ)) × IsWay 1000 1000 1003 1001 way
    × (length way ≤ dist 1000 1003 + dist 1000 1001)
    × ((tiles : Tiles) (z : ℕ)
        → check_sight_line 10 tiles 1000 1000 1003 1001 z
          ≡ some (all_clear (λ x y. is_tile_clear tiles false x y z) way))
check_sight_line-IsWay_example =
    check_sight_line-IsWay 10 1000 1000 1003 1001 (omega arith) (omega arith) (omega arith)
      (omega arith) (unfold dist in omega arith) (unfold dist in omega arith)
      (unfold dist in omega arith)

wall_runs : check_sight_line 10 wall 1000 1000 1003 1001 7 ≡ some false
unfolding check_sight_line walk line_to next_x next_y moves_x moves_y off_line is_tile_clear way_to
    abs_int32
wall_runs = refl

round_runs : check_sight_line 10 wall 1000 1000 1000 1004 7 ≡ some true
unfolding check_sight_line walk line_to next_x next_y moves_x moves_y off_line is_tile_clear way_to
    abs_int32
round_runs = refl

can_throw_object_to_symmetric_example :
    ((same_floor : Bool)
      → Answers (can_throw_object_to (2 ^ 16) wall temple depot true same_floor 12 8))
    × (can_throw_object_to (2 ^ 16) wall temple depot true true 12 8
        ≡ can_throw_object_to (2 ^ 16) wall depot temple true true 12 8)
can_throw_object_to_symmetric_example =
    can_throw_object_to_symmetric (2 ^ 16) wall temple depot true 12 8 (omega arith) (omega arith)
      (omega arith) (omega arith) (omega arith)

direction_to-next_position_example :
    get_direction_to temple (get_next_position northwest temple) ≡ northwest
direction_to-next_position_example = direction_to-next_position northwest temple (omega arith)

south_east_runs : get_direction "south-east" ≡ southeast
unfolding get_direction
south_east_runs = refl
