-- ===== src/World/Direction/Laws.antt =====
-- Laws of directions.
use baiak_fonticak.Base.{◌+◌, ◌^◌, ◌<◌, ◌≡◌, arith}
use baiak_fonticak.World.Position.{Position}
use baiak_fonticak.World.Direction.{
  Direction, north, east, south, west, southwest, southeast, northwest, northeast, direction_none,
  get_next_position, get_direction_to,
}

-- A position off the border of the coordinates' range.
pub record IsInner (p : Position) : Type 0 where
  pub x_low : 0 < p.x
  pub x_high : p.x + 1 < 2 ^ 16
  pub y_low : 0 < p.y
  pub y_high : p.y + 1 < 2 ^ 16

-- From a position off the border, the direction to the next position in a direction is that
-- direction, for all eight and for DIRECTION_NONE.
pub direction_to-next_position :
    (d : Direction) (p : Position) → IsInner p → get_direction_to p (get_next_position d p) ≡ d
unfolding get_direction_to get_next_position
direction_to-next_position north p h = ground arith
direction_to-next_position east p h = ground arith
direction_to-next_position south p h = ground arith
direction_to-next_position west p h = ground arith
direction_to-next_position southwest p h = ground arith
direction_to-next_position southeast p h = ground arith
direction_to-next_position northwest p h = ground arith
direction_to-next_position northeast p h = ground arith
direction_to-next_position direction_none p h = ground arith
