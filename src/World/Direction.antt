-- ===== src/World/Direction.antt =====
-- Directions (src/position.h, src/tools.cpp): the next position in a direction, the direction
-- from one position to another, and the names that are read as directions.
pub mod Laws
use baiak_fonticak.Base.{ℕ, ◌+◌, ◌-◌, ◌%◌, ◌^◌, Bool, true, false, ◌||◌, String, str_eq}
use baiak_fonticak.Base.{ltb, leb, ◌==◌, if◌then◌else◌}
use baiak_fonticak.Base.Int.{ℤ, pos, ltb_ℤ, leb_ℤ, eqb_ℤ, abs}
use baiak_fonticak.World.Position.{Position, is_equal, get_offset_x, get_offset_y}

pub data Direction : Type 0 where
  north east south west : Direction
  southwest southeast northwest northeast : Direction
  direction_none : Direction

-- The enumerators' values.
unfoldable pub direction_value : Direction → ℕ
direction_value north = 0
direction_value east = 1
direction_value south = 2
direction_value west = 3
direction_value southwest = 4
direction_value southeast = 5
direction_value northwest = 6
direction_value northeast = 7
direction_value direction_none = 8

-- ++ and -- on a uint16_t.
abbrev inc_u16 : ℕ → ℕ
inc_u16 n = (n + 1) % 2 ^ 16

abbrev dec_u16 : ℕ → ℕ
dec_u16 n = (n + 2 ^ 16 - 1) % 2 ^ 16

unfoldable pub get_next_position : Direction → Position → Position
get_next_position north p = record p { y = dec_u16 p.y }
get_next_position south p = record p { y = inc_u16 p.y }
get_next_position west p = record p { x = dec_u16 p.x }
get_next_position east p = record p { x = inc_u16 p.x }
get_next_position southwest p = record p { x = dec_u16 p.x; y = inc_u16 p.y }
get_next_position northwest p = record p { x = dec_u16 p.x; y = dec_u16 p.y }
get_next_position northeast p = record p { x = inc_u16 p.x; y = dec_u16 p.y }
get_next_position southeast p = record p { x = inc_u16 p.x; y = inc_u16 p.y }
get_next_position direction_none p = p

-- The second half of getDirectionTo: `east_side` says that `dir` was set to DIRECTION_EAST, and
-- `dx` is |x_offset|.
unfoldable pub direction_to_tail : Bool → ℕ → ℤ → Direction
direction_to_tail east_side dx y_offset =
    let dir = if east_side then east else west in
    let dy = abs y_offset in
    if leb_ℤ (pos 0) y_offset
    then if ltb dx dy
      then north
      else if dy == dx
      then (if east_side then northeast else northwest)
      else dir
    else if ltb dx dy
    then south
    else if dy == dx
    then (if east_side then southeast else southwest)
    else dir

unfoldable pub get_direction_to : Position → Position → Direction
unfolding is_equal get_offset_x get_offset_y direction_to_tail
get_direction_to from to =
    if is_equal from to
    then direction_none
    else direction_to_tail (ltb_ℤ (get_offset_x from to) (pos 0)) (abs (get_offset_x from to))
        (get_offset_y from to)

unfoldable pub get_direction : String → Direction
get_direction s =
    if str_eq s "north" || (str_eq s "n" || str_eq s "0")
    then north
    else if str_eq s "east" || (str_eq s "e" || str_eq s "1")
    then east
    else if str_eq s "south" || (str_eq s "s" || str_eq s "2")
    then south
    else if str_eq s "west" || (str_eq s "w" || str_eq s "3")
    then west
    else if str_eq s "southwest"
        || (str_eq s "south west" || (str_eq s "south-west" || (str_eq s "sw" || str_eq s "4")))
    then southwest
    else if str_eq s "southeast"
        || (str_eq s "south east" || (str_eq s "south-east" || (str_eq s "se" || str_eq s "5")))
    then southeast
    else if str_eq s "northwest"
        || (str_eq s "north west" || (str_eq s "north-west" || (str_eq s "nw" || str_eq s "6")))
    then northwest
    else if str_eq s "northeast"
        || (str_eq s "north east" || (str_eq s "north-east" || (str_eq s "ne" || str_eq s "7")))
    then northeast
    else north
