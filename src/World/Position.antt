-- ===== src/World/Position.antt =====
-- A place of the map (src/position.h). Coordinates are the values of `uint16_t x, y` and
-- `uint8_t z`; offsets are signed.
pub mod Laws
use baiak_fonticak.Base.{ℕ, ◌+◌, ◌-◌, ◌*◌, ◌%◌, ◌^◌, ◌<◌, Bool, true, false, not, ◌&&◌, ◌||◌}
use baiak_fonticak.Base.{ltb, leb, ◌==◌, ◌!=◌, if◌then◌else◌}
use baiak_fonticak.Base.Int.{ℤ, sub_ℕ, abs}

pub record Position : Type 0 where
  pub x : ℕ
  pub y : ℕ
  pub z : ℕ

-- The values that the fields' types hold.
pub record IsPosition (p : Position) : Type 0 where
  pub x_fits : p.x < 2 ^ 16
  pub y_fits : p.y < 2 ^ 16
  pub z_fits : p.z < 2 ^ 8

unfoldable pub get_offset_x : Position → Position → ℤ
get_offset_x p1 p2 = sub_ℕ p1.x p2.x

unfoldable pub get_offset_y : Position → Position → ℤ
get_offset_y p1 p2 = sub_ℕ p1.y p2.y

unfoldable pub get_offset_z : Position → Position → ℤ
get_offset_z p1 p2 = sub_ℕ p1.z p2.z

unfoldable pub get_distance_x : Position → Position → ℕ
unfolding get_offset_x
get_distance_x p1 p2 = abs (get_offset_x p1 p2)

unfoldable pub get_distance_y : Position → Position → ℕ
unfolding get_offset_y
get_distance_y p1 p2 = abs (get_offset_y p1 p2)

unfoldable pub get_distance_z : Position → Position → ℕ
unfolding get_offset_z
get_distance_z p1 p2 = abs (get_offset_z p1 p2)

-- The template and the plain overload with two deltas.
unfoldable pub are_in_range : ℕ → ℕ → Position → Position → Bool
are_in_range deltax deltay p1 p2 =
    leb (get_distance_x p1 p2) deltax && leb (get_distance_y p1 p2) deltay

unfoldable pub are_in_range_z : ℕ → ℕ → ℕ → Position → Position → Bool
are_in_range_z deltax deltay deltaz p1 p2 =
    leb (get_distance_x p1 p2) deltax
    && (leb (get_distance_y p1 p2) deltay && leb (get_distance_z p1 p2) deltaz)

-- operator<, its tests in the source's order.
unfoldable pub is_less : Position → Position → Bool
is_less a p =
    if ltb a.z p.z
    then true
    else if ltb p.z a.z
    then false
    else if ltb a.y p.y
    then true
    else if ltb p.y a.y
    then false
    else if ltb a.x p.x
    then true
    else if ltb p.x a.x
    then false
    else false

-- operator>
unfoldable pub is_greater : Position → Position → Bool
unfolding is_less
is_greater a p = not (is_less a p)

-- operator==
unfoldable pub is_equal : Position → Position → Bool
is_equal a p = p.x == a.x && (p.y == a.y && p.z == a.z)

-- operator!=
unfoldable pub is_not_equal : Position → Position → Bool
is_not_equal a p = p.x != a.x || (p.y != a.y || p.z != a.z)

-- operator+ and operator-, narrowed to the fields' types.
unfoldable pub plus : Position → Position → Position
plus a p1 = record {
  x = (a.x + p1.x) % 2 ^ 16;
  y = (a.y + p1.y) % 2 ^ 16;
  z = (a.z + p1.z) % 2 ^ 8;
}

unfoldable pub minus : Position → Position → Position
minus a p1 = record {
  x = (a.x + 2 ^ 16 - p1.x) % 2 ^ 16;
  y = (a.y + 2 ^ 16 - p1.y) % 2 ^ 16;
  z = (a.z + 2 ^ 8 - p1.z) % 2 ^ 8;
}
