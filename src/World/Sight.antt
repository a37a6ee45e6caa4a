-- ===== src/World/Sight.antt =====
-- Lines of sight (src/map.cpp). The tiles are a parameter: of a tile the checks read whether it has
-- a ground and whether it blocks projectiles. An int32_t is the bits of its word.
pub mod Lines
pub mod Rounds
pub mod Ways
pub mod Ends
pub mod Answers
pub mod Both
use baiak_fonticak.Base.{ℕ, zero, suc, ◌+◌, ◌-◌, ◌*◌, ◌%◌, ◌^◌, Bool, true, false, not, ◌&&◌}
use baiak_fonticak.Base.{◌||◌, Option, none, some, ltb, leb, ◌==◌, ◌!=◌, if◌then◌else◌}
use baiak_fonticak.Base.Words.{u32, sub_u32, abs_int32}
use baiak_fonticak.World.Position.{Position, get_distance_x, get_distance_y, get_distance_z}

pub record Tile : Type 0 where
  pub has_ground : Bool
  pub blocks_projectile : Bool

-- getTile
abbrev pub Tiles : Type 0
Tiles = ℕ → ℕ → ℕ → Option Tile

-- isTileClear
unfoldable pub is_tile_clear : Tiles → Bool → ℕ → ℕ → ℕ → Bool
is_tile_clear tiles block_floor x y z = elim (tiles x y z) [
  | none ↦ true
  | some t ↦ if block_floor && t.has_ground then false else not t.blocks_projectile
]

-- mx and my: 1, 0 or the bits of -1.
unfoldable pub way_to : ℕ → ℕ → ℕ
way_to start destination =
    if ltb start destination then 1 else if start == destination then 0 else 2 ^ 32 - 1

-- The numbers A, B and C of checkSightLine with its directions and its destination.
pub record Line : Type 0 where
  pub a : ℕ
  pub b : ℕ
  pub c : ℕ
  pub mx : ℕ
  pub my : ℕ
  pub to_x : ℕ
  pub to_y : ℕ

-- Coordinates are of 16 bits. Where A * x + B * y leaves an int32_t, which C++ leaves undefined,
-- the sum wraps around here.
unfoldable pub line_to : ℕ → ℕ → ℕ → ℕ → Line
line_to x0 y0 x1 y1 =
    let a = sub_u32 y1 y0 in
    let b = sub_u32 x0 x1 in
    record {
      a = a;
      b = b;
      c = sub_u32 0 (a * x1 + b * y1);
      mx = way_to x0 x1;
      my = way_to y0 y1;
      to_x = x1;
      to_y = y1;
    }

-- How far a place is off the line.
unfoldable pub off_line : Line → ℕ → ℕ → ℕ
off_line l x y = abs_int32 (u32 (l.a * x + l.b * y + l.c))

-- The tests of a round, with move_hor, move_ver and move_cross; the second is made after start.y
-- has moved.
unfoldable pub moves_y : Line → ℕ → ℕ → Bool
moves_y l x y =
    let hor = off_line l (x + l.mx) y in
    let ver = off_line l x (y + l.my) in
    let cross = off_line l (x + l.mx) (y + l.my) in
    y != l.to_y && (x == l.to_x || (ltb ver hor || ltb cross hor))

unfoldable pub moves_x : Line → ℕ → ℕ → ℕ → Bool
moves_x l x y moved =
    let hor = off_line l (x + l.mx) y in
    let ver = off_line l x (y + l.my) in
    let cross = off_line l (x + l.mx) (y + l.my) in
    x != l.to_x && (moved == l.to_y || (ltb hor ver || ltb cross ver))

unfoldable pub next_y : Line → ℕ → ℕ → ℕ
next_y l x y = if moves_y l x y then (y + l.my) % 2 ^ 16 else y

unfoldable pub next_x : Line → ℕ → ℕ → ℕ
next_x l x y = if moves_x l x y (next_y l x y) then (x + l.mx) % 2 ^ 16 else x

-- The loop of checkSightLine, on fuel.
unfoldable pub walk : ℕ → (ℕ → ℕ → Bool) → Line → ℕ → ℕ → Option Bool
walk zero clear l x y = none
walk (suc fuel) clear l x y =
    let later = walk fuel clear l (next_x l x y) (next_y l x y) in
    if x == l.to_x && y == l.to_y
    then some true
    else if clear (next_x l x y) (next_y l x y)
    then later
    else some false

-- checkSightLine
unfoldable pub check_sight_line : ℕ → Tiles → ℕ → ℕ → ℕ → ℕ → ℕ → Option Bool
check_sight_line fuel tiles x0 y0 x1 y1 z =
    if x0 == x1 && y0 == y1
    then some true
    else walk fuel (λ x y. is_tile_clear tiles false x y z) (line_to x0 y0 x1 y1) x0 y0

-- One check, or the other where it fails.
unfoldable pub or_check : Option Bool → Option Bool → Option Bool
or_check none other = none
or_check (some true) other = some true
or_check (some false) other = other

-- The loop over the tiles above the target.
unfoldable pub are_clear_above : Tiles → ℕ → ℕ → ℕ → ℕ → Bool
are_clear_above tiles x y z zero = true
are_clear_above tiles x y z (suc n) =
    if is_tile_clear tiles true x y z then are_clear_above tiles x y (z + 1) n else false

-- isSightClear on one floor.
unfoldable pub is_floor_clear : ℕ → Tiles → Position → Position → Bool → Option Bool
is_floor_clear fuel tiles from to same_floor =
    if ltb (get_distance_x from to) 2 && ltb (get_distance_y from to) 2
    then some true
    else elim (or_check (check_sight_line fuel tiles from.x from.y to.x to.y from.z)
        (check_sight_line fuel tiles to.x to.y from.x from.y from.z)) [
          | none ↦ none
          | some clear ↦
              if clear || same_floor
              then some clear
              else if from.z == 0
              then some true
              else if is_tile_clear tiles true from.x from.y (from.z - 1)
                  && is_tile_clear tiles true to.x to.y (from.z - 1)
              then check_sight_line fuel tiles from.x from.y to.x to.y (from.z - 1)
              else some false
        ]

-- isSightClear from one floor to another.
unfoldable pub is_slope_clear : ℕ → Tiles → Position → Position → Option Bool
is_slope_clear fuel tiles from to =
    if (ltb from.z 8 && ltb 7 to.z) || (ltb 7 from.z && ltb to.z 8)
    then some false
    else if ltb to.z from.z
    then if ltb 1 (get_distance_z from to)
      then some false
      else if is_tile_clear tiles true from.x from.y (from.z - 1)
      then check_sight_line fuel tiles from.x from.y to.x to.y (from.z - 1)
      else some false
    else if are_clear_above tiles to.x to.y from.z (to.z - from.z)
    then check_sight_line fuel tiles from.x from.y to.x to.y from.z
    else some false

-- isSightClear
unfoldable pub is_sight_clear : ℕ → Tiles → Position → Position → Bool → Option Bool
is_sight_clear fuel tiles from to same_floor =
    if from.z == to.z
    then is_floor_clear fuel tiles from to same_floor
    else if same_floor
    then some false
    else is_slope_clear fuel tiles from to

-- canThrowObjectTo
unfoldable pub can_throw_object_to :
    ℕ → Tiles → Position → Position → Bool → Bool → ℕ → ℕ → Option Bool
can_throw_object_to fuel tiles from to check_line_of_sight same_floor rangex rangey =
    if ltb rangex (get_distance_x from to) || ltb rangey (get_distance_y from to)
    then some false
    else if check_line_of_sight
    then is_sight_clear fuel tiles from to same_floor
    else some true
