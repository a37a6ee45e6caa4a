-- ===== src/World/Sight/Answers.antt =====
-- The checks of the line of sight answer (src/map.cpp).
use baiak_fonticak.Base.{ℕ, ◌-◌, ◌^◌, ◌≤◌, ◌<◌, ◌≡◌, refl, inl, inr, Bool, true, false, ◌&&◌}
use baiak_fonticak.Base.{◌||◌, Option, none, some, arith, ltb, ◌==◌, if◌then◌else◌}
use baiak_fonticak.Base.{Bool-cases}
use baiak_fonticak.World.Position.{Position, IsPosition, get_distance_x, get_distance_y}
use baiak_fonticak.World.Position.{get_distance_z, get_offset_x, get_offset_y}
use baiak_fonticak.World.Sight.{Tiles, check_sight_line, or_check, is_floor_clear}
use baiak_fonticak.World.Sight.{is_sight_clear, can_throw_object_to, is_tile_clear}
use baiak_fonticak.World.Sight.{is_slope_clear}
use baiak_fonticak.World.Sight.Lines.{dist}
use baiak_fonticak.World.Sight.Ends.{check_sight_line-IsWay, all_clear}

pub distance_x-dist : (p q : Position) → get_distance_x p q ≡ dist p.x q.x
unfolding get_distance_x get_offset_x dist
distance_x-dist p q = ground arith

pub distance_y-dist : (p q : Position) → get_distance_y p q ≡ dist p.y q.y
unfolding get_distance_y get_offset_y dist
distance_y-dist p q = ground arith

pub dist_comm : (m n : ℕ) → dist m n ≡ dist n m
unfolding dist
dist_comm m n = omega arith

-- checkSightLine answers.
pub line_answers :
    (fuel : ℕ) (tiles : Tiles) (p q : Position) (z : ℕ)
    → IsPosition p
    → IsPosition q
    → dist p.x q.x < 2 ^ 15
    → dist p.y q.y < 2 ^ 15
    → 2 ^ 16 ≤ fuel
    → (b : Bool) × (check_sight_line fuel tiles p.x p.y q.x q.y z ≡ some b)
line_answers fuel tiles p q z hp hq narrow flat enough =
    let (way, is_way, short, runs) =
      check_sight_line-IsWay fuel p.x p.y q.x q.y hp.x_fits hp.y_fits hq.x_fits hq.y_fits narrow
        flat (omega arith) in
    (all_clear (λ x y. is_tile_clear tiles false x y z) way, runs tiles z)

pub or_check_lem :
    (a b : Option Bool) (p q : Bool) → a ≡ some p → b ≡ some q → or_check a b ≡ some (p || q)
unfolding or_check
or_check_lem a b true q ha hb = rw ha refl
or_check_lem a b false q ha hb = rw ha hb

-- The loop behind the answer has come to its end.
abbrev pub Answers : Option Bool → Type 0
Answers o = (b : Bool) × (o ≡ some b)

answer : (b : Bool) → Answers (some b)
answer b = (b, refl)

answers_if : (b : Bool) {x y : Option Bool} → Answers x → Answers y → Answers (if b then x else y)
answers_if true hx hy = hx
answers_if false hx hy = hy

answers_then :
    (o : Option Bool) {f : Bool → Option Bool}
    → Answers o
    → ((c : Bool) → Answers (f c))
    → Answers (elim o as (λ _. Option Bool) [ none ↦ none | some c ↦ f c ])
answers_then none h hf = ground (arith, h.1)
answers_then (some c) h hf = hf c

module _ (fuel : ℕ) (tiles : Tiles) (p q : Position) (hp : IsPosition p) (hq : IsPosition q)
    (narrow : dist p.x q.x < 2 ^ 15) (flat : dist p.y q.y < 2 ^ 15) (enough : 2 ^ 16 ≤ fuel) where
  there : (z : ℕ) → Answers (check_sight_line fuel tiles p.x p.y q.x q.y z)
  there z = line_answers fuel tiles p q z hp hq narrow flat enough

  back : (z : ℕ) → Answers (check_sight_line fuel tiles q.x q.y p.x p.y z)
  back z =
      let ex = dist_comm p.x q.x in
      let ey = dist_comm p.y q.y in
      line_answers fuel tiles q p z hq hp (omega arith) (omega arith) enough

  floor_answers : (same_floor : Bool) → Answers (is_floor_clear fuel tiles p q same_floor)
  unfolding is_floor_clear
  floor_answers same_floor =
      let (b, hb) = there p.z in
      let (c, hc) = back p.z in
      answers_if (ltb (get_distance_x p q) 2 && ltb (get_distance_y p q) 2) (answer true) (
        answers_then _ (b || c, or_check_lem _ _ b c hb hc)
          (λ clear.
            answers_if (clear || same_floor) (answer clear) (
              answers_if (p.z == 0) (answer true) (answers_if _ (there (p.z - 1)) (answer false)))))

  slope_answers : Answers (is_slope_clear fuel tiles p q)
  unfolding is_slope_clear
  slope_answers = answers_if _ (answer false) (
      answers_if (ltb q.z p.z)
        (answers_if (ltb 1 (get_distance_z p q)) (answer false)
          (answers_if _ (there (p.z - 1)) (answer false)))
        (answers_if _ (there p.z) (answer false)))

  sight_answers : (same_floor : Bool) → Answers (is_sight_clear fuel tiles p q same_floor)
  unfolding is_sight_clear
  sight_answers same_floor =
      answers_if (p.z == q.z) (floor_answers same_floor)
        (answers_if same_floor (answer false) slope_answers)

pub throw_answers :
    (fuel : ℕ) (tiles : Tiles) (p q : Position) (check same_floor : Bool) (rangex rangey : ℕ)
    → IsPosition p
    → IsPosition q
    → rangex < 2 ^ 15
    → rangey < 2 ^ 15
    → 2 ^ 16 ≤ fuel
    → Answers (can_throw_object_to fuel tiles p q check same_floor rangex rangey)
unfolding can_throw_object_to
throw_answers fuel tiles p q check same_floor rangex rangey hp hq hx hy enough =
    let ex = distance_x-dist p q in
    let ey = distance_y-dist p q in
    elim (Bool-cases (ltb rangex (get_distance_x p q) || ltb rangey (get_distance_y p q))) [
      | inl far ↦ rw far (answer false)
      | inr near ↦ rw near (
          answers_if check
            (sight_answers fuel tiles p q hp hq (ground arith) (ground arith) enough same_floor)
            (answer true))
    ]
