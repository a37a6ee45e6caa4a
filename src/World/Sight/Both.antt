-- ===== src/World/Sight/Both.antt =====
-- Throwing there and throwing back (src/map.cpp, canThrowObjectTo with sameFloor).
use baiak_fonticak.World.Sight.Answers.{Answers, throw_answers, line_answers, or_check_lem}
use baiak_fonticak.World.Sight.Answers.{distance_x-dist, distance_y-dist, dist_comm}
use baiak_fonticak.World.Sight.Rounds.{or_comm}
use baiak_fonticak.Base.{ℕ, ◌^◌, ◌≤◌, ◌<◌, ◌≡◌, refl, sym, ap, ◌∙◌, inl, inr, Bool, true}
use baiak_fonticak.Base.{false, ◌&&◌, ◌||◌, some, arith, ltb, ◌==◌, if◌then◌else◌}
use baiak_fonticak.Base.{Bool-cases}
use baiak_fonticak.World.Position.{Position, IsPosition, get_distance_x, get_distance_y}
use baiak_fonticak.World.Sight.{Tiles, check_sight_line, is_floor_clear, is_sight_clear}
use baiak_fonticak.World.Sight.{can_throw_object_to}

-- The last tests of isSightClear pass an answer on when sameFloor is set.
passed : (c : Bool) → c || true ≡ true
passed c = ground arith

-- The answer on one floor, where sameFloor is set.
floor_answer :
    (fuel : ℕ) (tiles : Tiles) (p q : Position) (b c : Bool)
    → check_sight_line fuel tiles p.x p.y q.x q.y p.z ≡ some b
    → check_sight_line fuel tiles q.x q.y p.x p.y p.z ≡ some c
    → is_floor_clear fuel tiles p q true
      ≡ some (if ltb (get_distance_x p q) 2 && ltb (get_distance_y p q) 2 then true else b || c)
unfolding is_floor_clear
floor_answer fuel tiles p q b c hb hc =
    let checks = or_check_lem _ _ b c hb hc in
    elim (Bool-cases (ltb (get_distance_x p q) 2 && ltb (get_distance_y p q) 2)) [
      | inl near ↦ rw near refl
      | inr far ↦ rw (far, checks, passed (b || c)) refl
    ]

distance_x_comm : (p q : Position) → get_distance_x p q ≡ get_distance_x q p
distance_x_comm p q = distance_x-dist p q ∙ dist_comm p.x q.x ∙ sym (distance_x-dist q p)

distance_y_comm : (p q : Position) → get_distance_y p q ≡ get_distance_y q p
distance_y_comm p q = distance_y-dist p q ∙ dist_comm p.y q.y ∙ sym (distance_y-dist q p)

floor_both :
    (fuel : ℕ) (tiles : Tiles) (p q : Position)
    → IsPosition p
    → IsPosition q
    → get_distance_x p q < 2 ^ 15
    → get_distance_y p q < 2 ^ 15
    → 2 ^ 16 ≤ fuel
    → p.z ≡ q.z
    → (b : Bool) × (is_floor_clear fuel tiles p q true ≡ some b)
      × (is_floor_clear fuel tiles q p true ≡ some b)
floor_both fuel tiles p q hp hq narrow flat enough same =
    let ex = distance_x-dist p q in
    let ey = distance_y-dist p q in
    let bx = dist_comm p.x q.x in
    let by = dist_comm p.y q.y in
    let (b, hb) = line_answers fuel tiles p q p.z hp hq (omega arith) (omega arith) enough in
    let (c, hc) = line_answers fuel tiles q p p.z hq hp (omega arith) (omega arith) enough in
    let at_q = λ (x0 y0 x1 y1 : ℕ). ap (check_sight_line fuel tiles x0 y0 x1 y1) (sym same) in
    let near = λ (d e : ℕ). λ (r : Bool). if ltb d 2 && ltb e 2 then true else r in
    (
      near (get_distance_x p q) (get_distance_y p q) (b || c),
      floor_answer fuel tiles p q b c hb hc,
      floor_answer fuel tiles q p c b (at_q q.x q.y p.x p.y ∙ hc) (at_q p.x p.y q.x q.y ∙ hb)
          ∙ ap some (
              ap (λ d. near d (get_distance_y q p) (c || b)) (distance_x_comm q p)
              ∙ ap (λ e. near (get_distance_x p q) e (c || b)) (distance_y_comm q p)
              ∙ ap (near (get_distance_x p q) (get_distance_y p q)) (or_comm c b)),
    )

throw_both :
    (fuel : ℕ) (tiles : Tiles) (from to : Position) (check_line_of_sight : Bool) (rangex rangey : ℕ)
    → IsPosition from
    → IsPosition to
    → rangex < 2 ^ 15
    → rangey < 2 ^ 15
    → 2 ^ 16 ≤ fuel
    → (answer : Bool) × (can_throw_object_to fuel tiles from to check_line_of_sight true rangex
          rangey
        ≡ some answer)
      × (can_throw_object_to fuel tiles to from check_line_of_sight true rangex rangey
          ≡ some answer)
unfolding can_throw_object_to is_sight_clear
throw_both fuel tiles from to check rangex rangey hf ht hx hy enough =
    let ex = distance_x_comm to from in
    let ey = distance_y_comm to from in
    elim (Bool-cases (ltb rangex (get_distance_x from to) || ltb rangey (get_distance_y from to))) [
      | inl far ↦ (false, rw far refl, rw (ex, ey, far) refl)
      | inr in_range ↦
          let narrow : get_distance_x from to < 2 ^ 15 = ground arith in
          let flat : get_distance_y from to < 2 ^ 15 = ground arith in
          elim (Bool-cases check) [
            | inr unchecked ↦
                (true, rw (in_range, unchecked) refl, rw (ex, ey, in_range, unchecked) refl)
            | inl checked ↦ elim (Bool-cases (from.z == to.z)) [
              | inr apart ↦
                  let back : (to.z == from.z) ≡ false = ground arith in
                  (
                    false,
                    rw (in_range, checked, apart) refl,
                    rw (ex, ey, in_range, checked, back) refl,
                  )
              | inl level ↦
                  let back : (to.z == from.z) ≡ true = ground arith in
                  let (b, there, again) =
                    floor_both fuel tiles from to hf ht narrow flat enough (ground arith) in
                  (
                    b,
                    rw (in_range, checked, level) there,
                    rw (ex, ey, in_range, checked, back) again,
                  )
            ]
          ]
    ]

-- Between any two positions, whatever the tiles are, with or without a check of the line of sight
-- and for ranges below 2^15, canThrowObjectTo answers, and with sameFloor it gives the same answer
-- for the way back; fuel of 2^16 is enough.
pub can_throw_object_to_symmetric :
    (fuel : ℕ) (tiles : Tiles) (from to : Position) (check_line_of_sight : Bool) (rangex rangey : ℕ)
    → IsPosition from
    → IsPosition to
    → rangex < 2 ^ 15
    → rangey < 2 ^ 15
    → 2 ^ 16 ≤ fuel
    → ((same_floor : Bool)
        → Answers
            (can_throw_object_to fuel tiles from to check_line_of_sight same_floor rangex rangey))
      × (can_throw_object_to fuel tiles from to check_line_of_sight true rangex rangey
          ≡ can_throw_object_to fuel tiles to from check_line_of_sight true rangex rangey)
can_throw_object_to_symmetric fuel tiles from to check rangex rangey hf ht hx hy enough =
    let (b, there, back) = throw_both fuel tiles from to check rangex rangey hf ht hx hy enough in
    (
      (λ same_floor.
          throw_answers fuel tiles from to check same_floor rangex rangey hf ht hx hy enough),
      there ∙ sym back,
    )
