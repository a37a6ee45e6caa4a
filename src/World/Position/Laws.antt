-- ===== src/World/Position/Laws.antt =====
-- Laws of the comparisons and of the arithmetic of positions.
use baiak_fonticak.Base.{ℕ, ◌+◌, ◌≤◌, ◌≡◌, ◌⊎◌, ◌↔◌, true, false, not, arith}
use baiak_fonticak.World.Position.{Position, IsPosition, is_less, is_greater, is_equal}
use baiak_fonticak.World.Position.{is_not_equal, plus, minus, are_in_range, get_distance_x}
use baiak_fonticak.World.Position.{get_distance_y}

-- `<` is irreflexive and transitive, any two positions are comparable by `<` one way or the other
-- or by `==`, `==` holds exactly of equal positions, `!=` is the negation of `==`, and `>` holds of
-- `a` and `b` exactly when `b < a` or `a == b`, so that every position is `>` itself.
pub less_total_order :
    (a b c : Position)
    → (is_less a a ≡ false)
      × (is_less a b ≡ true → is_less b c ≡ true → is_less a c ≡ true)
      × ((is_less a b ≡ true) ⊎ (is_less b a ≡ true) ⊎ (is_equal a b ≡ true))
      × ((is_equal a b ≡ true) ↔ (a ≡ b))
      × (is_not_equal a b ≡ not (is_equal a b))
      × ((is_greater a b ≡ true) ↔ ((is_less b a ≡ true) ⊎ (is_equal a b ≡ true)))
unfolding is_less is_equal is_not_equal is_greater
less_total_order a b c = (
  ground arith,
  ground arith,
  ground arith,
  (ground arith, ground arith),
  ground arith,
  (ground arith, ground arith),
)

-- On coordinates within the fields' types, subtraction undoes addition in spite of the wrap-around.
minus-plus : (a b : Position) → IsPosition a → IsPosition b → minus (plus a b) b ≡ a
unfolding plus minus
minus-plus a b ha hb = ground arith

distance_x_metric :
    (a b c : Position)
    → (get_distance_x a b ≡ get_distance_x b a)
      × (get_distance_x a c ≤ get_distance_x a b + get_distance_x b c)
unfolding get_distance_x
distance_x_metric a b c = (ground arith, ground arith)

distance_y_metric :
    (a b c : Position)
    → (get_distance_y a b ≡ get_distance_y b a)
      × (get_distance_y a c ≤ get_distance_y a b + get_distance_y b c)
unfolding get_distance_y
distance_y_metric a b c = (ground arith, ground arith)

-- Being in range does not depend on the order of the two positions, and ranges add up: within
-- (dx, dy) of b and b within (ex, ey) of c gives within (dx + ex, dy + ey) of c.
are_in_range_metric :
    (dx dy ex ey : ℕ) (a b c : Position)
    → (are_in_range dx dy a b ≡ are_in_range dx dy b a)
      × (are_in_range dx dy a b ≡ true
          → are_in_range ex ey b c ≡ true
          → are_in_range (dx + ex) (dy + ey) a c ≡ true)
unfolding are_in_range
are_in_range_metric dx dy ex ey a b c = (
  ground (arith, distance_x_metric a b c, distance_y_metric a b c),
  ground (arith, distance_x_metric a b c, distance_y_metric a b c),
)
