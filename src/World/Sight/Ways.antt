-- ===== src/World/Sight/Ways.antt =====
-- The way that the loop of checkSightLine takes (src/map.cpp).
use baiak_fonticak.World.Sight.Rounds.{or_comm, Follows-move, Follows-stay, there, Follows}
use baiak_fonticak.World.Sight.Rounds.{near_x, near_y, way_to-step_of, not_there, some_move}
use baiak_fonticak.Base.{◌%◌, zero, ℕ, suc, ◌+◌, ◌*◌, ◌^◌, ◌≤◌, ◌<◌, ◌≡◌, ap, ◌∙◌, Bool}
use baiak_fonticak.Base.{true, ◌||◌, arith}
use native.Mathlib.Nat.{mul-suc}
use baiak_fonticak.Base.Words.{mul_mono}
use baiak_fonticak.World.Sight.{Line, line_to, off_line, moves_x, moves_y, next_x, next_y}
use baiak_fonticak.World.Sight.Lines.{IsBefore, step_of, dist, off_line_lem}

-- A line from x0, y0 to x1, y1 that spans dx and dy.
module _ (u v : Bool) (x0 y0 x1 y1 dx dy : ℕ) (hx : IsBefore u x0 x1 dx) (hy : IsBefore v y0 y1 dy)
    (x1_fits : x1 < 2 ^ 16) (y1_fits : y1 < 2 ^ 16) (narrow : dx < 2 ^ 15)
    (flat : dy < 2 ^ 15) where
  abbrev line : Line
  line = line_to x0 y0 x1 y1

  mx_lem : 0 < dx → line.mx ≡ step_of u
  unfolding line_to
  mx_lem h = way_to-step_of u x0 x1 dx hx h

  my_lem : 0 < dy → line.my ≡ step_of v
  unfolding line_to
  my_lem h = way_to-step_of v y0 y1 dy hy h

  small : (n d : ℕ) → n ≤ 2 ^ 15 → d < 2 ^ 15 → n * d < 2 ^ 31
  small n d hn hd = let e = mul_mono n d (2 ^ 15) (omega arith) in omega arith

  seen :
      (p q r s : ℕ)
      → 0 < dx
      → 0 < dy
      → IsBefore u p x1 r
      → IsBefore v q y1 s
      → r ≤ dx
      → s ≤ dy
      → off_line line p q ≡ dist (dx * s) (dy * r)
  seen p q r s some_x some_y hp hq hr hs =
      off_line_lem u v x0 y0 x1 y1 dx dy p q r s hx hy (some_x, omega arith) (some_y, omega arith)
        hp hq (small dx s (omega arith) (omega arith)) (small dy r (omega arith) (omega arith))

  -- Both coordinates are away: the three tests move at least one of them.
  tests_move :
      (x y r s : ℕ)
      → IsBefore u x x1 (suc r)
      → IsBefore v y y1 (suc s)
      → suc r ≤ dx
      → suc s ≤ dy
      → x < 2 ^ 16
      → y < 2 ^ 16
      → moves_y line x y || moves_x line x y (next_y line x y) ≡ true
  unfolding moves_x moves_y line_to
  tests_move x y r s bx by hr hs fx fy =
      let (p, bp, same_p, move_p) = near_x u line x x1 r bx fx x1_fits in
      let (q, bq, same_q, move_q) = near_y v line y y1 s by fy y1_fits in
      let some_x : 0 < dx = omega arith in
      let some_y : 0 < dy = omega arith in
      let at_x = λ (k : ℕ). ap (λ m. off_line line (x + m) k) (mx_lem some_x) ∙ same_p k in
      let at_y = λ (k : ℕ). ap (λ m. off_line line k (y + m)) (my_lem some_y) ∙ same_q k in
      let hor =
        at_x y
        ∙ seen p y r (suc s) some_x some_y bp by (omega arith) hs
        ∙ ap (λ k. dist k (dy * r)) (mul-suc dx s) in
      let ver =
        at_y x
        ∙ seen x q (suc r) s some_x some_y bx bq hr (omega arith)
        ∙ ap (dist (dx * s)) (mul-suc dy r) in
      let cross =
        at_x (y + line.my)
        ∙ at_y p
        ∙ seen p q r s some_x some_y bp bq (omega arith) (omega arith) in
      let moved = some_move dx dy (dx * s) (dy * r) _ _ _ some_x some_y hor ver cross in
      let away_x = not_there u x x1 r bx in let away_y = not_there v y y1 s by in ground arith

  -- The two coordinates after a round, of which one has moved.
  pub record Round (x y r s : ℕ) : Type 0 where
    pub move_x : Bool
    pub move_y : Bool
    pub follows_x : Follows u x (next_x line x y) x1 r move_x
    pub follows_y : Follows v y (next_y line x y) y1 s move_y
    pub some_moves : move_x || move_y ≡ true

  pub round :
      (x y r s : ℕ)
      → IsBefore u x x1 r
      → IsBefore v y y1 s
      → r ≤ dx
      → s ≤ dy
      → x < 2 ^ 16
      → y < 2 ^ 16
      → 0 < r + s
      → Round x y r s
  unfolding next_x next_y moves_x moves_y line_to
  round x y zero zero bx by hr hs fx fy away = absurd (omega arith)
  round x y zero (suc s) bx by hr hs fx fy away =
      let at = there u x x1 bx in
      let off = not_there v y y1 s by in
      record {
        move_x = moves_x line x y (next_y line x y);
        move_y = moves_y line x y;
        follows_x = Follows-stay u x x1 0 _ _ bx fx (ground arith);
        follows_y =
            Follows-move v line y y1 s _ _ by fy y1_fits
              (ap (λ m. (y + m) % 2 ^ 16) (my_lem (omega arith)));
        some_moves = ground arith;
      }
  round x y (suc r) zero bx by hr hs fx fy away =
      let at = there v y y1 by in
      let off = not_there u x x1 r bx in
      record {
        move_x = moves_x line x y (next_y line x y);
        move_y = moves_y line x y;
        follows_x =
            Follows-move u line x x1 r _ _ bx fx x1_fits
              (ap (λ m. (x + m) % 2 ^ 16) (mx_lem (omega arith)));
        follows_y = Follows-stay v y y1 0 _ _ by fy (ground arith);
        some_moves = ground arith;
      }
  round x y (suc r) (suc s) bx by hr hs fx fy away =
      let moves = tests_move x y r s bx by hr hs fx fy in
      record {
        move_x = moves_x line x y (next_y line x y);
        move_y = moves_y line x y;
        follows_x =
            Follows-move u line x x1 r _ _ bx fx x1_fits
              (ap (λ m. (x + m) % 2 ^ 16) (mx_lem (omega arith)));
        follows_y =
            Follows-move v line y y1 s _ _ by fy y1_fits
              (ap (λ m. (y + m) % 2 ^ 16) (my_lem (omega arith)));
        some_moves = or_comm _ (moves_y line x y) ∙ moves;
      }
