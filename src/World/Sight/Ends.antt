-- ===== src/World/Sight/Ends.antt =====
-- The loop of checkSightLine comes to its end (src/map.cpp), and what it has looked at then.
use baiak_fonticak.Base.{ℕ, zero, suc, ◌+◌, ◌^◌, ◌≤◌, ◌<◌, ◌≡◌, refl, sym, subst, ◌∙◌, ◌≢◌}
use baiak_fonticak.Base.{◌⊎◌, inl, inr, Bool, true, false, ◌&&◌, ◌||◌, Option, some, List}
use baiak_fonticak.Base.{[], ◌∷◌, arith, length, leb, ◌==◌, if◌then◌else◌, ==_self}
use baiak_fonticak.Base.{Bool-cases}
use baiak_fonticak.World.Sight.{Line, line_to, next_x, next_y, walk, check_sight_line, Tiles}
use baiak_fonticak.World.Sight.{is_tile_clear}
use baiak_fonticak.World.Sight.Lines.{IsBefore, dist}
use baiak_fonticak.World.Sight.Rounds.{IsNearer, Follows, Follows-IsNearer, Follows-leaves}
use baiak_fonticak.World.Sight.Rounds.{there, not_there}
use baiak_fonticak.World.Sight.Ways.{round}

-- Steps to neighbouring places, each nearer to x1, y1 and never further in a coordinate, that end
-- there.
unfoldable pub IsWay : ℕ → ℕ → ℕ → ℕ → List (ℕ × ℕ) → Type 0
IsWay x y x1 y1 [] = (x ≡ x1) × (y ≡ y1)
IsWay x y x1 y1 (p ∷ way) =
    IsNearer x p.0 x1 × IsNearer y p.1 y1 × ((p.0 ≢ x) ⊎ (p.1 ≢ y)) × IsWay p.0 p.1 x1 y1 way

unfoldable pub all_clear : (ℕ → ℕ → Bool) → List (ℕ × ℕ) → Bool
all_clear clear [] = true
all_clear clear (p ∷ way) = if clear p.0 p.1 then all_clear clear way else false

some_if :
    (b c : Bool) (later : Option Bool)
    → later ≡ some c
    → (if b then later else some false) ≡ some (if b then c else false)
some_if true c later h = h
some_if false c later h = refl

-- One of the coordinates has less left, and none more.
fewer :
    (a b : Bool) (l r m s : ℕ)
    → r ≡ l + (if a then 1 else 0)
    → s ≡ m + (if b then 1 else 0)
    → a || b ≡ true
    → (l ≤ r) × (m ≤ s) × (l + m < r + s)
fewer a b l r m s ha hb h = ground arith

module _ (u v : Bool) (x0 y0 x1 y1 dx dy : ℕ) (hx : IsBefore u x0 x1 dx) (hy : IsBefore v y0 y1 dy)
    (x1_fits : x1 < 2 ^ 16) (y1_fits : y1 < 2 ^ 16) (narrow : dx < 2 ^ 15)
    (flat : dy < 2 ^ 15) where
  abbrev straight : Line
  straight = line_to x0 y0 x1 y1

  abbrev Finish : ℕ → ℕ → ℕ → ℕ → Type 0
  Finish fuel x y most =
      (way : List (ℕ × ℕ)) × IsWay x y x1 y1 way
      × (length way ≤ most)
      × ((clear : ℕ → ℕ → Bool) → walk fuel clear straight x y ≡ some (all_clear clear way))

  arrived : (fuel x y : ℕ) → IsBefore u x x1 0 → IsBefore v y y1 0 → Finish (suc fuel) x y 0
  unfolding walk IsWay all_clear line_to
  arrived fuel x y bx by =
      let ex = there u x x1 bx in
      let ey = there v y y1 by in
      ([], (ex, ey), omega arith, (λ clear. rw (ex, ey, ==_self x1, ==_self y1) refl))

  -- A place with something left is not the destination.
  away :
      (x y r s : ℕ)
      → IsBefore u x x1 r
      → IsBefore v y y1 s
      → 0 < r + s
      → (x == x1 && y == y1) ≡ false
  away x y zero zero bx by some_left = absurd (omega arith)
  away x y zero (suc s) bx by some_left = let e = not_there v y y1 s by in ground arith
  away x y (suc r) s bx by some_left = let e = not_there u x x1 r bx in ground arith

  leaves :
      (x y r s : ℕ) (b c : Bool) (p q : ℕ)
      → IsBefore u x x1 r
      → IsBefore v y y1 s
      → Follows u x p x1 r b
      → Follows v y q y1 s c
      → b || c ≡ true
      → (p ≢ x) ⊎ (q ≢ y)
  leaves x y r s true c p q bx by fx fy h = inl (Follows-leaves u x p x1 r bx fx)
  leaves x y r s false true p q bx by fx fy h = inr (Follows-leaves v y q y1 s by fy)
  leaves x y r s false false p q bx by fx fy h = absurd (ground arith)

  abbrev Ends : ℕ → Type 0
  Ends fuel =
      (x y r s : ℕ)
      → IsBefore u x x1 r
      → IsBefore v y y1 s
      → r ≤ dx
      → s ≤ dy
      → x < 2 ^ 16
      → y < 2 ^ 16
      → r + s < fuel
      → Finish fuel x y (r + s)

  -- A round, and then the way from the next place.
  walked_on :
      (fuel x y r s : ℕ)
      → Ends fuel
      → IsBefore u x x1 r
      → IsBefore v y y1 s
      → r ≤ dx
      → s ≤ dy
      → x < 2 ^ 16
      → y < 2 ^ 16
      → r + s < suc fuel
      → 0 < r + s
      → Finish (suc fuel) x y (r + s)
  unfolding walk IsWay all_clear line_to
  walked_on fuel x y r s ends bx by hr hs fx fy enough some_left =
      let k =
        round u v x0 y0 x1 y1 dx dy hx hy x1_fits y1_fits narrow flat x y r s bx by hr hs fx fy
          some_left in
      let f = k.follows_x in
      let g = k.follows_y in
      let (less_x, less_y, less) =
        fewer k.move_x k.move_y f.left r g.left s f.moved g.moved k.some_moves in
      let (way, is_way, short, runs) =
        ends (next_x straight x y) (next_y straight x y) f.left g.left f.before g.before
          (omega arith) (omega arith) f.fits g.fits (omega arith) in
      let off = away x y r s bx by some_left in
      (
        (next_x straight x y, next_y straight x y) ∷ way,
        (
          Follows-IsNearer u x (next_x straight x y) x1 r k.move_x bx f,
          Follows-IsNearer v y (next_y straight x y) y1 s k.move_y by g,
          leaves x y r s k.move_x k.move_y _ _ bx by f g k.some_moves,
          is_way,
        ),
        omega arith,
        (λ clear.
            rw off (some_if (clear (next_x straight x y) (next_y straight x y)) _ _ (runs clear))),
      )

  pub walked : (fuel : ℕ) → Ends fuel
  walked zero x y r s bx by hr hs fx fy enough = absurd (omega arith)
  walked (suc fuel) x y zero zero bx by hr hs fx fy enough = arrived fuel x y bx by
  walked (suc fuel) x y zero (suc s) bx by hr hs fx fy enough =
      walked_on fuel x y zero (suc s) (walked fuel) bx by hr hs fx fy enough (omega arith)
  walked (suc fuel) x y (suc r) s bx by hr hs fx fy enough =
      walked_on fuel x y (suc r) s (walked fuel) bx by hr hs fx fy enough (omega arith)

tested_twice :
    {A : Type 0} (b : Bool) (x y : A) → (if b then x else if b then x else y) ≡ (if b then x else y)
tested_twice true x y = refl
tested_twice false x y = refl

-- The test before the loop is also the first of the loop.
check-walk :
    (fuel x0 y0 x1 y1 z : ℕ) (tiles : Tiles)
    → 0 < fuel
    → check_sight_line fuel tiles x0 y0 x1 y1 z
      ≡ walk fuel (λ x y. is_tile_clear tiles false x y z) (line_to x0 y0 x1 y1) x0 y0
unfolding check_sight_line walk line_to
check-walk zero x0 y0 x1 y1 z tiles h = absurd (omega arith)
check-walk (suc fuel) x0 y0 x1 y1 z tiles h = tested_twice (x0 == x1 && y0 == y1) _ _

-- The direction to a coordinate.
before_lem : (q0 q1 : ℕ) → IsBefore (leb q0 q1) q0 q1 (dist q0 q1)
before_lem q0 q1 = elim (Bool-cases (leb q0 q1)) [
  | inl h ↦
      subst (λ b. IsBefore b q0 q1 (dist q0 q1)) (sym h) (unfold IsBefore dist in ground arith)
  | inr h ↦
      subst (λ b. IsBefore b q0 q1 (dist q0 q1)) (sym h) (unfold IsBefore dist in ground arith)
]

-- Between any two places less than 2^15 apart in each coordinate there is a way of steps to
-- neighbouring places, at most as many as the places are apart in both coordinates together, such
-- that checkSightLine ends, whatever the tiles are, and tells whether all tiles of that way are
-- clear; fuel above the sum of the distances is enough.
pub check_sight_line-IsWay :
    (fuel x0 y0 x1 y1 : ℕ)
    → x0 < 2 ^ 16
    → y0 < 2 ^ 16
    → x1 < 2 ^ 16
    → y1 < 2 ^ 16
    → dist x0 x1 < 2 ^ 15
    → dist y0 y1 < 2 ^ 15
    → dist x0 x1 + dist y0 y1 < fuel
    → (way : List (ℕ × ℕ)) × IsWay x0 y0 x1 y1 way
      × (length way ≤ dist x0 x1 + dist y0 y1)
      × ((tiles : Tiles) (z : ℕ)
          → check_sight_line fuel tiles x0 y0 x1 y1 z
            ≡ some (all_clear (λ x y. is_tile_clear tiles false x y z) way))
check_sight_line-IsWay fuel x0 y0 x1 y1 fx0 fy0 fx1 fy1 narrow flat enough =
    let (way, is_way, short, runs) =
      walked (leb x0 x1) (leb y0 y1) x0 y0 x1 y1 (dist x0 x1) (dist y0 y1) (before_lem x0 x1)
        (before_lem y0 y1) fx1 fy1 narrow flat fuel x0 y0 (dist x0 x1) (dist y0 y1)
        (before_lem x0 x1) (before_lem y0 y1) (omega arith) (omega arith) fx0 fy0 enough in
    (way, is_way, short, (λ tiles z. check-walk fuel x0 y0 x1 y1 z tiles (omega arith) ∙ runs _))
