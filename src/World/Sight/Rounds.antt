-- ===== src/World/Sight/Rounds.antt =====
-- One round of the loop of checkSightLine (src/map.cpp) brings the place nearer to the destination.
use baiak_fonticak.Base.{if◌then◌else◌, sym, subst, inl, inr, ◌⊎◌, ◌==◌, ◌&&◌, ◌!=◌, ℕ, suc}
use baiak_fonticak.Base.{◌+◌, ◌%◌, ◌^◌, ◌<◌, ◌≡◌, refl, ap, ◌∙◌, ◌≢◌, Bool, true, false}
use baiak_fonticak.Base.{◌||◌, arith, ltb}
use baiak_fonticak.World.Sight.{Line, off_line, way_to}
use baiak_fonticak.World.Sight.Lines.{IsBefore, step_of, dist, off_line-wrap_x}
use baiak_fonticak.World.Sight.Lines.{off_line-wrap_y}

-- The next coordinate, which the line sees where it is, and which the step leads to.
pub near_x :
    (u : Bool) (l : Line) (x x1 r : ℕ)
    → IsBefore u x x1 (suc r)
    → x < 2 ^ 16
    → x1 < 2 ^ 16
    → (p : ℕ) × IsBefore u p x1 r
      × ((q : ℕ) → off_line l (x + step_of u) q ≡ off_line l p q)
      × ((x + step_of u) % 2 ^ 16 ≡ p)
unfolding IsBefore step_of
near_x true l x x1 r h hx h1 = (x + 1, omega arith, (λ q. refl), omega arith)
near_x false l x x1 r h hx h1 = (
  x1 + r,
  refl,
  (λ q. ap (λ k. off_line l k q) (omega arith) ∙ off_line-wrap_x l (x1 + r) q),
  omega arith,
)

pub near_y :
    (v : Bool) (l : Line) (y y1 s : ℕ)
    → IsBefore v y y1 (suc s)
    → y < 2 ^ 16
    → y1 < 2 ^ 16
    → (q : ℕ) × IsBefore v q y1 s
      × ((p : ℕ) → off_line l p (y + step_of v) ≡ off_line l p q)
      × ((y + step_of v) % 2 ^ 16 ≡ q)
unfolding IsBefore step_of
near_y true l y y1 s h hy h1 = (y + 1, omega arith, (λ p. refl), omega arith)
near_y false l y y1 s h hy h1 = (
  y1 + s,
  refl,
  (λ p. ap (off_line l p) (omega arith) ∙ off_line-wrap_y l p (y1 + s)),
  omega arith,
)

pub way_to-step_of :
    (u : Bool) (x0 x1 d : ℕ) → IsBefore u x0 x1 d → 0 < d → way_to x0 x1 ≡ step_of u
unfolding IsBefore step_of way_to
way_to-step_of true x0 x1 d h some_way = ground arith
way_to-step_of false x0 x1 d h some_way = ground arith

-- A coordinate that is there, or is not yet.
pub there : (u : Bool) (x x1 : ℕ) → IsBefore u x x1 0 → x ≡ x1
unfolding IsBefore
there true x x1 h = omega arith
there false x x1 h = omega arith

pub not_there : (u : Bool) (x x1 r : ℕ) → IsBefore u x x1 (suc r) → x ≢ x1
unfolding IsBefore
not_there true x x1 r h = λ e. omega arith
not_there false x x1 r h = λ e. omega arith

-- Of the three distances, going across is less than the greater of the others.
pub some_move :
    (dx dy m n hor ver cross : ℕ)
    → 0 < dx
    → 0 < dy
    → hor ≡ dist (m + dx) n
    → ver ≡ dist m (n + dy)
    → cross ≡ dist m n
    → (ltb ver hor || ltb cross hor) || (ltb hor ver || ltb cross ver) ≡ true
unfolding dist
some_move dx dy m n hor ver cross hdx hdy eh ev ec = ground arith

-- Where both coordinates are away, one of these tests is enough.
pub either_test :
    (x y to_x to_y moved hor ver cross : ℕ)
    → x ≢ to_x
    → y ≢ to_y
    → (ltb ver hor || ltb cross hor) || (ltb hor ver || ltb cross ver) ≡ true
    → (y != to_y && (x == to_x || (ltb ver hor || ltb cross hor)))
        || (x != to_x && (moved == to_y || (ltb hor ver || ltb cross ver)))
      ≡ true
either_test x y to_x to_y moved hor ver cross hx hy h = ground arith

-- A coordinate stays, or comes one nearer to `x1`.
unfoldable pub IsNearer : ℕ → ℕ → ℕ → Type 0
IsNearer x p x1 = (p ≡ x) ⊎ ((p ≡ x + 1) × (x < x1)) ⊎ ((x ≡ p + 1) × (x1 < x))

-- `p` follows on a coordinate that had `r` left, and has moved if `b`.
pub record Follows (u : Bool) (x p x1 r : ℕ) (b : Bool) : Type 0 where
  pub left : ℕ
  pub before : IsBefore u p x1 left
  pub fits : p < 2 ^ 16
  pub moved : r ≡ left + (if b then 1 else 0)

pub Follows-stay :
    (u : Bool) (x x1 r m : ℕ) (b : Bool)
    → IsBefore u x x1 r
    → x < 2 ^ 16
    → b ≡ false
    → Follows u x (if b then m else x) x1 r b
Follows-stay u x x1 r m true h fits e = absurd (ground arith)
Follows-stay u x x1 r m false h fits e = record {
  left = r;
  before = h;
  fits = fits;
  moved = omega arith;
}

pub Follows-move :
    (u : Bool) (l : Line) (x x1 r m : ℕ) (b : Bool)
    → IsBefore u x x1 (suc r)
    → x < 2 ^ 16
    → x1 < 2 ^ 16
    → m ≡ (x + step_of u) % 2 ^ 16
    → Follows u x (if b then m else x) x1 (suc r) b
Follows-move u l x x1 r m true h hx h1 e =
    let (p, before, same, there) = near_x u l x x1 r h hx h1 in
    let here : p ≡ m = sym (e ∙ there) in
    record {
      left = r;
      before = subst (λ k. IsBefore u k x1 r) here before;
      fits = omega arith;
      moved = omega arith;
    }
Follows-move u l x x1 r m false h hx h1 e = record {
  left = suc r;
  before = h;
  fits = hx;
  moved = omega arith;
}

pub Follows-IsNearer :
    (u : Bool) (x p x1 r : ℕ) (b : Bool)
    → IsBefore u x x1 r
    → Follows u x p x1 r b
    → IsNearer x p x1
unfolding IsBefore IsNearer
Follows-IsNearer true x p x1 r true h f =
    let e = f.before in let d = f.moved in inr (inl (omega arith))
Follows-IsNearer true x p x1 r false h f = let e = f.before in let d = f.moved in inl (omega arith)
Follows-IsNearer false x p x1 r true h f =
    let e = f.before in let d = f.moved in inr (inr (omega arith))
Follows-IsNearer false x p x1 r false h f = let e = f.before in let d = f.moved in inl (omega arith)

pub Follows-leaves : (u : Bool) (x p x1 r : ℕ) → IsBefore u x x1 r → Follows u x p x1 r true → p ≢ x
unfolding IsBefore
Follows-leaves true x p x1 r h f = let e = f.before in let d = f.moved in λ k. omega arith
Follows-leaves false x p x1 r h f = let e = f.before in let d = f.moved in λ k. omega arith

pub or_comm : (b c : Bool) → (b || c) ≡ (c || b)
or_comm b c = ground arith
