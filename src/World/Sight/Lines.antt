-- ===== src/World/Sight/Lines.antt =====
-- How far the places around a line are off it (src/map.cpp, checkSightLine).
use baiak_fonticak.World.Sight.{line_to, Line, off_line}
use baiak_fonticak.Base.{refl, true, false, Bool, sym, ap, ◌∙◌, inl, inr, ◌*◌, ℕ, ◌+◌, ◌-◌}
use baiak_fonticak.Base.{◌%◌, ◌^◌, ◌<◌, ◌≡◌, ◌⊎◌, arith}
use baiak_fonticak.Base.Words.{sub_u32, u32, abs_int32}
use native.Mathlib.Nat.{mul-add, add-mul}

-- |m - n|
unfoldable pub dist : ℕ → ℕ → ℕ
dist m n = (m - n) + (n - m)

pub abs_int32-dist :
    (w m n : ℕ)
    → m < 2 ^ 31
    → n < 2 ^ 31
    → ((w + n) % 2 ^ 32 ≡ m) ⊎ ((w + m) % 2 ^ 32 ≡ n)
    → abs_int32 (u32 w) ≡ dist m n
unfolding abs_int32 dist
abs_int32-dist w m n hm hn (inl e) = ground arith
abs_int32-dist w m n hm hn (inr e) = ground arith

-- The coordinate `q` lies `r` below or above `q1`.
unfoldable pub IsBefore : Bool → ℕ → ℕ → ℕ → Type 0
IsBefore true q q1 r = q1 ≡ q + r
IsBefore false q q1 r = q ≡ q1 + r

-- The bits of the step from there.
unfoldable pub step_of : Bool → ℕ
step_of true = 1
step_of false = 2 ^ 32 - 1

-- The product with the bits of a negative number.
mul_opposite : (b v n : ℕ) → b + v ≡ 2 ^ 32 → b * n + v * n ≡ 2 ^ 32 * n
mul_opposite b v n h = sym (add-mul b v n) ∙ ap (λ k. k * n) h

module _ (dx dy p q r s : ℕ) (wide : dx * s < 2 ^ 31) (tall : dy * r < 2 ^ 31) where
  -- `a` and `b` are the numbers of a line that spans `dx` and `dy`, in each of the four quadrants.
  right_up :
      (b : ℕ)
      → b + dx ≡ 2 ^ 32
      → abs_int32 (u32 (dy * p + b * q + sub_u32 0 (dy * (p + r) + b * (q + s))))
        ≡ dist (dx * s) (dy * r)
  right_up b hb =
      let eb = mul_opposite b dx s hb in
      let ex = mul-add dy p r in
      let ey = mul-add b q s in abs_int32-dist _ _ _ wide tall (inl (omega arith))

  right_down :
      (a b : ℕ)
      → a + dy ≡ 2 ^ 32
      → b + dx ≡ 2 ^ 32
      → abs_int32 (u32 (a * p + b * (q + s) + sub_u32 0 (a * (p + r) + b * q)))
        ≡ dist (dx * s) (dy * r)
  right_down a b ha hb =
      let ea = mul_opposite a dy r ha in
      let eb = mul_opposite b dx s hb in
      let ex = mul-add a p r in
      let ey = mul-add b q s in abs_int32-dist _ _ _ wide tall (inr (omega arith))

  left_up :
      abs_int32 (u32 (dy * (p + r) + dx * q + sub_u32 0 (dy * p + dx * (q + s))))
      ≡ dist (dx * s) (dy * r)
  left_up =
      let ex = mul-add dy p r in
      let ey = mul-add dx q s in abs_int32-dist _ _ _ wide tall (inr (omega arith))

  left_down :
      (a : ℕ)
      → a + dy ≡ 2 ^ 32
      → abs_int32 (u32 (a * (p + r) + dx * (q + s) + sub_u32 0 (a * p + dx * q)))
        ≡ dist (dx * s) (dy * r)
  left_down a ha =
      let ea = mul_opposite a dy r ha in
      let ex = mul-add a p r in
      let ey = mul-add dx q s in abs_int32-dist _ _ _ wide tall (inl (omega arith))

-- The distance from the line, by its numbers.
abbrev measure : ℕ → ℕ → ℕ → ℕ → ℕ → ℕ → ℕ
measure a b x1 y1 p q = abs_int32 (u32 (a * p + b * q + sub_u32 0 (a * x1 + b * y1)))

measure_same :
    (p q : ℕ) {a a1 b b1 x1 x2 y1 y2 : ℕ}
    → a ≡ a1
    → b ≡ b1
    → x1 ≡ x2
    → y1 ≡ y2
    → measure a b x1 y1 p q ≡ measure a1 b1 x2 y2 p q
measure_same p q {a1 = a1} {b = b} {b1 = b1} {x1 = x1} {x2 = x2} {y1 = y1} ha hb hx hy =
    ap (λ k. measure k b x1 y1 p q) ha
    ∙ ap (λ k. measure a1 k x1 y1 p q) hb
    ∙ ap (λ k. measure a1 b1 k y1 p q) hx
    ∙ ap (λ k. measure a1 b1 x2 k p q) hy

-- A line that spans `dx` and `dy`, seen from a place that is `r` and `s` before its end.
pub off_line_lem :
    (u v : Bool) (x0 y0 x1 y1 dx dy p q r s : ℕ)
    → IsBefore u x0 x1 dx
    → IsBefore v y0 y1 dy
    → (0 < dx) × (dx < 2 ^ 16)
    → (0 < dy) × (dy < 2 ^ 16)
    → IsBefore u p x1 r
    → IsBefore v q y1 s
    → dx * s < 2 ^ 31
    → dy * r < 2 ^ 31
    → off_line (line_to x0 y0 x1 y1) p q ≡ dist (dx * s) (dy * r)
unfolding IsBefore off_line line_to
off_line_lem true true x0 y0 x1 y1 dx dy p q r s hx hy bx by hp hq wide tall =
    measure_same p q (omega arith) refl hp hq
    ∙ right_up dx dy p q r s wide tall (sub_u32 x0 x1) (omega arith)
off_line_lem true false x0 y0 x1 y1 dx dy p q r s hx hy bx by hp hq wide tall =
    ap (λ k. measure (sub_u32 y1 y0) (sub_u32 x0 x1) x1 y1 p k) hq
    ∙ measure_same p (y1 + s) refl refl hp refl
    ∙ right_down dx dy p y1 r s wide tall (sub_u32 y1 y0) (sub_u32 x0 x1) (omega arith)
        (omega arith)
off_line_lem false true x0 y0 x1 y1 dx dy p q r s hx hy bx by hp hq wide tall =
    ap (λ k. measure (sub_u32 y1 y0) (sub_u32 x0 x1) x1 y1 k q) hp
    ∙ measure_same (x1 + r) q {a1 = dy} {b1 = dx} (omega arith) (omega arith) refl hq
    ∙ left_up dx dy x1 q r s wide tall
off_line_lem false false x0 y0 x1 y1 dx dy p q r s hx hy bx by hp hq wide tall =
    ap (λ k. measure (sub_u32 y1 y0) (sub_u32 x0 x1) x1 y1 k q) hp
    ∙ ap (λ k. measure (sub_u32 y1 y0) (sub_u32 x0 x1) x1 y1 (x1 + r) k) hq
    ∙ measure_same (x1 + r) (y1 + s) {b1 = dx} refl (omega arith) refl refl
    ∙ left_down dx dy x1 y1 r s wide tall (sub_u32 y1 y0) (omega arith)

-- A step of -1 goes through 2^32.
pub off_line-wrap_x : (l : Line) (p q : ℕ) → off_line l (2 ^ 32 + p) q ≡ off_line l p q
unfolding off_line
off_line-wrap_x l p q = let e = mul-add l.a (2 ^ 32) p in ap abs_int32 (omega arith)

pub off_line-wrap_y : (l : Line) (p q : ℕ) → off_line l p (2 ^ 32 + q) ≡ off_line l p q
unfolding off_line
off_line-wrap_y l p q = let e = mul-add l.b (2 ^ 32) q in ap abs_int32 (omega arith)
