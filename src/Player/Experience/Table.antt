-- ===== src/Player/Experience/Table.antt =====
-- The experience each level asks for (Player::getExpForLevel, src/player.h).
use baiak_fonticak.Base.Words.{u64, add_u64, sub_u64, mul_mono}
use baiak_fonticak.Player.Experience.{get_exp_for_level}
use baiak_fonticak.Base.{ℕ, zero, suc, ◌+◌, ◌-◌, ◌*◌, ◌/◌, ◌≤◌, ◌<◌, ◌≡◌, ap, subst, ◌∙◌}
use baiak_fonticak.Base.{inl, inr, arith, ltb, ltb→lt, Bool-cases}

-- Levels up to this one stay in 64 bits.
abbrev pub level_cap : ℕ
level_cap = 1000000

-- (((lv - 6) * lv + 17) * lv - 12), for the level k + 6.
abbrev numerator : ℕ → ℕ
numerator k = k * k * k + 12 * (k * k) + 53 * k + 90

square_bound : (k : ℕ) → k ≤ 1000000 → k * k ≤ 1000000 * 1000000
square_bound k h = grind (arith, mul_mono k k 1000000 h)

cube_bound : (k : ℕ) → k ≤ 1000000 → k * k * k ≤ 1000000 * 1000000 * 1000000
cube_bound k h =
    let sq = square_bound k h in let cube = mul_mono (k * k) k 1000000 h in omega (arith, sq, cube)

exp_from :
    (lv a b c r : ℕ)
    → sub_u64 lv 6 ≡ a
    → add_u64 (u64 (a * lv)) 17 ≡ b
    → sub_u64 (u64 (b * lv)) 12 ≡ c
    → u64 (c / 6 * 100) ≡ r
    → get_exp_for_level lv ≡ r
unfolding get_exp_for_level
exp_from lv a b c r ea eb ec er =
    ap (λ x. u64 (sub_u64 (u64 (add_u64 (u64 (x * lv)) 17 * lv)) 12 / 6 * 100)) ea
    ∙ ap (λ x. u64 (sub_u64 (u64 (x * lv)) 12 / 6 * 100)) eb
    ∙ ap (λ x. u64 (x / 6 * 100)) ec
    ∙ er

exp_high : (k : ℕ) → k + 6 ≤ level_cap → get_exp_for_level (k + 6) ≡ numerator k / 6 * 100
exp_high k h =
    let sq = square_bound k (omega (arith, h)) in
    let cube = cube_bound k (omega (arith, h)) in
    exp_from (k + 6) k (k * (k + 6) + 17) (numerator k) (numerator k / 6 * 100) (omega (arith, h))
      (omega (arith, sq, h)) (omega (arith, sq, cube, h)) (omega (arith, sq, cube, h))

numerator_step : (k : ℕ) → numerator k + 6 ≤ numerator (k + 1)
numerator_step k = omega arith

exp_high_step :
    (k : ℕ) → k + 6 < level_cap → get_exp_for_level (k + 6) < get_exp_for_level (k + 1 + 6)
exp_high_step k h =
    omega (arith, exp_high k (omega arith), exp_high (k + 1) (omega arith), numerator_step k)

exp_low_step : (l : ℕ) → 1 ≤ l → l < 6 → get_exp_for_level l < get_exp_for_level (suc l)
unfolding get_exp_for_level
exp_low_step zero low high = absurd (omega (arith, low))
exp_low_step (suc zero) low high = omega arith
exp_low_step (suc (suc zero)) low high = omega arith
exp_low_step (suc (suc (suc zero))) low high = omega arith
exp_low_step (suc (suc (suc (suc zero)))) low high = omega arith
exp_low_step (suc (suc (suc (suc (suc zero))))) low high = omega arith
exp_low_step (suc (suc (suc (suc (suc (suc l)))))) low high = absurd (omega (arith, high))

-- Every level from 1 up to the cap asks for more experience than the one before.
pub exp_step : (l : ℕ) → 1 ≤ l → l < level_cap → get_exp_for_level l < get_exp_for_level (suc l)
exp_step l low high = elim (Bool-cases (ltb l 6)) [
  | inl small ↦ exp_low_step l low (ltb→lt l 6 small)
  | inr big ↦
      let large : 6 ≤ l = ground (arith, big) in
      let here : l - 6 + 6 ≡ l = omega (arith, large) in
      let there : l - 6 + 1 + 6 ≡ suc l = omega (arith, large) in
      subst (λ n. get_exp_for_level l < get_exp_for_level n) there
        (subst (λ n. get_exp_for_level n < get_exp_for_level (l - 6 + 1 + 6)) here
          (exp_high_step (l - 6) (omega (arith, large, high))))
]

exp_mono : (a d : ℕ) → 1 ≤ a → d + a ≤ level_cap → get_exp_for_level a ≤ get_exp_for_level (d + a)
exp_mono a zero low high =
    let same : a ≡ zero + a = omega arith in
    subst (λ n. get_exp_for_level a ≤ get_exp_for_level n) same (omega arith)
exp_mono a (suc d) low high =
    let rest = exp_mono a d low (omega (arith, high)) in
    let step = exp_step (d + a) (omega (arith, low)) (omega (arith, high)) in
    let same : suc (d + a) ≡ suc d + a = omega arith in
    subst (λ n. get_exp_for_level a ≤ get_exp_for_level n) same (omega (arith, rest, step))

-- A level whose experience is below that of another level is below it.
pub exp_reflects :
    (a b : ℕ) → 1 ≤ b → a ≤ level_cap → get_exp_for_level a < get_exp_for_level b → a < b
exp_reflects a b low high h = elim (Bool-cases (ltb a b)) [
  | inl below ↦ ltb→lt a b below
  | inr beyond ↦
      let same : a - b + b ≡ a = ground (arith, beyond) in
      let more = exp_mono b (a - b) low (omega (arith, same, high)) in
      let bound : get_exp_for_level b ≤ get_exp_for_level a =
        subst (λ n. get_exp_for_level b ≤ get_exp_for_level n) same more in
      absurd (omega (arith, bound, h))
]
