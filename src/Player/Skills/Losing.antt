-- ===== src/Player/Skills/Losing.antt =====
-- removeSkillTries (src/player.cpp) as the way back from addSkillAdvance.
use baiak_fonticak.Player.Skills.Gaining.{req_mono, total, spent, IsIncreasing}
use baiak_fonticak.Player.Skills.{remove_skill_tries, remove_loop, finish_remove, Skill}
use baiak_fonticak.Base.{ℕ, zero, suc, ◌+◌, ◌-◌, ◌^◌, ◌≤◌, ◌<◌, ◌≡◌, refl, ap, subst, ◌∙◌}
use baiak_fonticak.Base.{inl, inr, some, option_map, arith, count, ltb, ◌==◌, Bool-cases}

remove_stop :
    (req : ℕ → ℕ) (fuel count : ℕ) (s : Skill)
    → count ≤ s.tries
    → remove_loop req (suc fuel) count s ≡ some (s, count)
unfolding remove_loop
remove_stop req fuel count s few = ground arith

remove_next :
    (req : ℕ → ℕ) (fuel count : ℕ) (s : Skill)
    → s.tries < count
    → 10 < s.level
    → remove_loop req (suc fuel) count s
      ≡ remove_loop req fuel
          (count - s.tries)
          (record s { level = s.level - 1; tries = req s.level })
unfolding remove_loop
remove_next req fuel count s many high = ground arith

-- What the loop leaves when `count` tries are taken from `s`.
record IsRemoved (req : ℕ → ℕ) (s : Skill) (count : ℕ) (t : Skill) (rest : ℕ) : Type 0 where
  conserves : total req t + count ≡ total req s + rest
  is_enough : rest ≤ t.tries
  level : t.level ≤ s.level
  is_small : t.tries < 2 ^ 31

spent_pred : (req : ℕ → ℕ) (l : ℕ) → 0 < l → spent req l ≡ spent req (l - 1) + req l
unfolding spent
spent_pred req zero high = absurd (omega (arith, high))
spent_pred req (suc l) high =
    let same : l ≡ suc l - 1 = omega arith in
    subst (λ n. spent req (suc l) ≡ spent req n + req (suc l)) same refl

module _ (req : ℕ → ℕ) (up : IsIncreasing req) where
  remove_loop_lem :
      (fuel count : ℕ) (s : Skill)
      → s.level < fuel
      → 10 ≤ s.level
      → spent req 10 + count ≤ total req s
      → s.tries < 2 ^ 31
      → req s.level < 2 ^ 31
      → (t : Skill) × (rest : ℕ) × (remove_loop req fuel count s ≡ some (t, rest))
        × IsRemoved req s count t rest
  remove_loop_lem zero count s enough high below small req_small = absurd (omega (arith, enough))
  remove_loop_lem (suc fuel) count s enough high below small req_small =
      elim (Bool-cases (ltb s.tries count)) [
        | inr few ↦ (
          s,
          count,
          remove_stop req fuel count s (ground (arith, few)),
          record {
            conserves = refl;
            is_enough = ground (arith, few);
            level = omega arith;
            is_small = small;
          },
        )
        | inl more ↦
            let many : s.tries < count = ground (arith, more) in
            let above : 10 < s.level = above_minimum count s high below many in
            let split = spent_pred req s.level (omega (arith, above)) in
            let lower = req_mono req up (s.level - 1) 1 in
            let same : 1 + (s.level - 1) ≡ s.level = omega (arith, above) in
            let fewer = subst (λ n. req (s.level - 1) ≤ req n) same lower in
            let s1 : Skill = record s { level = s.level - 1; tries = req s.level } in
            let (t, rest, runs, good) =
              remove_loop_lem fuel (count - s.tries) s1 (omega (arith, enough, above))
                (omega (arith, above)) (omega (arith, below, many, split)) req_small
                (omega (arith, fewer, req_small)) in
            (
              t,
              rest,
              remove_next req fuel count s many above ∙ runs,
              record {
                conserves = omega (arith, good.conserves, split, many);
                is_enough = good.is_enough;
                level = omega (arith, good.level);
                is_small = good.is_small;
              },
            )
      ]
    where
      above_minimum :
          (count : ℕ) (s : Skill)
          → 10 ≤ s.level
          → spent req 10 + count ≤ total req s
          → s.tries < count
          → 10 < s.level
      above_minimum count s high below many = elim (Bool-cases (s.level == 10)) [
        | inl lowest ↦
            let same : s.level ≡ 10 = ground (arith, lowest) in
            let equal : spent req s.level ≡ spent req 10 = ap (spent req) same in
            absurd (omega (arith, equal, below, many))
        | inr higher ↦ ground (arith, higher, high)
      ]

finish_exact :
    (req : ℕ → ℕ) (t : Skill) (rest : ℕ)
    → rest ≤ t.tries
    → t.tries < 2 ^ 31
    → ((finish_remove req (t, rest)).tries ≡ t.tries - rest)
      × ((finish_remove req (t, rest)).level ≡ t.level)
unfolding finish_remove
finish_exact req t rest enough small = (ground arith, refl)

-- removeSkillTries takes exactly the asked tries from the sum of all tries and never raises the
-- level, when the skill has that many above the minimum level and its tries and the ones its
-- level asks for are under 2^31; more fuel than the level is enough.
pub remove_skill_tries-takes :
    (req : ℕ → ℕ) (fuel count : ℕ) (s : Skill)
    → IsIncreasing req
    → s.level < fuel
    → 10 ≤ s.level
    → spent req 10 + count ≤ total req s
    → s.tries < 2 ^ 31
    → req s.level < 2 ^ 31
    → (t : Skill) × (remove_skill_tries req fuel count s ≡ some t)
      × (total req t + count ≡ total req s)
      × (t.level ≤ s.level)
unfolding remove_skill_tries
remove_skill_tries-takes req fuel count s up enough high below small req_small =
    let (t, rest, runs, good) =
      remove_loop_lem req up fuel count s enough high below small req_small in
    let (tries, level) = finish_exact req t rest good.is_enough good.is_small in
    let spent_same = ap (spent req) level in
    (
      finish_remove req (t, rest),
      ap (option_map (finish_remove req)) runs,
      omega (arith, tries, spent_same, good.conserves, good.is_enough),
      omega (arith, level, good.level),
    )
