-- ===== src/Player/Skills/Gaining.antt =====
-- addSkillAdvance and removeSkillTries (src/player.cpp) seen as changes of the sum of all tries.
use baiak_fonticak.Player.Skills.{finish_advance, add_skill_advance, Advance, advance_loop}
use baiak_fonticak.Player.Skills.{Skill}
use baiak_fonticak.Base.{ℕ, zero, suc, ◌+◌, ◌-◌, ◌^◌, ◌≤◌, ◌<◌, ◌≡◌, refl, subst, ◌∙◌, ◌≢◌}
use baiak_fonticak.Base.{inl, inr, some, arith, count, ltb, leb, ◌==◌, ltb→lt, Bool-cases}

-- The tries of the levels up to `level`.
unfoldable pub spent : (ℕ → ℕ) → ℕ → ℕ
spent req zero = 0
spent req (suc level) = spent req level + req (suc level)

-- All tries a skill stands for.
abbrev pub total : (ℕ → ℕ) → Skill → ℕ
total req s = s.tries + spent req s.level

-- Every level asks for more than the one before.
unfoldable pub IsIncreasing : (ℕ → ℕ) → Type 0
IsIncreasing req = (l : ℕ) → req l < req (suc l)

-- What the loop leaves of a skill `s` and a number of tries `gained`.
record IsAdvanced (req : ℕ → ℕ) (s : Skill) (gained : ℕ) (a : Advance) : Type 0 where
  conserves : a.skill.tries + a.rest + spent req a.skill.level ≡ total req s + gained
  is_started : a.skill.tries + a.rest < req (suc a.skill.level)
  next : a.next ≡ req (suc a.skill.level)
  is_open : a.curr < a.next
  is_small : a.skill.tries + a.rest < 2 ^ 64

loop_stop :
    (req : ℕ → ℕ) (fuel count curr next : ℕ) (s : Skill)
    → s.tries + count < 2 ^ 64
    → s.tries + count < next
    → advance_loop req (suc fuel) count curr next s
      ≡ some (record { skill = s; rest = count; curr = curr; next = next })
unfolding advance_loop
loop_stop req fuel count curr next s fits left = ground arith

loop_next :
    (req : ℕ → ℕ) (fuel count curr next : ℕ) (s : Skill)
    → s.tries + count < 2 ^ 64
    → next ≤ s.tries + count
    → s.tries < next
    → suc (suc s.level) < 2 ^ 16
    → next < req (suc (suc s.level))
    → advance_loop req (suc fuel) count curr next s
      ≡ advance_loop req fuel
          (s.tries + count - next)
          next
          (req (suc (suc s.level)))
          (record { level = suc s.level; tries = 0; percent = 0 })
unfolding advance_loop
loop_next req fuel count curr next s fits reached started small more = ground arith

module _ (req : ℕ → ℕ) (up : IsIncreasing req) where
  pub req_step : (l : ℕ) → req l < req (suc l)
  unfolding IsIncreasing
  req_step l = up l

  pub req_mono : (a d : ℕ) → req a ≤ req (d + a)
  req_mono a zero = grind arith
  req_mono a (suc d) =
      let rest = req_mono a d in
      let step = req_step (d + a) in
      let same : suc (d + a) ≡ suc d + a = omega arith in
      subst (λ n. req a ≤ req n) same (omega (arith, rest, step))

  pub req_reflects : (a b : ℕ) → req a < req b → a < b
  req_reflects a b h = elim (Bool-cases (ltb a b)) [
    | inl found ↦ ltb→lt a b found
    | inr beyond ↦
        let more = req_mono b (a - b) in
        let same : a - b + b ≡ a = ground (arith, beyond) in
        let bound : req b ≤ req a = subst (λ n. req b ≤ req n) same more in
        absurd (omega (arith, bound, h))
  ]

  advance_loop_lem :
      (cap fuel count : ℕ) (s : Skill)
      → cap < 2 ^ 16
      → s.tries + count < 2 ^ 64
      → s.tries + count < req cap
      → s.tries + count < fuel
      → s.tries < req (suc s.level)
      → (a : Advance) × (advance_loop req fuel count (req s.level) (req (suc s.level)) s ≡ some a)
        × IsAdvanced req s count a
  unfolding advance_loop spent
  advance_loop_lem cap zero count s small fits below enough ok = absurd (omega (arith, enough))
  advance_loop_lem cap (suc fuel) count s small fits below enough ok =
      elim (Bool-cases (leb (req (suc s.level)) (s.tries + count))) [
        | inr not_reached ↦
            let left : s.tries + count < req (suc s.level) = ground (arith, not_reached) in
            (
              record { skill = s; rest = count; curr = req s.level; next = req (suc s.level) },
              loop_stop req fuel count (req s.level) (req (suc s.level)) s fits left,
              record {
                conserves = omega arith;
                is_started = left;
                next = refl;
                is_open = req_step s.level;
                is_small = fits;
              },
            )
        | inl reached ↦
            let enough_tries : req (suc s.level) ≤ s.tries + count = ground (arith, reached) in
            let under = req_reflects (suc s.level) cap (omega (arith, below, enough_tries)) in
            let more = req_step (suc s.level) in
            let s1 : Skill = record { level = suc s.level; tries = 0; percent = 0 } in
            let count1 = s.tries + count - req (suc s.level) in
            let (a, runs, good) =
              advance_loop_lem cap fuel count1 s1 small (omega (arith, fits)) (omega (arith, below))
                (omega (arith, enough, ok, enough_tries)) (omega (arith, more)) in
            (
              a,
              loop_next req fuel count (req s.level) (req (suc s.level)) s fits enough_tries ok
                    (omega (arith, small, under)) more
                  ∙ runs,
              record {
                conserves = omega (arith, good.conserves, enough_tries);
                is_started = good.is_started;
                next = good.next;
                is_open = good.is_open;
                is_small = good.is_small;
              },
            )
      ]

advance_nothing :
    (req on_gain : ℕ → ℕ) (fuel count : ℕ) (s : Skill)
    → req s.level < req (suc s.level)
    → on_gain count ≡ 0
    → add_skill_advance req on_gain fuel count s ≡ some s
unfolding add_skill_advance
advance_nothing req on_gain fuel count s more gained = ground arith

advance_something :
    (req on_gain : ℕ → ℕ) (fuel count : ℕ) (s : Skill) (a : Advance)
    → suc s.level < 2 ^ 16
    → req s.level < req (suc s.level)
    → on_gain count ≢ 0
    → advance_loop req fuel (on_gain count) (req s.level) (req (suc s.level)) s ≡ some a
    → add_skill_advance req on_gain fuel count s ≡ some (finish_advance a)
unfolding add_skill_advance
advance_something req on_gain fuel count s a small more gained runs = ground arith

finish_total :
    (req : ℕ → ℕ) (gained : ℕ) (s : Skill) (a : Advance)
    → IsAdvanced req s gained a
    → total req (finish_advance a) ≡ total req s + gained
unfolding finish_advance
finish_total req gained s a good = omega (arith, good.conserves, good.is_small)

finish_started :
    (req : ℕ → ℕ) (gained : ℕ) (s : Skill) (a : Advance)
    → IsAdvanced req s gained a
    → (finish_advance a).tries < req (suc (finish_advance a).level)
unfolding finish_advance
finish_started req gained s a good = omega (arith, good.is_started, good.is_small)

-- addSkillAdvance keeps account of every try: the new skill stands for as many tries as the old
-- one and the gained ones together, and it has fewer than its next level asks for. It holds of a
-- vocation whose levels ask for more and more, of a skill with fewer tries than its next level
-- asks for, and of gains that stay in 64 bits and under a level `cap` of 16 bits; more fuel
-- than the tries is enough.
pub add_skill_advance-conserves :
    (req on_gain : ℕ → ℕ) (cap fuel count : ℕ) (s : Skill)
    → IsIncreasing req
    → cap < 2 ^ 16
    → s.level < cap
    → s.tries + on_gain count < 2 ^ 64
    → s.tries + on_gain count < req cap
    → s.tries + on_gain count < fuel
    → s.tries < req (suc s.level)
    → (t : Skill) × (add_skill_advance req on_gain fuel count s ≡ some t)
      × (total req t ≡ total req s + on_gain count)
      × (t.tries < req (suc t.level))
add_skill_advance-conserves req on_gain cap fuel count s up small low fits below enough ok =
    elim (Bool-cases (on_gain count == 0)) [
      | inl none_gained ↦ (
        s,
        advance_nothing req on_gain fuel count s (req_step req up s.level)
            (ground (arith, none_gained)),
        ground (arith, none_gained),
        ok,
      )
      | inr gained ↦
          let (a, runs, good) =
            advance_loop_lem req up cap fuel (on_gain count) s small fits below enough ok in
          (
            finish_advance a,
            advance_something req on_gain fuel count s a (omega (arith, small, low))
                (req_step req up s.level) (ground (arith, gained)) runs,
            finish_total req (on_gain count) s a good,
            finish_started req (on_gain count) s a good,
          )
    ]
