-- ===== src/Player/Experience/Levels.antt =====
-- The level that addExperience and removeExperience (src/player.cpp) leave.
use baiak_fonticak.Base.{◌⊎◌, ◌!=◌, ℕ, zero, suc, ◌+◌, ◌^◌, ◌≤◌, ◌<◌, ◌≡◌, refl, sym, ap}
use baiak_fonticak.Base.{subst, ◌∙◌, ◌≢◌, inl, inr, some, option_map, arith, leb, ◌==◌}
use baiak_fonticak.Base.{Bool-cases}
use baiak_fonticak.Player.Experience.{get_max_health, Gains, Player, get_exp_for_level}
use baiak_fonticak.Player.Experience.{gain_level, gain_levels, add_experience, finish_gain}
use baiak_fonticak.Player.Experience.{set_level_percent, on_level_changed, update_base_speed}
use baiak_fonticak.Player.Experience.Table.{level_cap, exp_step, exp_reflects}

-- The level is the one that the experience asks for.
pub record IsLevelled (p : Player) : Type 0 where
  pub positive : 1 ≤ p.level
  pub capped : p.level < level_cap
  pub reached : get_exp_for_level p.level ≤ p.experience
  pub missing : p.experience < get_exp_for_level (suc p.level)

gain_level_lem :
    (g : Gains) (p : Player)
    → p.level < level_cap
    → ((gain_level g p).level ≡ suc p.level) × ((gain_level g p).experience ≡ p.experience)
unfolding gain_level
gain_level_lem g p h = (omega (arith, h), refl)

gain_stop :
    (g : Gains) (fuel curr next : ℕ) (p : Player)
    → p.experience < next
    → gain_levels g (suc fuel) curr next p ≡ some (p, curr, next)
unfolding gain_levels
gain_stop g fuel curr next p h = ground arith

gain_next :
    (g : Gains) (fuel curr next : ℕ) (p : Player)
    → next ≤ p.experience
    → p.level < level_cap
    → next < get_exp_for_level (suc (suc p.level))
    → gain_levels g (suc fuel) curr next p
      ≡ gain_levels g fuel next (get_exp_for_level (suc (suc p.level))) (gain_level g p)
unfolding gain_levels
gain_next g fuel curr next p h small more = ground arith

cap_fits : get_exp_for_level level_cap < 2 ^ 64
unfolding get_exp_for_level
cap_fits = omega arith

-- What the loop of addExperience leaves.
record IsGained (p q : Player) : Type 0 where
  levelled : IsLevelled q
  experience : q.experience ≡ p.experience
  level : p.level ≤ q.level

gain_levels_lem :
    (g : Gains) (fuel : ℕ) (p : Player)
    → 1 ≤ p.level
    → p.level < level_cap
    → get_exp_for_level p.level ≤ p.experience
    → p.experience < get_exp_for_level level_cap
    → level_cap < p.level + fuel
    → (q : Player) × (curr : ℕ) × (next : ℕ) × (gain_levels g fuel
          (get_exp_for_level p.level)
          (get_exp_for_level (suc p.level))
          p
        ≡ some (q, curr, next))
      × IsGained p q
gain_levels_lem g zero p low high reached below enough = absurd (omega (arith, high, enough))
gain_levels_lem g (suc fuel) p low high reached below enough =
    elim (Bool-cases (leb (get_exp_for_level (suc p.level)) p.experience)) [
      | inr short ↦
          let missing : p.experience < get_exp_for_level (suc p.level) = ground (arith, short) in
          (
            p,
            get_exp_for_level p.level,
            get_exp_for_level (suc p.level),
            gain_stop g fuel (get_exp_for_level p.level) (get_exp_for_level (suc p.level)) p
                missing,
            record {
              levelled = record {
                positive = low;
                capped = high;
                reached = reached;
                missing = missing;
              };
              experience = refl;
              level = omega arith;
            },
          )
      | inl more ↦
          let passed : get_exp_for_level (suc p.level) ≤ p.experience = ground (arith, more) in
          let under =
            exp_reflects (suc p.level) level_cap (omega arith) high
              (omega (arith, passed, below)) in
          let (level, experience) = gain_level_lem g p high in
          let step = exp_step (suc p.level) (omega arith) under in
          let p1 = gain_level g p in
          let level_suc = ap suc level in
          let reached1 : get_exp_for_level p1.level ≤ p1.experience =
            subst (λ n. get_exp_for_level n ≤ p1.experience) (sym level)
              (omega (arith, passed, experience)) in
          let (q, curr, next, runs, good) =
            gain_levels_lem g fuel p1 (omega (arith, level)) (omega (arith, level, under)) reached1
              (omega (arith, experience, below)) (omega (arith, level, enough)) in
          let runs1 : gain_levels g fuel (get_exp_for_level (suc p.level))
                (get_exp_for_level (suc (suc p.level))) p1
              ≡ some (q, curr, next) =
            subst
              (λ n.
                gain_levels g fuel (get_exp_for_level n) (get_exp_for_level (suc n)) p1
                ≡ some (q, curr, next))
              level runs in
          (
            q,
            curr,
            next,
            gain_next g fuel (get_exp_for_level p.level) (get_exp_for_level (suc p.level)) p passed
                  high step
                ∙ runs1,
            record {
              levelled = good.levelled;
              experience = good.experience ∙ experience;
              level = omega (arith, good.level, level);
            },
          )
    ]

finish_gain_lem :
    (g : Gains) (prev curr next : ℕ) (p : Player)
    → ((finish_gain g prev (p, curr, next)).level ≡ p.level)
      × ((finish_gain g prev (p, curr, next)).experience ≡ p.experience)
unfolding finish_gain set_level_percent on_level_changed update_base_speed
finish_gain_lem g prev curr next p = ground arith

-- A player that still has a level, or has another one and then some health.
abbrev pub IsHealthy : ℕ → Player → Type 0
IsHealthy level q = (q.level ≡ level) ⊎ ((1 ≤ q.health) × (q.health < 2 ^ 31))

-- The health of a player whose level changed.
pub on_level_changed-healthy :
    (g : Gains) (p : Player)
    → (1 ≤ (on_level_changed g p).health) × ((on_level_changed g p).health < 2 ^ 31)
unfolding on_level_changed update_base_speed get_max_health
on_level_changed-healthy g p = ground arith

finish_gain-IsHealthy :
    (g : Gains) (prev curr next : ℕ) (p : Player)
    → IsHealthy prev (finish_gain g prev (p, curr, next))
unfolding finish_gain set_level_percent
finish_gain-IsHealthy g prev curr next p = elim (Bool-cases (prev != p.level)) [
  | inl changed ↦ rw changed (inr (on_level_changed-healthy g p))
  | inr same ↦ rw same (inl (ground (arith, same)))
]

pub IsLevelled-same :
    (p q : Player) → q.level ≡ p.level → q.experience ≡ p.experience → IsLevelled p → IsLevelled q
IsLevelled-same p q level experience h =
    let here = ap get_exp_for_level level in
    let there = ap (λ n. get_exp_for_level (suc n)) level in
    record {
      positive = omega (arith, level, h.positive);
      capped = omega (arith, level, h.capped);
      reached = omega (arith, here, experience, h.reached);
      missing = omega (arith, there, experience, h.missing);
    }

add_experience_unfold :
    (g : Gains) (on_gain : ℕ → ℕ) (fuel exp : ℕ) (p : Player)
    → p.level < level_cap
    → get_exp_for_level p.level < get_exp_for_level (suc p.level)
    → on_gain exp ≢ 0
    → p.experience + on_gain exp < 2 ^ 64
    → add_experience g on_gain fuel exp p
      ≡ option_map (finish_gain g p.level) (
          gain_levels g fuel
            (get_exp_for_level p.level)
            (get_exp_for_level (suc p.level))
            (record p { experience = p.experience + on_gain exp }))
unfolding add_experience
add_experience_unfold g on_gain fuel exp p high more gained fits = ground arith

add_nothing :
    (g : Gains) (on_gain : ℕ → ℕ) (fuel exp : ℕ) (p : Player)
    → p.level < level_cap
    → get_exp_for_level p.level < get_exp_for_level (suc p.level)
    → on_gain exp ≡ 0
    → add_experience g on_gain fuel exp p ≡ some p
unfolding add_experience
add_nothing g on_gain fuel exp p high more nothing = ground arith

-- addExperience adds the gained experience and leaves the player on the one level that the new
-- experience asks for, which is no lower than the old one; if the level changed, the player has
-- a health of at least 1. It holds of a player on the level of its experience and of gains that
-- stay under the level cap; fuel of the level cap is enough.
pub add_experience-IsLevelled :
    (g : Gains) (on_gain : ℕ → ℕ) (fuel exp : ℕ) (p : Player)
    → IsLevelled p
    → p.experience + on_gain exp < get_exp_for_level level_cap
    → level_cap ≤ fuel
    → (q : Player) × (add_experience g on_gain fuel exp p ≡ some q)
      × IsLevelled q
      × (q.experience ≡ p.experience + on_gain exp)
      × (p.level ≤ q.level)
      × IsHealthy p.level q
add_experience-IsLevelled g on_gain fuel exp p h below enough =
    let step = exp_step p.level h.positive h.capped in
    elim (Bool-cases (on_gain exp == 0)) [
      | inl nothing ↦ (
        p,
        add_nothing g on_gain fuel exp p h.capped step (ground (arith, nothing)),
        h,
        ground (arith, nothing),
        omega arith,
        inl refl,
      )
      | inr gained ↦
          let p1 : Player = record p { experience = p.experience + on_gain exp } in
          let (q, curr, next, runs, good) =
            gain_levels_lem g fuel p1 h.positive h.capped (omega (arith, h.reached)) below
              (omega (arith, h.positive, enough)) in
          let (level, experience) = finish_gain_lem g p.level curr next q in
          (
            finish_gain g p.level (q, curr, next),
            add_experience_unfold g on_gain fuel exp p h.capped step (ground (arith, gained))
                  (omega (arith, below, cap_fits))
                ∙ ap (option_map (finish_gain g p.level)) runs,
            IsLevelled-same q (finish_gain g p.level (q, curr, next)) level experience
                good.levelled,
            experience ∙ good.experience,
            omega (arith, level, good.level),
            finish_gain-IsHealthy g p.level curr next q,
          )
    ]
