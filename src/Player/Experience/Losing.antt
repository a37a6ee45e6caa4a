-- ===== src/Player/Experience/Losing.antt =====
-- removeExperience (src/player.cpp), and its way back from addExperience.
use baiak_fonticak.Player.Experience.Levels.{on_level_changed-healthy, IsHealthy, IsLevelled}
use baiak_fonticak.Player.Experience.Levels.{IsLevelled-same, add_experience-IsLevelled}
use baiak_fonticak.Base.{◌!=◌, ℕ, zero, suc, ◌+◌, ◌-◌, ◌^◌, ◌≤◌, ◌<◌, ◌≡◌, refl, sym, ap}
use baiak_fonticak.Base.{subst, ◌∙◌, ◌⊎◌, inl, inr, true, false, ◌&&◌, ◌||◌, some}
use baiak_fonticak.Base.{option_map, arith, ltb, ◌==◌, Bool-cases}
use baiak_fonticak.Player.Experience.{Gains, Player, get_exp_for_level, add_experience}
use baiak_fonticak.Player.Experience.{lose_level, lose_levels, remove_experience}
use baiak_fonticak.Player.Experience.{finish_loss, set_level_percent, on_level_changed}
use baiak_fonticak.Player.Experience.{update_base_speed}
use baiak_fonticak.Player.Experience.Table.{level_cap, exp_reflects}

lose_level_lem :
    (g : Gains) (p : Player)
    → p.level < level_cap
    → 1 < p.level
    → ((lose_level g p).level ≡ p.level - 1) × ((lose_level g p).experience ≡ p.experience)
unfolding lose_level
lose_level_lem g p high low = (omega (arith, high, low), refl)

lose_stop :
    (g : Gains) (fuel curr : ℕ) (p : Player)
    → (p.level ≤ 1) ⊎ (curr ≤ p.experience)
    → lose_levels g (suc fuel) curr p ≡ some (p, curr)
unfolding lose_levels
lose_stop g fuel curr p h = ground arith

lose_next :
    (g : Gains) (fuel curr : ℕ) (p : Player)
    → p.experience < curr
    → 1 < p.level
    → p.level < level_cap
    → lose_levels g (suc fuel) curr p
      ≡ lose_levels g fuel (get_exp_for_level (p.level - 1)) (lose_level g p)
unfolding lose_levels
lose_next g fuel curr p less high low = ground arith

exp_one : get_exp_for_level 1 ≡ 0
unfolding get_exp_for_level
exp_one = refl

-- What the loop of removeExperience leaves.
record IsLost (p q : Player) : Type 0 where
  levelled : IsLevelled q
  experience : q.experience ≡ p.experience
  level : q.level ≤ p.level

lose_levels_lem :
    (g : Gains) (fuel : ℕ) (p : Player)
    → 1 ≤ p.level
    → p.level < level_cap
    → p.experience < get_exp_for_level (suc p.level)
    → p.level ≤ fuel
    → (q : Player) × (curr : ℕ) × (lose_levels g fuel (get_exp_for_level p.level) p
        ≡ some (q, curr))
      × IsLost p q
lose_levels_lem g zero p low high missing enough = absurd (omega (arith, low, enough))
lose_levels_lem g (suc fuel) p low high missing enough =
    elim (Bool-cases (ltb 1 p.level && ltb p.experience (get_exp_for_level p.level))) [
      | inr stays ↦
          let reached : get_exp_for_level p.level ≤ p.experience = reached_when_stays p low stays in
          (
            p,
            get_exp_for_level p.level,
            lose_stop g fuel (get_exp_for_level p.level) p (inr reached),
            record {
              levelled = record {
                positive = low;
                capped = high;
                reached = reached;
                missing = missing;
              };
              experience = refl;
              level = omega arith;
            },
          )
      | inl falls ↦
          let above : 1 < p.level = ground (arith, falls) in
          let less : p.experience < get_exp_for_level p.level = ground (arith, falls) in
          let (level, experience) = lose_level_lem g p high above in
          let p1 = lose_level g p in
          let same : suc p1.level ≡ p.level = omega (arith, level, above) in
          let missing1 : p1.experience < get_exp_for_level (suc p1.level) =
            subst (λ n. p1.experience < get_exp_for_level n) (sym same)
              (omega (arith, experience, less)) in
          let (q, curr, runs, good) =
            lose_levels_lem g fuel p1 (omega (arith, level, above)) (omega (arith, level, high))
              missing1 (omega (arith, level, above, enough)) in
          let runs1 : lose_levels g fuel (get_exp_for_level (p.level - 1)) p1 ≡ some (q, curr) =
            subst (λ n. lose_levels g fuel (get_exp_for_level n) p1 ≡ some (q, curr)) level runs in
          (
            q,
            curr,
            lose_next g fuel (get_exp_for_level p.level) p less above high ∙ runs1,
            record {
              levelled = good.levelled;
              experience = good.experience ∙ experience;
              level = omega (arith, good.level, level);
            },
          )
    ]
  where
    reached_when_stays :
        (p : Player)
        → 1 ≤ p.level
        → (ltb 1 p.level && ltb p.experience (get_exp_for_level p.level)) ≡ false
        → get_exp_for_level p.level ≤ p.experience
    reached_when_stays p low stays = elim (Bool-cases (p.level == 1)) [
      | inl first ↦
          let same : p.level ≡ 1 = ground (arith, first) in
          let least = ap get_exp_for_level same ∙ exp_one in omega (arith, least)
      | inr later ↦ ground (arith, later, stays)
    ]

finish_loss_lem :
    (g : Gains) (old curr : ℕ) (p : Player)
    → ((finish_loss g old (p, curr)).level ≡ p.level)
      × ((finish_loss g old (p, curr)).experience ≡ p.experience)
unfolding finish_loss set_level_percent on_level_changed update_base_speed
finish_loss_lem g old curr p = ground arith

finish_loss-IsHealthy :
    (g : Gains) (old curr : ℕ) (p : Player) → IsHealthy old (finish_loss g old (p, curr))
unfolding finish_loss set_level_percent
finish_loss-IsHealthy g old curr p = elim (Bool-cases (old != p.level)) [
  | inl changed ↦ rw changed (inr (on_level_changed-healthy g p))
  | inr same ↦ rw same (inl (ground (arith, same)))
]

remove_nothing :
    (g : Gains) (on_lose : ℕ → ℕ) (fuel exp : ℕ) (p : Player)
    → (p.experience == 0 || on_lose exp == 0) ≡ true
    → remove_experience g on_lose fuel exp p ≡ some p
unfolding remove_experience
remove_nothing g on_lose fuel exp p nothing = ground arith

remove_something :
    (g : Gains) (on_lose : ℕ → ℕ) (fuel exp : ℕ) (p : Player)
    → p.experience < 2 ^ 63
    → on_lose exp < 2 ^ 63
    → 0 < exp
    → (p.experience == 0 || on_lose exp == 0) ≡ false
    → remove_experience g on_lose fuel exp p
      ≡ option_map (finish_loss g p.level) (
          lose_levels g fuel
            (get_exp_for_level p.level)
            (record p { experience = p.experience - on_lose exp }))
unfolding remove_experience
remove_something g on_lose fuel exp p fits loss_fits some_loss lost = ground arith

-- removeExperience takes the lost experience, at most all there is, and leaves the player on the
-- one level that the new experience asks for, which is no higher than the old one; if the level
-- changed, the player has a health of at least 1. It holds of a
-- player on the level of its experience, when experience and loss are under 2^63 and something
-- is lost; fuel of the level is enough.
pub remove_experience-IsLevelled :
    (g : Gains) (on_lose : ℕ → ℕ) (fuel exp : ℕ) (p : Player)
    → IsLevelled p
    → p.experience < 2 ^ 63
    → on_lose exp < 2 ^ 63
    → 0 < exp
    → p.level ≤ fuel
    → (q : Player) × (remove_experience g on_lose fuel exp p ≡ some q)
      × IsLevelled q
      × (q.experience ≡ p.experience - on_lose exp)
      × (q.level ≤ p.level)
      × IsHealthy p.level q
remove_experience-IsLevelled g on_lose fuel exp p h fits loss_fits some_loss enough =
    elim (Bool-cases (p.experience == 0 || on_lose exp == 0)) [
      | inl nothing ↦ (
        p,
        remove_nothing g on_lose fuel exp p nothing,
        h,
        ground (arith, nothing),
        omega arith,
        inl refl,
      )
      | inr lost ↦
          let p1 : Player = record p { experience = p.experience - on_lose exp } in
          let (q, curr, runs, good) =
            lose_levels_lem g fuel p1 h.positive h.capped (omega (arith, h.missing)) enough in
          let (level, experience) = finish_loss_lem g p.level curr q in
          (
            finish_loss g p.level (q, curr),
            remove_something g on_lose fuel exp p fits loss_fits some_loss lost
                ∙ ap (option_map (finish_loss g p.level)) runs,
            IsLevelled-same q (finish_loss g p.level (q, curr)) level experience good.levelled,
            experience ∙ good.experience,
            omega (arith, level, good.level),
            finish_loss-IsHealthy g p.level curr q,
          )
    ]

-- Two players on the levels of their experience, with the same experience, have the same level.
same_level :
    (p q : Player) → IsLevelled p → IsLevelled q → p.experience ≡ q.experience → p.level ≡ q.level
same_level p q hp hq same =
    let one =
      exp_reflects p.level (suc q.level) (omega arith) (omega (arith, hp.capped))
        (omega (arith, hp.reached, hq.missing, same)) in
    let two =
      exp_reflects q.level (suc p.level) (omega arith) (omega (arith, hq.capped))
        (omega (arith, hq.reached, hp.missing, same)) in
    omega (arith, one, two)

-- Losing what was just gained brings a player back to its level and experience, when the player
-- is on the level of its experience, something is gained, and the sum is under 2^63 and under
-- the level cap; the scripts leave the amounts as they are.
pub remove_experience-add_experience :
    (g : Gains) (exp : ℕ) (p : Player)
    → IsLevelled p
    → 0 < exp
    → p.experience + exp < 2 ^ 63
    → p.experience + exp < get_exp_for_level level_cap
    → (q : Player) × (r : Player) × (add_experience g (λ n. n) level_cap exp p ≡ some q)
      × (remove_experience g (λ n. n) level_cap exp q ≡ some r)
      × (r.experience ≡ p.experience)
      × (r.level ≡ p.level)
remove_experience-add_experience g exp p h gains fits below =
    let (q, adds, levelled, experience, level, _) =
      add_experience-IsLevelled g (λ n. n) level_cap exp p h below (omega arith) in
    let (r, takes, back, rest, lower, _) =
      remove_experience-IsLevelled g (λ n. n) level_cap exp q levelled
        (omega (arith, experience, fits)) (omega (arith, fits)) gains
        (omega (arith, levelled.capped)) in
    let same : r.experience ≡ p.experience = omega (arith, rest, experience) in
    (q, r, adds, takes, same, same_level r p back h same)
