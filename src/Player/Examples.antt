-- ===== src/Player/Examples.antt =====
-- A knight who learns and hunts: the theorems about advancing at concrete values.
use baiak_fonticak.Player.Experience.Levels.{IsHealthy, IsLevelled}
use baiak_fonticak.Player.Experience.Levels.{add_experience-IsLevelled}
use baiak_fonticak.Base.{ℕ, suc, ◌+◌, ◌-◌, ◌*◌, ◌^◌, ◌≤◌, ◌<◌, ◌≡◌, refl, ◌⊎◌, false, some}
use baiak_fonticak.Base.{option_map, arith}
use baiak_fonticak.Player.Magic.{Magic, remove_mana_spent, unspend_loop, finish_unspending}
use baiak_fonticak.Player.Magic.{add_mana_spent, spend_loop, finish_spending}
use baiak_fonticak.Player.Magic.Losing.{total_mana, remove_mana_spent-takes}
use baiak_fonticak.Player.Skills.{finish_advance, advance_loop, Skill, add_skill_advance}
use baiak_fonticak.Player.Skills.{remove_skill_tries}
use baiak_fonticak.Player.Skills.Gaining.{IsIncreasing, total, spent}
use baiak_fonticak.Player.Skills.Gaining.{add_skill_advance-conserves}
use baiak_fonticak.Player.Skills.Losing.{remove_skill_tries-takes}
use baiak_fonticak.Player.Experience.{Gains, Player, add_experience, remove_experience}
use baiak_fonticak.Player.Experience.{get_exp_for_level}
use baiak_fonticak.Player.Experience.Table.{level_cap}
use baiak_fonticak.Player.Experience.Losing.{remove_experience-IsLevelled}
use baiak_fonticak.Player.Experience.Losing.{remove_experience-add_experience}

-- A vocation whose levels ask for 5 tries more each time.
abbrev asks : ℕ → ℕ
asks l = 5 * l

asks-IsIncreasing : IsIncreasing asks
unfolding IsIncreasing
asks-IsIncreasing l = omega arith

abbrev sword : Skill
sword = record { level = 12; tries = 30; percent = 46 }

add_skill_advance-conserves_example :
    (t : Skill) × (add_skill_advance asks (λ n. 2 * n) 400 90 sword ≡ some t)
    × (total asks t ≡ total asks sword + 180)
    × (t.tries < asks (suc t.level))
add_skill_advance-conserves_example =
    add_skill_advance-conserves asks (λ n. 2 * n) 100 400 90 sword asks-IsIncreasing (omega arith)
      (omega arith) (omega arith) (omega arith) (omega arith) (omega arith)

remove_skill_tries-takes_example :
    (t : Skill) × (remove_skill_tries asks 13 100 sword ≡ some t)
    × (total asks t + 100 ≡ total asks sword)
    × (t.level ≤ 12)
unfolding spent
remove_skill_tries-takes_example =
    remove_skill_tries-takes asks 13 100 sword asks-IsIncreasing (omega arith) (omega arith)
      (omega arith) (omega arith) (omega arith)

abbrev knight : Gains
knight = record { hp = 15; mana = 5; cap = 25; base_speed = 220 }

abbrev hunter : Player
hunter = record {
  level = 8;
  experience = 4200;
  level_percent = 0;
  health = 185;
  health_max = 185;
  mana = 35;
  mana_max = 35;
  capacity = 47000;
  base_speed = 234;
  var_health = 0;
  var_mana = 0;
  has_max_speed = false;
}

hunter-IsLevelled : IsLevelled hunter
unfolding get_exp_for_level
hunter-IsLevelled = record {
  positive = omega arith;
  capped = omega arith;
  reached = omega arith;
  missing = omega arith;
}

below_cap : 4200 + 100000 < get_exp_for_level level_cap
unfolding get_exp_for_level
below_cap = omega arith

add_experience-IsLevelled_example :
    (q : Player) × (add_experience knight (λ n. 2 * n) level_cap 50000 hunter ≡ some q)
    × IsLevelled q
    × (q.experience ≡ 104200)
    × (8 ≤ q.level)
    × IsHealthy 8 q
add_experience-IsLevelled_example =
    add_experience-IsLevelled knight (λ n. 2 * n) level_cap 50000 hunter hunter-IsLevelled below_cap
      (omega arith)

remove_experience-IsLevelled_example :
    (q : Player) × (remove_experience knight (λ n. n) 8 3000 hunter ≡ some q)
    × IsLevelled q
    × (q.experience ≡ 1200)
    × (q.level ≤ 8)
    × IsHealthy 8 q
remove_experience-IsLevelled_example =
    remove_experience-IsLevelled knight (λ n. n) 8 3000 hunter hunter-IsLevelled (omega arith)
      (omega arith) (omega arith) (omega arith)

remove_experience-add_experience_example :
    (q : Player) × (r : Player) × (add_experience knight (λ n. n) level_cap 100000 hunter ≡ some q)
    × (remove_experience knight (λ n. n) level_cap 100000 q ≡ some r)
    × (r.experience ≡ 4200)
    × (r.level ≡ 8)
remove_experience-add_experience_example =
    remove_experience-add_experience knight 100000 hunter hunter-IsLevelled (omega arith)
      (omega arith) below_cap

-- 200 tries carry the sword from 30 tries of level 12 to 20 tries of level 15.
advance_to_17 :
    option_map {B = ℕ × ℕ}
      (λ (t : Skill). (t.level, t.tries))
      (add_skill_advance asks (λ n. n) 400 200 sword)
    ≡ some (15, 20)
unfolding add_skill_advance advance_loop finish_advance
advance_to_17 = refl

abbrev mage : Magic
mage = record { mag_level = 2; mana_spent = 7; percent = 46 }

-- The mage has spent 22 in all and loses 30: 2^64 - 8 is left.
remove_mana_spent-takes_example :
    (t : Magic) × (remove_mana_spent asks 3 30 mage ≡ some t)
    × (((30 ≤ total_mana asks mage) × (total_mana asks t + 30 ≡ total_mana asks mage))
        ⊎ ((total_mana asks mage < 30)
            × (t.mag_level ≡ 0)
            × (t.mana_spent + 30 ≡ 2 ^ 64 + total_mana asks mage)))
unfolding spent
remove_mana_spent-takes_example =
    remove_mana_spent-takes asks 3 30 mage (omega arith) (omega arith) (omega arith) (omega arith)

-- An apprentice who loses more mana than was ever spent has a huge amount of spent mana.
apprentice_wraps :
    option_map
      (λ (t : Magic). t.mana_spent)
      (remove_mana_spent asks 1 8 (record { mag_level = 0; mana_spent = 7; percent = 0 }))
    ≡ some (2 ^ 64 - 1)
unfolding remove_mana_spent unspend_loop finish_unspending
apprentice_wraps = refl

-- 20 mana carry the mage from level 2 with 7 to level 3 with 12.
mage_learns :
    option_map (λ (t : Magic). t.mana_spent) (add_mana_spent asks (λ n. n) false 40 20 mage)
    ≡ some 12
unfolding add_mana_spent spend_loop finish_spending
mage_learns = refl
