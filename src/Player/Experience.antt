-- ===== src/Player/Experience.antt =====
-- Experience and levels: Player::getExpForLevel of src/player.h, Player::addExperience and
-- Player::removeExperience of src/player.cpp. Signed fields are kept as the bits of their words.
-- The script events that may change the amounts are parameters; the messages, the speed sent to
-- clients and the update of the party are other components' work.
pub mod Table
pub mod Levels
pub mod Losing
use baiak_fonticak.Base.Words.{u64, u32, sub_u64, sub_u32, max_int64, max_int32, add_u64}
use baiak_fonticak.Base.Words.{add_u32}
use baiak_fonticak.Player.Skills.{get_percent_level}
use baiak_fonticak.Base.{ℕ, zero, suc, ◌*◌, ◌/◌, Bool, true, false, ◌&&◌, ◌||◌, Option, none}
use baiak_fonticak.Base.{some, option_map, ltb, leb, ◌==◌, ◌!=◌, if◌then◌else◌}

unfoldable pub get_exp_for_level : ℕ → ℕ
get_exp_for_level lv =
    let inner = add_u64 (u64 (sub_u64 lv 6 * lv)) 17 in
    u64 (sub_u64 (u64 (inner * lv)) 12 / 6 * 100)

-- The gains of a vocation for each level.
pub record Gains : Type 0 where
  pub hp : ℕ
  pub mana : ℕ
  pub cap : ℕ
  pub base_speed : ℕ

-- The fields of Player that a level changes; var_health and var_mana are entries of varStats.
pub record Player : Type 0 where
  pub level : ℕ
  pub experience : ℕ
  pub level_percent : ℕ
  pub health : ℕ
  pub health_max : ℕ
  pub mana : ℕ
  pub mana_max : ℕ
  pub capacity : ℕ
  pub base_speed : ℕ
  pub var_health : ℕ
  pub var_mana : ℕ
  pub has_max_speed : Bool

-- std::max<int32_t>(1, healthMax + varStats): at least 1, where the mana may be 0.
unfoldable pub get_max_health : Player → ℕ
get_max_health p =
    let total = max_int32 (add_u32 p.health_max p.var_health) in if total == 0 then 1 else total

unfoldable pub get_max_mana : Player → ℕ
get_max_mana p = max_int32 (add_u32 p.mana_max p.var_mana)

unfoldable pub update_base_speed : Gains → Player → Player
update_base_speed g p = record p {
  base_speed = if p.has_max_speed then 1500 else add_u32 g.base_speed (u32 (2 * sub_u32 p.level 1));
}

-- The health, mana and speed of a player whose level changed.
unfoldable pub on_level_changed : Gains → Player → Player
on_level_changed g p =
    update_base_speed g (record p { health = get_max_health p; mana = get_max_mana p })

unfoldable pub gain_level : Gains → Player → Player
gain_level g p = record p {
  level = add_u32 p.level 1;
  health_max = add_u32 p.health_max g.hp;
  health = add_u32 p.health g.hp;
  mana_max = add_u32 p.mana_max g.mana;
  mana = add_u32 p.mana g.mana;
  capacity = add_u32 p.capacity g.cap;
}

-- The loop of addExperience, on fuel: the player, currLevelExp and nextLevelExp it leaves.
unfoldable pub gain_levels : Gains → ℕ → ℕ → ℕ → Player → Option (Player × ℕ × ℕ)
gain_levels g zero curr next p = none
gain_levels g (suc fuel) curr next p = elim (leb next p.experience) [
  | false ↦ some (p, curr, next)
  | true ↦
      let next1 = get_exp_for_level (add_u32 (add_u32 p.level 1) 1) in
      elim (leb next1 next) [
        | true ↦ some (gain_level g p, next, next1)
        | false ↦ gain_levels g fuel next next1 (gain_level g p)
      ]
]

unfoldable pub set_level_percent : ℕ → ℕ → Player → Player
set_level_percent curr next p = record p {
  level_percent =
      if ltb curr next
      then get_percent_level (sub_u64 p.experience curr) (sub_u64 next curr)
      else 0;
}

-- The part of addExperience after the loop, for a player that had the level `prev`.
unfoldable pub finish_gain : Gains → ℕ → Player × ℕ × ℕ → Player
finish_gain g prev (p, curr, next) =
    set_level_percent curr next (if prev != p.level then on_level_changed g p else p)

unfoldable pub add_experience : Gains → (ℕ → ℕ) → ℕ → ℕ → Player → Option Player
add_experience g on_gain fuel exp p =
    let curr = get_exp_for_level p.level in
    let next = get_exp_for_level (add_u32 p.level 1) in
    if leb next curr
    then some (record p { level_percent = 0 })
    else if on_gain exp == 0
    then some p
    else option_map (finish_gain g p.level) (
        gain_levels g fuel curr next (record p { experience = add_u64 p.experience (on_gain exp) }))

unfoldable pub lose_level : Gains → Player → Player
lose_level g p = record p {
  level = sub_u32 p.level 1;
  health_max = max_int32 (sub_u32 p.health_max g.hp);
  mana_max = max_int32 (sub_u32 p.mana_max g.mana);
  capacity = max_int32 (sub_u32 p.capacity g.cap);
}

-- The loop of removeExperience, on fuel: the player and currLevelExp it leaves.
unfoldable pub lose_levels : Gains → ℕ → ℕ → Player → Option (Player × ℕ)
lose_levels g zero curr p = none
lose_levels g (suc fuel) curr p = elim (ltb 1 p.level && ltb p.experience curr) [
  | false ↦ some (p, curr)
  | true ↦ lose_levels g fuel (get_exp_for_level (sub_u32 p.level 1)) (lose_level g p)
]

unfoldable pub finish_loss : Gains → ℕ → Player × ℕ → Player
finish_loss g old (p, curr) =
    let q = if old != p.level then on_level_changed g p else p in
    set_level_percent curr (get_exp_for_level (add_u32 p.level 1)) q

unfoldable pub remove_experience : Gains → (ℕ → ℕ) → ℕ → ℕ → Player → Option Player
remove_experience g on_lose fuel exp p =
    if p.experience == 0 || exp == 0
    then some p
    else if on_lose exp == 0
    then some p
    else option_map (finish_loss g p.level) (
        lose_levels g fuel (get_exp_for_level p.level)
          (record p { experience = max_int64 (sub_u64 p.experience (on_lose exp)) }))
