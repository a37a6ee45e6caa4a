-- ===== src/Player/Skills.antt =====
-- The tries and levels of a skill: Player::addSkillAdvance, Player::removeSkillTries and
-- Player::getPercentLevel of src/player.cpp. The tries that a level asks for come from std::pow
-- by Vocation::getReqSkillTries and are the parameter `req`; the script event that may change
-- the gained tries is the parameter `on_gain`.
pub mod Gaining
pub mod Losing
use baiak_fonticak.Base.Words.{u64, sub_u64, u8, u16, max_int32, add_u64}
use baiak_fonticak.Base.{ℕ, zero, suc, ◌+◌, ◌-◌, ◌*◌, ◌/◌, true, false, Option, none, some}
use baiak_fonticak.Base.{option_map, ltb, leb, ◌==◌, if◌then◌else◌}

-- Skill of src/enums.h: uint16_t level, uint64_t tries, uint8_t percent.
pub record Skill : Type 0 where
  pub level : ℕ
  pub tries : ℕ
  pub percent : ℕ

unfoldable pub get_percent_level : ℕ → ℕ → ℕ
get_percent_level count next_level_count =
    if next_level_count == 0
    then 0
    else if ltb 100 (u8 (u64 (count * 100) / next_level_count))
    then 0
    else u8 (u64 (count * 100) / next_level_count)

-- What the loop of addSkillAdvance leaves: the skill, count, currReqTries and nextReqTries.
pub record Advance : Type 0 where
  skill : Skill
  rest : ℕ
  curr : ℕ
  next : ℕ

-- The while loop of addSkillAdvance, on fuel.
unfoldable pub advance_loop : (ℕ → ℕ) → ℕ → ℕ → ℕ → ℕ → Skill → Option Advance
advance_loop req zero count curr next s = none
advance_loop req (suc fuel) count curr next s = elim (leb next (add_u64 s.tries count)) [
  | false ↦ some (record { skill = s; rest = count; curr = curr; next = next })
  | true ↦
      let s1 : Skill = record { level = u16 (s.level + 1); tries = 0; percent = 0 } in
      let next1 = req (u16 (u16 (s.level + 1) + 1)) in
      elim (leb next1 next) [
        | true ↦ some (record { skill = s1; rest = 0; curr = next; next = next1 })
        | false ↦ advance_loop req fuel (sub_u64 count (sub_u64 next s.tries)) next next1 s1
      ]
]

-- The part of addSkillAdvance after the loop.
unfoldable pub finish_advance : Advance → Skill
finish_advance a =
    let tries1 = add_u64 a.skill.tries a.rest in
    record {
      level = a.skill.level;
      tries = tries1;
      percent = if ltb a.curr a.next then get_percent_level tries1 a.next else 0;
    }

unfoldable pub add_skill_advance : (ℕ → ℕ) → (ℕ → ℕ) → ℕ → ℕ → Skill → Option Skill
add_skill_advance req on_gain fuel count s =
    let curr = req s.level in
    let next = req (u16 (s.level + 1)) in
    if leb next curr
    then some s
    else if on_gain count == 0
    then some s
    else option_map finish_advance (advance_loop req fuel (on_gain count) curr next s)

abbrev pub minimum_skill_level : ℕ
minimum_skill_level = 10

-- The while loop of removeSkillTries, on fuel: the skill and count it leaves.
unfoldable pub remove_loop : (ℕ → ℕ) → ℕ → ℕ → Skill → Option (Skill × ℕ)
remove_loop req zero count s = none
remove_loop req (suc fuel) count s = elim (ltb s.tries count) [
  | false ↦ some (s, count)
  | true ↦ elim (leb s.level minimum_skill_level) [
    | true ↦ some (record s { level = minimum_skill_level; tries = 0 }, 0)
    | false ↦
        remove_loop req fuel (count - s.tries)
          (record s { level = s.level - 1; tries = req s.level })
  ]
]

-- The part of removeSkillTries after the loop.
unfoldable pub finish_remove : (ℕ → ℕ) → Skill × ℕ → Skill
finish_remove req (s, count) =
    let tries1 = max_int32 (sub_u64 s.tries count) in
    record s { tries = tries1; percent = get_percent_level tries1 (req s.level) }

unfoldable pub remove_skill_tries : (ℕ → ℕ) → ℕ → ℕ → Skill → Option Skill
remove_skill_tries req fuel count s = option_map (finish_remove req) (remove_loop req fuel count s)
