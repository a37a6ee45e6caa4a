-- ===== src/Conditions/Codes.antt =====
-- The numbers of the attributes of conditions and of the types of conditions (src/condition.h,
-- src/enums.h).
use baiak_fonticak.Base.{ℕ}

abbrev pub type_attr : ℕ
type_attr = 1

abbrev pub id_attr : ℕ
id_attr = 2

abbrev pub ticks_attr : ℕ
ticks_attr = 3

abbrev pub health_ticks_attr : ℕ
health_ticks_attr = 4

abbrev pub health_gain_attr : ℕ
health_gain_attr = 5

abbrev pub mana_ticks_attr : ℕ
mana_ticks_attr = 6

abbrev pub mana_gain_attr : ℕ
mana_gain_attr = 7

abbrev pub delayed_attr : ℕ
delayed_attr = 8

abbrev pub owner_attr : ℕ
owner_attr = 9

abbrev pub interval_data_attr : ℕ
interval_data_attr = 10

abbrev pub speed_delta_attr : ℕ
speed_delta_attr = 11

abbrev pub formula_mina_attr : ℕ
formula_mina_attr = 12

abbrev pub formula_minb_attr : ℕ
formula_minb_attr = 13

abbrev pub formula_maxa_attr : ℕ
formula_maxa_attr = 14

abbrev pub formula_maxb_attr : ℕ
formula_maxb_attr = 15

abbrev pub light_color_attr : ℕ
light_color_attr = 16

abbrev pub light_level_attr : ℕ
light_level_attr = 17

abbrev pub light_ticks_attr : ℕ
light_ticks_attr = 18

abbrev pub light_interval_attr : ℕ
light_interval_attr = 19

abbrev pub soul_ticks_attr : ℕ
soul_ticks_attr = 20

abbrev pub soul_gain_attr : ℕ
soul_gain_attr = 21

abbrev pub skills_attr : ℕ
skills_attr = 22

abbrev pub stats_attr : ℕ
stats_attr = 23

abbrev pub outfit_attr : ℕ
outfit_attr = 24

abbrev pub period_damage_attr : ℕ
period_damage_attr = 25

abbrev pub is_buff_attr : ℕ
is_buff_attr = 26

abbrev pub sub_id_attr : ℕ
sub_id_attr = 27

abbrev pub is_aggressive_attr : ℕ
is_aggressive_attr = 28

abbrev pub disable_defense_attr : ℕ
disable_defense_attr = 29

abbrev pub special_skills_attr : ℕ
special_skills_attr = 30

abbrev pub end_attr : ℕ
end_attr = 254

abbrev pub poison_type : ℕ
poison_type = 0x1

abbrev pub fire_type : ℕ
fire_type = 0x2

abbrev pub energy_type : ℕ
energy_type = 0x4

abbrev pub bleeding_type : ℕ
bleeding_type = 0x8

abbrev pub haste_type : ℕ
haste_type = 0x10

abbrev pub paralyze_type : ℕ
paralyze_type = 0x20

abbrev pub outfit_type : ℕ
outfit_type = 0x40

abbrev pub invisible_type : ℕ
invisible_type = 0x80

abbrev pub light_type : ℕ
light_type = 0x100

abbrev pub manashield_type : ℕ
manashield_type = 0x200

abbrev pub infight_type : ℕ
infight_type = 0x400

abbrev pub drunk_type : ℕ
drunk_type = 0x800

abbrev pub exhaust_weapon_type : ℕ
exhaust_weapon_type = 0x1000

abbrev pub regeneration_type : ℕ
regeneration_type = 0x2000

abbrev pub soul_type : ℕ
soul_type = 0x4000

abbrev pub drown_type : ℕ
drown_type = 0x8000

abbrev pub muted_type : ℕ
muted_type = 0x10000

abbrev pub channelmutedticks_type : ℕ
channelmutedticks_type = 0x20000

abbrev pub yellticks_type : ℕ
yellticks_type = 0x40000

abbrev pub attributes_type : ℕ
attributes_type = 0x80000

abbrev pub freezing_type : ℕ
freezing_type = 0x100000

abbrev pub dazzled_type : ℕ
dazzled_type = 0x200000

abbrev pub cursed_type : ℕ
cursed_type = 0x400000

abbrev pub rooted_type : ℕ
rooted_type = 0x800000

abbrev pub exhaust_combat_type : ℕ
exhaust_combat_type = 0x1000000

abbrev pub exhaust_heal_type : ℕ
exhaust_heal_type = 0x2000000

abbrev pub pacified_type : ℕ
pacified_type = 0x4000000

abbrev pub spellcooldown_type : ℕ
spellcooldown_type = 0x8000000

abbrev pub spellgroupcooldown_type : ℕ
spellgroupcooldown_type = 0x10000000
