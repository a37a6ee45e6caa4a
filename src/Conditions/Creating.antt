-- ===== src/Conditions/Creating.antt =====
-- New conditions, createCondition of src/condition.cpp.
use baiak_fonticak.Conditions.{Attributes, Regeneration, Damage, Kind, generic, invisible}
use baiak_fonticak.Conditions.{spell_cooldown, spell_group_cooldown, attributes}
use baiak_fonticak.Conditions.{regeneration, soul, damage, speed, outfit, light, drunk}
use baiak_fonticak.Conditions.{Condition, minus_one}
use baiak_fonticak.Conditions.Codes.{poison_type, fire_type, energy_type, bleeding_type}
use baiak_fonticak.Conditions.Codes.{haste_type, paralyze_type, outfit_type, invisible_type}
use baiak_fonticak.Conditions.Codes.{light_type, manashield_type, infight_type, drunk_type}
use baiak_fonticak.Conditions.Codes.{exhaust_weapon_type, regeneration_type, soul_type}
use baiak_fonticak.Conditions.Codes.{drown_type, muted_type, channelmutedticks_type}
use baiak_fonticak.Conditions.Codes.{yellticks_type, attributes_type, freezing_type}
use baiak_fonticak.Conditions.Codes.{dazzled_type, cursed_type, rooted_type}
use baiak_fonticak.Conditions.Codes.{exhaust_combat_type, exhaust_heal_type, pacified_type}
use baiak_fonticak.Conditions.Codes.{spellcooldown_type, spellgroupcooldown_type}
use baiak_fonticak.Base.Words.{u8}
use baiak_fonticak.Base.{ℕ, zero, suc, ◌-◌, ◌/◌, ◌^◌, Bool, false, Option, none, some}
use baiak_fonticak.Base.{option_map, List, [], ◌∷◌, contains, ◌==◌, if◌then◌else◌}

abbrev damage_types : List ℕ
damage_types =
    poison_type ∷ fire_type ∷ energy_type ∷ drown_type ∷ freezing_type ∷ dazzled_type ∷ cursed_type
    ∷ bleeding_type ∷ []

abbrev generic_types : List ℕ
generic_types =
    rooted_type ∷ infight_type ∷ exhaust_weapon_type ∷ exhaust_combat_type ∷ exhaust_heal_type
    ∷ muted_type ∷ channelmutedticks_type ∷ yellticks_type ∷ pacified_type ∷ manashield_type ∷ []

unfoldable pub new_damage : Damage
new_damage = record {
  max_damage = 0;
  min_damage = 0;
  start_damage = 0;
  period_damage = 0;
  period_damage_tick = 0;
  tick_interval = 2000;
  init_damage = 0;
  force_update = false;
  delayed = false;
  field = false;
  owner = 0;
  damage_list = [];
}

unfoldable pub new_regeneration : Regeneration
new_regeneration = record {
  internal_health_ticks = 0;
  internal_mana_ticks = 0;
  health_ticks = 1000;
  mana_ticks = 1000;
  health_gain = 0;
  mana_gain = 0;
}

abbrev pub zeros : ℕ → List ℕ
zeros zero = []
zeros (suc n) = 0 ∷ zeros n

unfoldable pub new_attributes : Attributes
new_attributes = record {
  skills = zeros 7;
  skills_percent = zeros 7;
  special_skills = zeros 6;
  stats = zeros 4;
  stats_percent = zeros 4;
  current_skill = 0;
  current_special_skill = 0;
  current_stat = 0;
  disable_defense = false;
}

-- The constructors that createCondition calls with its param, by the type.
unfoldable pub create_kind : ℕ → ℕ → Option Kind
create_kind type param =
    if contains type damage_types
    then some (damage new_damage)
    else if contains type (haste_type ∷ paralyze_type ∷ [])
    then some (speed (record { speed_delta = param; mina = 0; minb = 0; maxa = 0; maxb = 0 }))
    else if type == invisible_type
    then some invisible
    else if type == outfit_type
    then some (outfit 0)
    else if type == light_type
    then some (
        light (record {
          level = u8 param;
          color = u8 (param / 256);
          internal_light_ticks = 0;
          light_change_interval = 0;
        }))
    else if type == regeneration_type
    then some (regeneration new_regeneration)
    else if type == soul_type
    then some (soul (record { internal_soul_ticks = 0; soul_ticks = 0; soul_gain = 0 }))
    else if type == attributes_type
    then some (attributes new_attributes)
    else if type == drunk_type
    then some (drunk (if u8 param == 0 then 25 else u8 param))
    else if type == spellcooldown_type
    then some spell_cooldown
    else if type == spellgroupcooldown_type
    then some spell_group_cooldown
    else if contains type generic_types
    then some generic
    else none

-- The constructor of ConditionDamage takes no ticks.
unfoldable pub ticks_of : Kind → ℕ → ℕ
ticks_of (damage d) ticks = 0
ticks_of generic ticks = ticks
ticks_of invisible ticks = ticks
ticks_of spell_cooldown ticks = ticks
ticks_of spell_group_cooldown ticks = ticks
ticks_of (attributes a) ticks = ticks
ticks_of (regeneration r) ticks = ticks
ticks_of (soul s) ticks = ticks
ticks_of (speed s) ticks = ticks
ticks_of (outfit o) ticks = ticks
ticks_of (light l) ticks = ticks
ticks_of (drunk n) ticks = ticks

-- createCondition does not hand `aggressive` to the two classes of cooldowns.
unfoldable pub aggressive_of : Kind → Bool → Bool
aggressive_of spell_cooldown b = false
aggressive_of spell_group_cooldown b = false
aggressive_of generic b = b
aggressive_of invisible b = b
aggressive_of (damage d) b = b
aggressive_of (attributes a) b = b
aggressive_of (regeneration r) b = b
aggressive_of (soul s) b = b
aggressive_of (speed s) b = b
aggressive_of (outfit o) b = b
aggressive_of (light l) b = b
aggressive_of (drunk n) b = b

-- The constructor of Condition.
unfoldable pub new_condition : ℕ → ℕ → ℕ → Bool → ℕ → Bool → Kind → Condition
new_condition id type ticks buff sub_id aggressive kind = record {
  id = id;
  type = type;
  ticks = ticks_of kind ticks;
  end_time = if ticks_of kind ticks == minus_one then 2 ^ 63 - 1 else 0;
  is_buff = buff;
  sub_id = sub_id;
  aggressive = aggressive_of kind aggressive;
  kind = kind;
}

-- createCondition: none where it returns nullptr.
unfoldable pub create_condition : ℕ → ℕ → ℕ → ℕ → Bool → ℕ → Bool → Option Condition
create_condition id type ticks param buff sub_id aggressive =
    option_map (new_condition id type ticks buff sub_id aggressive) (create_kind type param)
