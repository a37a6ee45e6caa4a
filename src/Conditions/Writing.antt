-- ===== src/Conditions/Writing.antt =====
-- Conditions as bytes (src/condition.cpp), and how the conditions of a player are saved
-- (src/iologindata.cpp).
use baiak_fonticak.Conditions.{IntervalInfo, Attributes, Regeneration, Soul, Damage, Speed}
use baiak_fonticak.Conditions.{Light, Kind, generic, invisible, spell_cooldown}
use baiak_fonticak.Conditions.{spell_group_cooldown, attributes, regeneration, soul, damage}
use baiak_fonticak.Conditions.{speed, outfit, light, drunk, Condition, is_persistent}
use baiak_fonticak.Conditions.Codes.{type_attr, id_attr, ticks_attr, health_ticks_attr}
use baiak_fonticak.Conditions.Codes.{health_gain_attr, mana_ticks_attr, mana_gain_attr}
use baiak_fonticak.Conditions.Codes.{delayed_attr, interval_data_attr, speed_delta_attr}
use baiak_fonticak.Conditions.Codes.{formula_mina_attr, formula_minb_attr, formula_maxa_attr}
use baiak_fonticak.Conditions.Codes.{formula_maxb_attr, light_color_attr, light_level_attr}
use baiak_fonticak.Conditions.Codes.{light_ticks_attr, light_interval_attr, soul_ticks_attr}
use baiak_fonticak.Conditions.Codes.{soul_gain_attr, skills_attr, stats_attr, outfit_attr}
use baiak_fonticak.Conditions.Codes.{period_damage_attr, is_buff_attr, sub_id_attr}
use baiak_fonticak.Conditions.Codes.{is_aggressive_attr, disable_defense_attr}
use baiak_fonticak.Conditions.Codes.{special_skills_attr, end_attr}
use baiak_fonticak.Base.{ℕ, ◌+◌, ◌-◌, ◌*◌, ◌/◌, ◌%◌, ◌^◌, Bool, List, [], ◌∷◌, ◌++◌, ltb}
use baiak_fonticak.Base.{if◌then◌else◌}
use baiak_fonticak.Network.PropStream.{write}

unfoldable pub of_bool : Bool → ℕ
of_bool b = if b then 1 else 0

-- A ConditionId_t, an int8_t, as uint32_t.
unfoldable pub wide_id : ℕ → ℕ
wide_id id = if ltb id 128 then id else id + (2 ^ 32 - 2 ^ 8)

-- The twelve bytes of an IntervalInfo, as one number.
unfoldable pub of_interval : IntervalInfo → ℕ
of_interval i = i.time_left + 2 ^ 32 * i.value + 2 ^ 64 * i.interval

unfoldable pub to_interval : ℕ → IntervalInfo
to_interval v = record {
  time_left = v % 2 ^ 32;
  value = v / 2 ^ 32 % 2 ^ 32;
  interval = v / 2 ^ 64;
}

-- An attribute with its value: the number of the attribute, and the value with its size in bytes.
pub record Written : Type 0 where
  pub attr : ℕ
  pub size : ℕ
  pub value : ℕ

abbrev pub written : ℕ → ℕ → ℕ → Written
written attr size value = record { attr = attr; size = size; value = value }

-- What Condition::serialize writes.
unfoldable pub base_fields : Condition → List Written
base_fields c =
    written type_attr 4 c.type
    ∷ written id_attr 4 (wide_id c.id)
    ∷ written ticks_attr 4 c.ticks
    ∷ written is_buff_attr 1 (of_bool c.is_buff)
    ∷ written sub_id_attr 4 c.sub_id
    ∷ written is_aggressive_attr 1 (of_bool c.aggressive)
    ∷ []

unfoldable pub each : ℕ → List ℕ → List Written
each attr [] = []
each attr (v ∷ vs) = written attr 4 v ∷ each attr vs

unfoldable pub intervals : List IntervalInfo → List Written
intervals [] = []
intervals (i ∷ list) = written interval_data_attr 12 (of_interval i) ∷ intervals list

-- What serialize of the classes writes after it.
abbrev pub attributes_fields : Attributes → List Written
attributes_fields a =
    each skills_attr a.skills
    ++ (each stats_attr a.stats
        ++ (written disable_defense_attr 1 (of_bool a.disable_defense)
            ∷ each special_skills_attr a.special_skills))

abbrev pub regeneration_fields : Regeneration → List Written
regeneration_fields r =
    written health_ticks_attr 4 r.health_ticks
    ∷ written health_gain_attr 4 r.health_gain
    ∷ written mana_ticks_attr 4 r.mana_ticks
    ∷ written mana_gain_attr 4 r.mana_gain
    ∷ []

abbrev pub soul_fields : Soul → List Written
soul_fields s = written soul_gain_attr 4 s.soul_gain ∷ written soul_ticks_attr 4 s.soul_ticks ∷ []

abbrev pub damage_fields : Damage → List Written
damage_fields d =
    written delayed_attr 1 (of_bool d.delayed)
    ∷ written period_damage_attr 4 d.period_damage
    ∷ intervals d.damage_list

abbrev pub speed_fields : Speed → List Written
speed_fields s =
    written speed_delta_attr 4 s.speed_delta
    ∷ written formula_mina_attr 4 s.mina
    ∷ written formula_minb_attr 4 s.minb
    ∷ written formula_maxa_attr 4 s.maxa
    ∷ written formula_maxb_attr 4 s.maxb
    ∷ []

abbrev pub light_fields : Light → List Written
light_fields l =
    written light_color_attr 4 l.color
    ∷ written light_level_attr 4 l.level
    ∷ written light_ticks_attr 4 l.internal_light_ticks
    ∷ written light_interval_attr 4 l.light_change_interval
    ∷ []

unfoldable pub kind_fields : Kind → List Written
kind_fields generic = []
kind_fields invisible = []
kind_fields spell_cooldown = []
kind_fields spell_group_cooldown = []
kind_fields (attributes a) = attributes_fields a
kind_fields (regeneration r) = regeneration_fields r
kind_fields (soul s) = soul_fields s
kind_fields (damage d) = damage_fields d
kind_fields (speed s) = speed_fields s
kind_fields (outfit o) = written outfit_attr 12 o ∷ []
kind_fields (light l) = light_fields l
kind_fields (drunk n) = []

unfoldable pub write_fields : List Written → List ℕ → List ℕ
write_fields [] buffer = buffer
write_fields (f ∷ fs) buffer = write_fields fs (write f.size f.value (write 1 f.attr buffer))

-- serialize
unfoldable pub serialize : Condition → List ℕ → List ℕ
serialize c buffer = write_fields (kind_fields c.kind) (write_fields (base_fields c) buffer)

-- The conditions that IOLoginData::savePlayer writes.
unfoldable pub save_conditions : List Condition → List ℕ → List ℕ
save_conditions [] buffer = buffer
save_conditions (c ∷ conditions) buffer =
    save_conditions conditions
      (if is_persistent c then write 1 end_attr (serialize c buffer) else buffer)
