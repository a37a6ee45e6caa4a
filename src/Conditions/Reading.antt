-- ===== src/Conditions/Reading.antt =====
-- Conditions from bytes (src/condition.cpp), and how the conditions of a player are loaded
-- (src/iologindata.cpp). What fails leaves the reader where it stopped.
use baiak_fonticak.Conditions.Writing.{to_interval}
use baiak_fonticak.Conditions.{Attributes, Regeneration, Soul, IntervalInfo, Damage, Speed}
use baiak_fonticak.Conditions.{Light, Kind, generic, invisible, spell_cooldown}
use baiak_fonticak.Conditions.{spell_group_cooldown, attributes, regeneration, soul, damage}
use baiak_fonticak.Conditions.{speed, outfit, light, drunk, Condition, minus_one, set_ticks}
use baiak_fonticak.Conditions.Codes.{type_attr, id_attr, ticks_attr, health_ticks_attr}
use baiak_fonticak.Conditions.Codes.{health_gain_attr, mana_ticks_attr, mana_gain_attr}
use baiak_fonticak.Conditions.Codes.{delayed_attr, owner_attr, interval_data_attr}
use baiak_fonticak.Conditions.Codes.{speed_delta_attr, formula_mina_attr, formula_minb_attr}
use baiak_fonticak.Conditions.Codes.{formula_maxa_attr, formula_maxb_attr, light_color_attr}
use baiak_fonticak.Conditions.Codes.{light_level_attr, light_ticks_attr, light_interval_attr}
use baiak_fonticak.Conditions.Codes.{soul_ticks_attr, soul_gain_attr, skills_attr}
use baiak_fonticak.Conditions.Codes.{stats_attr, outfit_attr, period_damage_attr}
use baiak_fonticak.Conditions.Codes.{is_buff_attr, sub_id_attr, is_aggressive_attr}
use baiak_fonticak.Conditions.Codes.{disable_defense_attr, special_skills_attr, end_attr}
use baiak_fonticak.Base.Words.{add_u32, u8}
use baiak_fonticak.Base.{ℕ, ◌+◌, ◌%◌, ◌^◌, Option, none, some, [], ◌∷◌, ◌++◌, set, ◌==◌}
use baiak_fonticak.Base.{◌!=◌, if◌then◌else◌}

-- What an attribute stands for in a condition: the size of its value, and what the value does.
pub record Field : Type 0 where
  pub size : ℕ
  pub put : ℕ → Condition

abbrev pub field_of : ℕ → (ℕ → Condition) → Option Field
field_of size put = some (record { size = size; put = put })

-- Condition::unserializeProp; none where it returns false with nothing read.
unfoldable pub base_field : ℕ → Condition → Option Field
base_field attr c =
    if attr == type_attr
    then field_of 4 (λ v. record c { type = v })
    else if attr == id_attr
    then field_of 4 (λ v. record c { id = v % 2 ^ 8 })
    else if attr == ticks_attr
    then field_of 4 (λ v. record c { ticks = v })
    else if attr == is_buff_attr
    then field_of 1 (λ v. record c { is_buff = v != 0 })
    else if attr == sub_id_attr
    then field_of 4 (λ v. record c { sub_id = v })
    else if attr == is_aggressive_attr
    then field_of 1 (λ v. record c { aggressive = v != 0 })
    else if attr == end_attr
    then field_of 0 (λ v. c)
    else none

unfoldable pub attributes_field : ℕ → Attributes → Condition → Option Field
attributes_field attr a c =
    if attr == skills_attr
    then field_of 4 (λ v. record c {
      kind = attributes (record a {
        skills = set a.skills a.current_skill v;
        current_skill = a.current_skill + 1;
      });
    })
    else if attr == special_skills_attr
    then field_of 4 (λ v. record c {
      kind = attributes (record a {
        special_skills = set a.special_skills a.current_special_skill v;
        current_special_skill = a.current_special_skill + 1;
      });
    })
    else if attr == stats_attr
    then field_of 4 (λ v. record c {
      kind =
          attributes
            (record a { stats = set a.stats a.current_stat v; current_stat = a.current_stat + 1 });
    })
    else if attr == disable_defense_attr
    then field_of 1 (λ v. record c { kind = attributes (record a { disable_defense = v != 0 }) })
    else base_field attr c

unfoldable pub regeneration_field : ℕ → Regeneration → Condition → Option Field
regeneration_field attr r c =
    if attr == health_ticks_attr
    then field_of 4 (λ v. record c { kind = regeneration (record r { health_ticks = v }) })
    else if attr == health_gain_attr
    then field_of 4 (λ v. record c { kind = regeneration (record r { health_gain = v }) })
    else if attr == mana_ticks_attr
    then field_of 4 (λ v. record c { kind = regeneration (record r { mana_ticks = v }) })
    else if attr == mana_gain_attr
    then field_of 4 (λ v. record c { kind = regeneration (record r { mana_gain = v }) })
    else base_field attr c

unfoldable pub soul_field : ℕ → Soul → Condition → Option Field
soul_field attr s c =
    if attr == soul_gain_attr
    then field_of 4 (λ v. record c { kind = soul (record s { soul_gain = v }) })
    else if attr == soul_ticks_attr
    then field_of 4 (λ v. record c { kind = soul (record s { soul_ticks = v }) })
    else base_field attr c

-- The interval at the end of the damage list, and setTicks at the time `now` unless the ticks
-- are -1.
unfoldable pub push_interval : ℕ → Damage → Condition → IntervalInfo → Condition
push_interval now d c i =
    let longer = record c { kind = damage (record d { damage_list = d.damage_list ++ i ∷ [] }) } in
    if c.ticks != minus_one then set_ticks now (add_u32 c.ticks i.interval) longer else longer

unfoldable pub damage_field : ℕ → ℕ → Damage → Condition → Option Field
damage_field now attr d c =
    if attr == delayed_attr
    then field_of 1 (λ v. record c { kind = damage (record d { delayed = v != 0 }) })
    else if attr == period_damage_attr
    then field_of 4 (λ v. record c { kind = damage (record d { period_damage = v }) })
    else if attr == owner_attr
    then field_of 4 (λ v. c)
    else if attr == interval_data_attr
    then field_of 12 (λ v. push_interval now d c (to_interval v))
    else base_field attr c

unfoldable pub speed_field : ℕ → Speed → Condition → Option Field
speed_field attr s c =
    if attr == speed_delta_attr
    then field_of 4 (λ v. record c { kind = speed (record s { speed_delta = v }) })
    else if attr == formula_mina_attr
    then field_of 4 (λ v. record c { kind = speed (record s { mina = v }) })
    else if attr == formula_minb_attr
    then field_of 4 (λ v. record c { kind = speed (record s { minb = v }) })
    else if attr == formula_maxa_attr
    then field_of 4 (λ v. record c { kind = speed (record s { maxa = v }) })
    else if attr == formula_maxb_attr
    then field_of 4 (λ v. record c { kind = speed (record s { maxb = v }) })
    else base_field attr c

unfoldable pub outfit_field : ℕ → Condition → Option Field
outfit_field attr c =
    if attr == outfit_attr
    then field_of 12 (λ v. record c { kind = outfit v })
    else base_field attr c

-- A colour and a level are read as 32-bit words into bytes.
unfoldable pub light_field : ℕ → Light → Condition → Option Field
light_field attr l c =
    if attr == light_color_attr
    then field_of 4 (λ v. record c { kind = light (record l { color = u8 v }) })
    else if attr == light_level_attr
    then field_of 4 (λ v. record c { kind = light (record l { level = u8 v }) })
    else if attr == light_ticks_attr
    then field_of 4 (λ v. record c { kind = light (record l { internal_light_ticks = v }) })
    else if attr == light_interval_attr
    then field_of 4 (λ v. record c { kind = light (record l { light_change_interval = v }) })
    else base_field attr c

-- unserializeProp of each class
unfoldable pub kind_field : ℕ → ℕ → Kind → Condition → Option Field
kind_field now attr generic c = base_field attr c
kind_field now attr invisible c = base_field attr c
kind_field now attr spell_cooldown c = base_field attr c
kind_field now attr spell_group_cooldown c = base_field attr c
kind_field now attr (attributes a) c = attributes_field attr a c
kind_field now attr (regeneration r) c = regeneration_field attr r c
kind_field now attr (soul s) c = soul_field attr s c
kind_field now attr (damage d) c = damage_field now attr d c
kind_field now attr (speed s) c = speed_field attr s c
kind_field now attr (outfit o) c = outfit_field attr c
kind_field now attr (light l) c = light_field attr l c
kind_field now attr (drunk n) c = base_field attr c
