-- ===== src/Conditions/Setting.antt =====
-- The parameters of conditions are set (src/condition.cpp, setParam of the classes): whether it
-- succeeds, and the condition after it.
use baiak_fonticak.Base.Words.{abs_int32, max_int32}
use baiak_fonticak.Conditions.Params.{specialskill_manaleechamount_param}
use baiak_fonticak.Conditions.Params.{specialskill_manaleechchance_param}
use baiak_fonticak.Conditions.Params.{specialskill_lifeleechamount_param}
use baiak_fonticak.Conditions.Params.{specialskill_lifeleechchance_param}
use baiak_fonticak.Conditions.Params.{specialskill_criticalhitamount_param}
use baiak_fonticak.Conditions.Params.{specialskill_criticalhitchance_param}
use baiak_fonticak.Conditions.Params.{skill_fishingpercent_param, skill_fishing_param}
use baiak_fonticak.Conditions.Params.{skill_shieldpercent_param, skill_shield_param}
use baiak_fonticak.Conditions.Params.{skill_distancepercent_param, skill_distance_param}
use baiak_fonticak.Conditions.Params.{skill_axepercent_param, skill_axe_param, field_param}
use baiak_fonticak.Conditions.Params.{skill_swordpercent_param, periodicdamage_param}
use baiak_fonticak.Conditions.Params.{disable_defense_param, tickinterval_param}
use baiak_fonticak.Conditions.Params.{stat_magicpointspercent_param, skill_sword_param}
use baiak_fonticak.Conditions.Params.{stat_maxmanapointspercent_param, startvalue_param}
use baiak_fonticak.Conditions.Params.{skill_clubpercent_param, skill_club_param}
use baiak_fonticak.Conditions.Params.{minvalue_param, stat_maxhitpointspercent_param}
use baiak_fonticak.Conditions.Params.{skill_fistpercent_param, maxvalue_param}
use baiak_fonticak.Conditions.Params.{manaticks_param, aggressive_param, subid_param}
use baiak_fonticak.Conditions.Params.{stat_magicpoints_param, skill_fist_param}
use baiak_fonticak.Conditions.Params.{managain_param, delayed_param}
use baiak_fonticak.Conditions.Params.{stat_maxmanapoints_param, soulticks_param}
use baiak_fonticak.Conditions.Params.{skill_meleepercent_param, light_color_param}
use baiak_fonticak.Conditions.Params.{healthticks_param, forceupdate_param, buff_spell_param}
use baiak_fonticak.Conditions.Params.{ticks_param, stat_maxhitpoints_param, speed_param}
use baiak_fonticak.Conditions.Params.{soulgain_param, skill_melee_param, owner_param}
use baiak_fonticak.Conditions.Params.{light_level_param, healthgain_param, drunkenness_param}
use baiak_fonticak.Conditions.Lasting.{is_positive}
use baiak_fonticak.Base.{ℕ, ◌%◌, ◌^◌, Bool, true, false, Option, none, some, List, [], ◌∷◌}
use baiak_fonticak.Base.{set, ◌==◌, ◌!=◌, if◌then◌else◌}
use baiak_fonticak.Conditions.{Attributes, Regeneration, Soul, Damage, Speed, Light, Kind}
use baiak_fonticak.Conditions.{generic, invisible, spell_cooldown, spell_group_cooldown}
use baiak_fonticak.Conditions.{attributes, regeneration, soul, damage, speed, outfit, light}
use baiak_fonticak.Conditions.{drunk, Condition}
use baiak_fonticak.Conditions.Codes.{haste_type, paralyze_type}
use baiak_fonticak.Conditions.Renewing.{with_kind}

-- Condition::setParam
unfoldable pub set_base : ℕ → ℕ → Condition → Bool × Condition
set_base p v c =
    if p == ticks_param
    then (true, record c { ticks = v })
    else if p == buff_spell_param
    then (true, record c { is_buff = v != 0 })
    else if p == subid_param
    then (true, record c { sub_id = v })
    else if p == aggressive_param
    then (true, record c { aggressive = v != 0 })
    else (false, c)

-- ConditionAttributes::setParam: none where it leaves the parameter to the base class, as it may
-- CONDITION_PARAM_AGGRESSIVE, which it sets again to the same.
unfoldable pub set_stats : ℕ → ℕ → Attributes → Option Attributes
set_stats p v a =
    if p == stat_maxhitpoints_param
    then some (record a { stats = set a.stats 0 v })
    else if p == stat_maxmanapoints_param
    then some (record a { stats = set a.stats 1 v })
    else if p == stat_magicpoints_param
    then some (record a { stats = set a.stats 3 v })
    else if p == stat_maxhitpointspercent_param
    then some (record a { stats_percent = set a.stats_percent 0 (max_int32 v) })
    else if p == stat_maxmanapointspercent_param
    then some (record a { stats_percent = set a.stats_percent 1 (max_int32 v) })
    else if p == stat_magicpointspercent_param
    then some (record a { stats_percent = set a.stats_percent 3 (max_int32 v) })
    else if p == disable_defense_param
    then some (record a { disable_defense = v != 0 })
    else none

unfoldable pub set_attributes : ℕ → ℕ → Attributes → Option Attributes
set_attributes p v a =
    if p == skill_melee_param
    then some (record a { skills = set (set (set a.skills 1 v) 3 v) 2 v })
    else if p == skill_meleepercent_param
    then some (record a { skills_percent = set (set (set a.skills_percent 1 v) 3 v) 2 v })
    else if p == skill_fist_param
    then some (record a { skills = set a.skills 0 v })
    else if p == skill_fistpercent_param
    then some (record a { skills_percent = set a.skills_percent 0 v })
    else if p == skill_club_param
    then some (record a { skills = set a.skills 1 v })
    else if p == skill_clubpercent_param
    then some (record a { skills_percent = set a.skills_percent 1 v })
    else if p == skill_sword_param
    then some (record a { skills = set a.skills 2 v })
    else if p == skill_swordpercent_param
    then some (record a { skills_percent = set a.skills_percent 2 v })
    else if p == skill_axe_param
    then some (record a { skills = set a.skills 3 v })
    else if p == skill_axepercent_param
    then some (record a { skills_percent = set a.skills_percent 3 v })
    else if p == skill_distance_param
    then some (record a { skills = set a.skills 4 v })
    else if p == skill_distancepercent_param
    then some (record a { skills_percent = set a.skills_percent 4 v })
    else if p == skill_shield_param
    then some (record a { skills = set a.skills 5 v })
    else if p == skill_shieldpercent_param
    then some (record a { skills_percent = set a.skills_percent 5 v })
    else if p == skill_fishing_param
    then some (record a { skills = set a.skills 6 v })
    else if p == skill_fishingpercent_param
    then some (record a { skills_percent = set a.skills_percent 6 v })
    else if p == specialskill_criticalhitchance_param
    then some (record a { special_skills = set a.special_skills 0 v })
    else if p == specialskill_criticalhitamount_param
    then some (record a { special_skills = set a.special_skills 1 v })
    else if p == specialskill_lifeleechchance_param
    then some (record a { special_skills = set a.special_skills 2 v })
    else if p == specialskill_lifeleechamount_param
    then some (record a { special_skills = set a.special_skills 3 v })
    else if p == specialskill_manaleechchance_param
    then some (record a { special_skills = set a.special_skills 4 v })
    else if p == specialskill_manaleechamount_param
    then some (record a { special_skills = set a.special_skills 5 v })
    else set_stats p v a

-- ConditionRegeneration::setParam
unfoldable pub set_regeneration : ℕ → ℕ → Regeneration → Option Regeneration
set_regeneration p v r =
    if p == healthgain_param
    then some (record r { health_gain = v })
    else if p == healthticks_param
    then some (record r { health_ticks = v })
    else if p == managain_param
    then some (record r { mana_gain = v })
    else if p == manaticks_param
    then some (record r { mana_ticks = v })
    else none

-- ConditionSoul::setParam
unfoldable pub set_soul : ℕ → ℕ → Soul → Option Soul
set_soul p v s =
    if p == soulgain_param
    then some (record s { soul_gain = v })
    else if p == soulticks_param
    then some (record s { soul_ticks = v })
    else none

-- ConditionDamage::setParam, where `ret` is the answer of the base class.
unfoldable pub set_damage : Bool → ℕ → ℕ → Damage → Bool × Damage
set_damage ret p v d =
    if p == owner_param
    then (true, record d { owner = v })
    else if p == forceupdate_param
    then (true, record d { force_update = v != 0 })
    else if p == delayed_param
    then (true, record d { delayed = v != 0 })
    else if p == maxvalue_param
    then (ret, record d { max_damage = abs_int32 v })
    else if p == minvalue_param
    then (ret, record d { min_damage = abs_int32 v })
    else if p == startvalue_param
    then (ret, record d { start_damage = abs_int32 v })
    else if p == tickinterval_param
    then (ret, record d { tick_interval = abs_int32 v })
    else if p == periodicdamage_param
    then (ret, record d { period_damage = v })
    else if p == field_param
    then (ret, record d { field = v != 0 })
    else (false, d)

-- ConditionSpeed::setParam, after the base class: the type follows the sign of the speed.
unfoldable pub set_speed : ℕ → ℕ → Speed → Condition → Bool × Condition
set_speed p v s c = if p != speed_param then (false, c) else (
  true,
  record c {
    type = if is_positive v then haste_type else paralyze_type;
    kind = speed (record s { speed_delta = v });
  },
)

-- ConditionLight::setParam, after the base class, whose success it takes as a failure.
unfoldable pub set_light : Bool → ℕ → ℕ → Light → Bool × Light
set_light ret p v l =
    if ret
    then (false, l)
    else if p == light_level_param
    then (true, record l { level = v % 2 ^ 8 })
    else if p == light_color_param
    then (true, record l { color = v % 2 ^ 8 })
    else (false, l)

-- ConditionDrunk::setParam
unfoldable pub set_drunk : ℕ → ℕ → Option ℕ
set_drunk p v = if p == drunkenness_param then some (v % 2 ^ 8) else none

abbrev pub own_or : {A : Type 0} → (A → Kind) → Option A → Bool × Condition → Bool × Condition
own_or make o r = elim o [ none ↦ r | some x ↦ (true, with_kind r.1 (make x)) ]

-- setParam of each class, after the base class with the result `r`.
unfoldable pub set_kind : ℕ → ℕ → Kind → Bool × Condition → Bool × Condition
set_kind p v generic r = r
set_kind p v invisible r = r
set_kind p v spell_cooldown r = r
set_kind p v spell_group_cooldown r = r
set_kind p v (attributes a) r = own_or attributes (set_attributes p v a) r
set_kind p v (regeneration g) r = own_or regeneration (set_regeneration p v g) r
set_kind p v (soul s) r = own_or soul (set_soul p v s) r
set_kind p v (damage d) r = let t = set_damage r.0 p v d in (t.0, with_kind r.1 (damage t.1))
set_kind p v (speed s) r = set_speed p v s r.1
set_kind p v (outfit o) r = r
set_kind p v (light l) r = let t = set_light r.0 p v l in (t.0, with_kind r.1 (light t.1))
set_kind p v (drunk n) r = own_or drunk (set_drunk p v) r

unfoldable pub set_param : ℕ → ℕ → Condition → Bool × Condition
set_param p v c = set_kind p v c.kind (set_base p v c)

-- Several parameters are set, one after another.
unfoldable pub set_params : List (ℕ × ℕ) → Condition → Condition
set_params [] c = c
set_params (q ∷ list) c = set_params list (set_param q.0 q.1 c).1
