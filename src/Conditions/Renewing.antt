-- ===== src/Conditions/Renewing.antt =====
-- What a condition makes of a new one of its type, id and subId (addCondition of the classes of
-- src/condition.cpp).
use baiak_fonticak.Base.{ℕ, ◌&&◌, ◌||◌, none, some, ltb, ◌==◌, ◌!=◌, if◌then◌else◌}
use baiak_fonticak.Base.Words.{sub_u32}
use baiak_fonticak.Conditions.Lasting.{is_positive, update_condition, change_interval}
use baiak_fonticak.Conditions.Damaging.{add_to_damage}
use baiak_fonticak.Conditions.Casting.{as_attributes, as_regeneration, as_soul, as_damage}
use baiak_fonticak.Conditions.Casting.{as_speed, as_outfit, as_light, as_drunk}
use baiak_fonticak.Conditions.Bearer.{Creature, World, change_speed, add_attributes}
use baiak_fonticak.Conditions.Bearer.{end_attributes, with_percent, drawn}
use baiak_fonticak.Conditions.{Attributes, Regeneration, Soul, Speed, Light, Kind, generic}
use baiak_fonticak.Conditions.{invisible, spell_cooldown, spell_group_cooldown, attributes}
use baiak_fonticak.Conditions.{regeneration, soul, damage, speed, outfit, light, drunk}
use baiak_fonticak.Conditions.{Condition, minus_one, set_ticks}

abbrev pub with_kind : Condition → Kind → Condition
with_kind c k = record c { kind = k }

-- ConditionGeneric::addCondition
unfoldable pub renew : World → Condition → Condition → Condition
renew w c new = if update_condition w.now c new then set_ticks w.now new.ticks c else c

-- memcpy of the arrays; the indices of reading stay.
unfoldable pub copy_attributes : Attributes → Attributes → Attributes
copy_attributes a n = record a {
  skills = n.skills;
  special_skills = n.special_skills;
  skills_percent = n.skills_percent;
  stats = n.stats;
  stats_percent = n.stats_percent;
  disable_defense = n.disable_defense;
}

-- ConditionAttributes::addCondition, once it is to be updated.
unfoldable pub replace_attributes :
    World → Condition → Condition → Attributes → Attributes → Creature → Condition × Creature
replace_attributes w c new a n s =
    let filled = with_percent w s (copy_attributes a n) in
    (
      with_kind (set_ticks w.now new.ticks c) (attributes filled),
      add_attributes filled (end_attributes a s),
    )

-- ConditionSpeed::addCondition
unfoldable pub replace_speed :
    World → Condition → Condition → Speed → Speed → Creature → Condition × Creature
replace_speed w c new v n s =
    if c.type != new.type || (c.ticks == minus_one && is_positive new.ticks)
    then (c, s)
    else (let fast = drawn w n in
        let change = sub_u32 fast.speed_delta v.speed_delta in
        (
          with_kind (set_ticks w.now new.ticks c) (speed fast),
          if change != 0 then change_speed change s else s,
        ))

unfoldable pub replace_regeneration : Regeneration → Regeneration → Regeneration
replace_regeneration r n = record r {
  health_ticks = n.health_ticks;
  mana_ticks = n.mana_ticks;
  health_gain = n.health_gain;
  mana_gain = n.mana_gain;
}

unfoldable pub replace_soul : Soul → Soul → Soul
replace_soul v n = record v { soul_ticks = n.soul_ticks; soul_gain = n.soul_gain }

unfoldable pub replace_light : ℕ → Light → Light → Light
replace_light ticks l n = record l {
  level = n.level;
  color = n.color;
  light_change_interval = change_interval ticks n.level;
  internal_light_ticks = 0;
}

-- addCondition of the classes: the condition that is there, and the creature, after a new one.
abbrev pub add_attributes_to :
    World → Condition → Condition → Attributes → Creature → Condition × Creature
add_attributes_to w c new a s = elim (as_attributes new.kind) [
  | none ↦ (c, s)
  | some n ↦ if update_condition w.now c new then replace_attributes w c new a n s else (c, s)
]

abbrev pub add_regeneration_to :
    World → Condition → Condition → Regeneration → Creature → Condition × Creature
add_regeneration_to w c new r s = elim (as_regeneration new.kind) [
  | none ↦ (c, s)
  | some n ↦ (
    if update_condition w.now c new
        then with_kind (set_ticks w.now new.ticks c) (regeneration (replace_regeneration r n))
        else c,
    s,
  )
]

abbrev pub add_soul_to : World → Condition → Condition → Soul → Creature → Condition × Creature
add_soul_to w c new v s = elim (as_soul new.kind) [
  | none ↦ (c, s)
  | some n ↦ (
    if update_condition w.now c new
        then with_kind (set_ticks w.now new.ticks c) (soul (replace_soul v n))
        else c,
    s,
  )
]

abbrev pub add_outfit_to : World → Condition → Condition → ℕ → Creature → Condition × Creature
add_outfit_to w c new o s = elim (as_outfit new.kind) [
  | none ↦ (c, s)
  | some n ↦ (
    if update_condition w.now c new then with_kind (set_ticks w.now new.ticks c) (outfit n) else c,
    s,
  )
]

abbrev pub add_light_to : World → Condition → Condition → Light → Creature → Condition × Creature
add_light_to w c new l s = elim (as_light new.kind) [
  | none ↦ (c, s)
  | some n ↦ (
    if update_condition w.now c new
        then with_kind (set_ticks w.now new.ticks c) (light (replace_light new.ticks l n))
        else c,
    s,
  )
]

abbrev pub add_drunk_to : World → Condition → Condition → ℕ → Creature → Condition × Creature
add_drunk_to w c new n s = elim (as_drunk new.kind) [
  | none ↦ (c, s)
  | some m ↦ if ltb n m then (set_ticks w.now new.ticks c, record s { drunkenness = m }) else (c, s)
]

unfoldable pub add_to : World → Condition → Condition → Kind → Creature → Condition × Creature
add_to w c new generic s = (renew w c new, s)
add_to w c new invisible s = (renew w c new, s)
add_to w c new spell_cooldown s = (renew w c new, s)
add_to w c new spell_group_cooldown s = (renew w c new, s)
add_to w c new (attributes a) s = add_attributes_to w c new a s
add_to w c new (regeneration r) s = add_regeneration_to w c new r s
add_to w c new (soul v) s = add_soul_to w c new v s
add_to w c new (damage d) s = elim (as_damage new.kind) [
  | none ↦ (c, s)
  | some n ↦ (add_to_damage w.now w.harm c d new n, s)
]
add_to w c new (speed v) s = elim (as_speed new.kind) [
  | none ↦ (c, s)
  | some n ↦ replace_speed w c new v n s
]
add_to w c new (outfit o) s = add_outfit_to w c new o s
add_to w c new (light l) s = add_light_to w c new l s
add_to w c new (drunk n) s = add_drunk_to w c new n s
