-- ===== src/Conditions/Restoring.antt =====
-- What loading should make of a saved condition (src/condition.cpp), and that reading its
-- attributes does.
use baiak_fonticak.Base.{ℕ, ◌+◌, ◌%◌, ◌^◌, ◌<◌, ◌≡◌, refl, Bool, true, false, List, [], ◌∷◌}
use baiak_fonticak.Base.{length, All, ◌!=◌}
use baiak_fonticak.Conditions.{IntervalInfo, Kind, generic, invisible, spell_cooldown}
use baiak_fonticak.Conditions.{spell_group_cooldown, attributes, regeneration, soul, damage}
use baiak_fonticak.Conditions.{speed, outfit, light, drunk, Condition}
use baiak_fonticak.Conditions.Writing.{of_bool}
use baiak_fonticak.Conditions.Creating.{zeros, new_damage, new_regeneration, new_attributes}
use baiak_fonticak.Conditions.Creating.{aggressive_of}

-- A condition of the same class as it is created.
unfoldable pub blank : Kind → Kind
blank generic = generic
blank invisible = invisible
blank spell_cooldown = spell_cooldown
blank spell_group_cooldown = spell_group_cooldown
blank (attributes a) = attributes new_attributes
blank (regeneration r) = regeneration new_regeneration
blank (soul s) = soul (record { internal_soul_ticks = 0; soul_ticks = 0; soul_gain = 0 })
blank (damage d) = damage new_damage
blank (speed s) = speed (record { speed_delta = 0; mina = 0; minb = 0; maxa = 0; maxb = 0 })
blank (outfit o) = outfit 0
blank (light l) =
    light (record { level = 0; color = 0; internal_light_ticks = 0; light_change_interval = 0 })
blank (drunk n) = drunk 25

-- What is kept of a kind: the written fields, and the others as they are created.
unfoldable pub kept : Kind → Kind
kept generic = generic
kept invisible = invisible
kept spell_cooldown = spell_cooldown
kept spell_group_cooldown = spell_group_cooldown
kept (attributes a) = attributes (record {
  skills = a.skills;
  skills_percent = zeros 7;
  special_skills = a.special_skills;
  stats = a.stats;
  stats_percent = zeros 4;
  current_skill = 7;
  current_special_skill = 6;
  current_stat = 4;
  disable_defense = a.disable_defense;
})
kept (regeneration r) =
    regeneration (record r { internal_health_ticks = 0; internal_mana_ticks = 0 })
kept (soul s) = soul (record s { internal_soul_ticks = 0 })
kept (damage d) = damage (record new_damage {
  delayed = d.delayed;
  period_damage = d.period_damage;
  damage_list = d.damage_list;
})
kept (speed s) = speed s
kept (outfit o) = outfit o
kept (light l) = light l
kept (drunk n) = drunk 25

unfoldable pub total : List IntervalInfo → ℕ
total [] = 0
total (i ∷ list) = i.interval + total list

-- The ticks and the end time, which is set only by the intervals of a damage.
unfoldable pub kept_ticks : Kind → ℕ → ℕ
kept_ticks (damage d) ticks = total d.damage_list
kept_ticks generic ticks = ticks
kept_ticks invisible ticks = ticks
kept_ticks spell_cooldown ticks = ticks
kept_ticks spell_group_cooldown ticks = ticks
kept_ticks (attributes a) ticks = ticks
kept_ticks (regeneration r) ticks = ticks
kept_ticks (soul s) ticks = ticks
kept_ticks (speed s) ticks = ticks
kept_ticks (outfit o) ticks = ticks
kept_ticks (light l) ticks = ticks
kept_ticks (drunk n) ticks = ticks

unfoldable pub end_after : ℕ → List IntervalInfo → ℕ
end_after now [] = 0
end_after now (i ∷ list) = (total (i ∷ list) + now) % 2 ^ 64

unfoldable pub new_end : ℕ → Kind → ℕ
new_end now (damage d) = end_after now d.damage_list
new_end now generic = 0
new_end now invisible = 0
new_end now spell_cooldown = 0
new_end now spell_group_cooldown = 0
new_end now (attributes a) = 0
new_end now (regeneration r) = 0
new_end now (soul s) = 0
new_end now (speed s) = 0
new_end now (outfit o) = 0
new_end now (light l) = 0
new_end now (drunk n) = 0

-- The condition as it is loaded at the time `now`.
unfoldable pub restored : ℕ → Condition → Condition
restored now c = record c {
  ticks = kept_ticks c.kind c.ticks;
  end_time = new_end now c.kind;
  aggressive = aggressive_of c.kind c.aggressive;
  kind = kept c.kind;
}

pub record IsInterval (i : IntervalInfo) : Type 0 where
  pub left_fits : i.time_left < 2 ^ 32
  pub value_fits : i.value < 2 ^ 32
  pub interval_fits : i.interval < 2 ^ 32

-- Arrays are of the sizes of the source, bytes are bytes, and the intervals of a damage take
-- less than 2^31 milliseconds together.
unfoldable pub IsKindSound : Kind → Type 0
IsKindSound (attributes a) =
    (length a.skills ≡ 7) × (length a.special_skills ≡ 6) × (length a.stats ≡ 4)
IsKindSound (damage d) = All IsInterval d.damage_list × (total d.damage_list < 2 ^ 31)
IsKindSound (light l) = (l.level < 2 ^ 8) × (l.color < 2 ^ 8)
IsKindSound generic = Unit
IsKindSound invisible = Unit
IsKindSound spell_cooldown = Unit
IsKindSound spell_group_cooldown = Unit
IsKindSound (regeneration r) = Unit
IsKindSound (soul s) = Unit
IsKindSound (speed s) = Unit
IsKindSound (outfit o) = Unit
IsKindSound (drunk n) = Unit

pub of_bool_back : (b : Bool) → (of_bool b != 0) ≡ b
unfolding of_bool
of_bool_back true = refl
of_bool_back false = refl
