-- ===== src/Conditions/Bearer.antt =====
-- A creature with its conditions, and what they do to its speed, its skills and its other values
-- (src/condition.cpp, src/creature.cpp, src/player.h). What conditions do to health, mana, soul,
-- light, outfit and visibility, and what clients see, is not of this model.
use baiak_fonticak.Base.{ℕ, Bool, true, not, ◌&&◌, List, get_or, ◌==◌, if◌then◌else◌}
use baiak_fonticak.Base.Words.{add_u32, sub_u32}
use baiak_fonticak.Conditions.Lasting.{start_base, execute_base, count_regeneration}
use baiak_fonticak.Conditions.Lasting.{count_soul, count_light, change_interval}
use baiak_fonticak.Conditions.Damaging.{Harm, start_damage, execute_damage}
use baiak_fonticak.Conditions.{Attributes, Speed, Light, Kind, generic, invisible}
use baiak_fonticak.Conditions.{spell_cooldown, spell_group_cooldown, attributes}
use baiak_fonticak.Conditions.{regeneration, soul, damage, speed, outfit, light, drunk}
use baiak_fonticak.Conditions.{Condition}

-- varSpeed of the creature, with varSkills, varSpecialSkills and varStats of a player, by index.
-- A mounted player has the speed of its mount in varSpeed too.
pub record Creature : Type 0 where
  pub conditions : List Condition
  pub is_player : Bool
  pub is_monster : Bool
  pub var_speed : ℕ
  pub var_skills : ℕ → ℕ
  pub var_special_skills : ℕ → ℕ
  pub var_stats : ℕ → ℕ
  pub use_defense : Bool
  pub drunkenness : ℕ
  pub mount_speed : ℕ

-- What the conditions read of the rest of the server: the clock, the suppressed types, whether
-- the creature is walking or in a protection zone, the speed that a formula gives at random, the
-- arrays with the percentages of the player's values put in, and the damages.
pub record World : Type 0 where
  pub now : ℕ
  pub is_suppress : ℕ → Bool
  pub is_walking : Bool
  pub in_protection : Bool
  pub draw : Speed → ℕ
  pub percent : Attributes → Attributes
  pub harm : Harm

-- changeSpeed
unfoldable pub change_speed : ℕ → Creature → Creature
change_speed delta s = record s { var_speed = add_u32 s.var_speed delta }

-- One entry of an array of modifiers is added, or taken back.
unfoldable pub add_at : ℕ → ℕ → ℕ
add_at x v = if x == 0 then v else add_u32 v x

unfoldable pub sub_at : ℕ → ℕ → ℕ
sub_at x v = if x == 0 then v else sub_u32 v x

-- The same for all entries, each of which the loops change on its own.
unfoldable pub add_array : List ℕ → (ℕ → ℕ) → ℕ → ℕ
add_array xs f i = add_at (get_or xs i 0) (f i)

unfoldable pub sub_array : List ℕ → (ℕ → ℕ) → ℕ → ℕ
sub_array xs f i = sub_at (get_or xs i 0) (f i)

-- updateSkills and updateStats
unfoldable pub add_attributes : Attributes → Creature → Creature
add_attributes a s =
    if s.is_player
    then record s {
      var_skills = add_array a.skills s.var_skills;
      var_special_skills = add_array a.special_skills s.var_special_skills;
      var_stats = add_array a.stats s.var_stats;
    }
    else s

-- A skill is also taken back where it came from a percentage.
unfoldable pub sub_skills : Attributes → (ℕ → ℕ) → ℕ → ℕ
sub_skills a f i =
    if get_or a.skills i 0 == 0 && get_or a.skills_percent i 0 == 0
    then f i
    else sub_u32 (f i) (get_or a.skills i 0)

-- ConditionAttributes::endCondition
unfoldable pub end_attributes : Attributes → Creature → Creature
end_attributes a s =
    let taken =
      if s.is_player
      then record s {
        var_skills = sub_skills a s.var_skills;
        var_special_skills = sub_array a.special_skills s.var_special_skills;
        var_stats = sub_array a.stats s.var_stats;
      }
      else s in
    if a.disable_defense then record taken { use_defense = true } else taken

-- The arrays of a player's condition are filled from the percentages first.
unfoldable pub with_percent : World → Creature → Attributes → Attributes
with_percent w s a = if s.is_player then w.percent a else a

unfoldable pub drawn : World → Speed → Speed
drawn w v = if v.speed_delta == 0 then record v { speed_delta = w.draw v } else v

-- startCondition of the classes that do more than the base class
abbrev pub start_attributes :
    World → Condition → Attributes → Creature → Bool × Condition × Creature
start_attributes w c a s =
    let filled = with_percent w s a in
    (
      true,
      record (start_base w.now c) { kind = attributes filled },
      add_attributes filled (record s { use_defense = not a.disable_defense }),
    )

abbrev pub start_speed : World → Condition → Speed → Creature → Bool × Condition × Creature
start_speed w c v s =
    let fast = drawn w v in
    (true, record (start_base w.now c) { kind = speed fast }, change_speed fast.speed_delta s)

abbrev pub start_light : World → Condition → Light → Creature → Bool × Condition × Creature
start_light w c l s = (
  true,
  record (start_base w.now c) {
    kind = light (record l {
      internal_light_ticks = 0;
      light_change_interval = change_interval c.ticks l.level;
    });
  },
  s,
)

-- startCondition of each class
unfoldable pub start_kind : World → Condition → Kind → Creature → Bool × Condition × Creature
start_kind w c generic s = (true, start_base w.now c, s)
start_kind w c invisible s = (true, start_base w.now c, s)
start_kind w c spell_cooldown s = (true, start_base w.now c, s)
start_kind w c spell_group_cooldown s = (true, start_base w.now c, s)
start_kind w c (attributes a) s = start_attributes w c a s
start_kind w c (regeneration r) s = (true, start_base w.now c, s)
start_kind w c (soul v) s = (true, start_base w.now c, s)
start_kind w c (damage d) s = let r = start_damage w.now w.harm c d in (r.0, r.1, s)
start_kind w c (speed v) s = start_speed w c v s
start_kind w c (outfit o) s = (true, start_base w.now c, s)
start_kind w c (light l) s = start_light w c l s
start_kind w c (drunk n) s = (true, start_base w.now c, record s { drunkenness = n })

-- executeCondition of each class
unfoldable pub execute_kind : World → ℕ → Condition → Bool → Kind → Bool × Condition
execute_kind w interval c p generic = execute_base w.now interval c
execute_kind w interval c p invisible = execute_base w.now interval c
execute_kind w interval c p spell_cooldown = execute_base w.now interval c
execute_kind w interval c p spell_group_cooldown = execute_base w.now interval c
execute_kind w interval c p (attributes a) = execute_base w.now interval c
execute_kind w interval c p (regeneration r) =
    execute_base w.now interval
      (record c { kind = regeneration (count_regeneration w.in_protection interval r) })
execute_kind w interval c p (soul v) =
    execute_base w.now interval (record c { kind = soul (count_soul p w.in_protection interval v) })
execute_kind w interval c p (damage d) = execute_damage w.now w.harm interval c d
execute_kind w interval c p (speed v) = execute_base w.now interval c
execute_kind w interval c p (outfit o) = execute_base w.now interval c
execute_kind w interval c p (light l) =
    execute_base w.now interval (record c { kind = light (count_light interval l) })
execute_kind w interval c p (drunk n) = execute_base w.now interval c

-- endCondition of each class
unfoldable pub end_kind : Kind → Creature → Creature
end_kind generic s = s
end_kind invisible s = s
end_kind spell_cooldown s = s
end_kind spell_group_cooldown s = s
end_kind (attributes a) s = end_attributes a s
end_kind (regeneration r) s = s
end_kind (soul v) s = s
end_kind (damage d) s = s
end_kind (speed v) s = change_speed (sub_u32 0 v.speed_delta) s
end_kind (outfit o) s = s
end_kind (light l) s = s
end_kind (drunk n) s = record s { drunkenness = 0 }
