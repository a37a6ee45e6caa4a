-- ===== src/Conditions/Lasting.antt =====
-- How long conditions last: Condition and the classes that only count ticks (src/condition.cpp).
-- The clock is after 1970, so that its words are not negative.
use baiak_fonticak.Base.{◌-◌, ℕ, ◌+◌, ◌/◌, ◌%◌, ◌^◌, Bool, true, false, not, ◌&&◌, ◌||◌, ltb}
use baiak_fonticak.Base.{leb, ◌==◌, ◌!=◌, if◌then◌else◌}
use baiak_fonticak.Base.Words.{u32, add_u32, sub_u32, max_int32}
use baiak_fonticak.Conditions.{Regeneration, Soul, Light, Condition, minus_one}

-- A signed 32-bit word is positive, and one is at most another.
unfoldable pub is_positive : ℕ → Bool
is_positive v = ltb 0 v && ltb v (2 ^ 31)

unfoldable pub leb_int32 : ℕ → ℕ → Bool
leb_int32 a b = leb ((a + 2 ^ 31) % 2 ^ 32) ((b + 2 ^ 31) % 2 ^ 32)

-- getEndTime() >= OTSYS_TIME()
unfoldable pub is_over : ℕ → ℕ → Bool
is_over now end_time = leb (2 ^ 63) end_time || ltb end_time now

-- Condition::startCondition, which always succeeds.
unfoldable pub start_base : ℕ → Condition → Condition
start_base now c =
    if is_positive c.ticks then record c { end_time = (c.ticks + now) % 2 ^ 64 } else c

-- Condition::executeCondition
unfoldable pub execute_base : ℕ → ℕ → Condition → Bool × Condition
execute_base now interval c =
    if c.ticks == minus_one
    then (true, c)
    else (not (is_over now c.end_time), record c { ticks = max_int32 (sub_u32 c.ticks interval) })

-- Condition::updateCondition
unfoldable pub update_condition : ℕ → Condition → Condition → Bool
update_condition now c new =
    if c.type != new.type
    then false
    else if c.ticks == minus_one && is_positive new.ticks
    then false
    else if ltb new.ticks (2 ^ 31) && ltb (now + new.ticks) c.end_time && ltb c.end_time (2 ^ 63)
    then false
    else true

-- The counters of ConditionRegeneration; what they give to health and mana is of the creature.
unfoldable pub count_regeneration : Bool → ℕ → Regeneration → Regeneration
count_regeneration in_protection interval r =
    let health = add_u32 r.internal_health_ticks interval in
    let mana = add_u32 r.internal_mana_ticks interval in
    record r {
      internal_health_ticks = if not in_protection && leb r.health_ticks health then 0 else health;
      internal_mana_ticks = if not in_protection && leb r.mana_ticks mana then 0 else mana;
    }

-- The counter of ConditionSoul, which only a player's condition resets.
unfoldable pub count_soul : Bool → Bool → ℕ → Soul → Soul
count_soul is_player in_protection interval s =
    let ticks = add_u32 s.internal_soul_ticks interval in
    record s {
      internal_soul_ticks =
          if is_player && not in_protection && leb s.soul_ticks ticks then 0 else ticks;
    }

-- The counter of ConditionLight; the light that fades is the creature's.
unfoldable pub count_light : ℕ → Light → Light
count_light interval l =
    let ticks = add_u32 l.internal_light_ticks interval in
    record l { internal_light_ticks = if leb l.light_change_interval ticks then 0 else ticks }

-- ticks / lightInfo.level of a signed number of ticks, rounded to 0; it stops the server at level
-- 0, and is 0 here.
unfoldable pub change_interval : ℕ → ℕ → ℕ
change_interval ticks level =
    if level == 0
    then 0
    else if ltb ticks (2 ^ 31)
    then ticks / level
    else u32 (2 ^ 32 - (2 ^ 32 - ticks) / level)
