-- ===== src/Conditions/Damaging.antt =====
-- ConditionDamage (src/condition.cpp). What is drawn at random, what generateDamageList makes of
-- it with its floats, and what doDamage answers are parameters; values are words of 32 bits.
use baiak_fonticak.Base.{ℕ, zero, suc, ◌+◌, ◌-◌, ◌/◌, ◌%◌, ◌^◌, max, Bool, true, false, not}
use baiak_fonticak.Base.{◌&&◌, ◌||◌, List, [], ◌∷◌, ◌++◌, is_empty, drop, ltb, leb, ◌==◌}
use baiak_fonticak.Base.{◌!=◌, if◌then◌else◌}
use baiak_fonticak.Base.Words.{add_u32, sub_u32}
use baiak_fonticak.Conditions.Reading.{push_interval}
use baiak_fonticak.Conditions.Lasting.{is_positive, leb_int32, start_base, execute_base}
use baiak_fonticak.Conditions.{IntervalInfo, Damage, damage, Condition, minus_one, set_ticks}

-- `amount` is uniform_random, `generate` generateDamageList, `hit` the answer of doDamage, and
-- `stays` what onTickCondition makes of bRemove.
pub record Harm : Type 0 where
  pub amount : Damage → ℕ
  pub generate : ℕ → ℕ → List ℕ
  pub hit : Condition → ℕ → Bool
  pub stays : ℕ → Bool → Bool

abbrev pub with_damage : Condition → Damage → Condition
with_damage c d = record c { kind = damage d }

unfoldable pub longer : Damage → IntervalInfo → Damage
longer d i = record d { damage_list = d.damage_list ++ i ∷ [] }

-- The rounds of addDamage.
unfoldable pub add_rounds : ℕ → ℕ → IntervalInfo → Condition → Damage → Condition × Damage
add_rounds zero now i c d = (c, d)
add_rounds (suc n) now i c d = add_rounds n now i (push_interval now d c i) (longer d i)

-- addDamage, without its answer, which no call of init reads.
unfoldable pub add_damage : ℕ → ℕ → ℕ → ℕ → Condition → Damage → Condition × Damage
add_damage now rounds time value c d =
    let long = if leb_int32 time 1000 then 1000 else time in
    if rounds == minus_one
    then (let periodic = record d { period_damage = value; tick_interval = long } in
        (record c { ticks = minus_one; kind = damage periodic }, periodic))
    else if is_positive d.period_damage
    then (c, d)
    else add_rounds (if is_positive rounds then rounds else 0) now
        (record { time_left = long; value = value; interval = long }) c d

-- The loop of init over the generated values.
unfoldable pub add_all : ℕ → ℕ → List ℕ → Condition → Damage → Condition × Damage
add_all now time [] c d = (c, d)
add_all now time (v ∷ values) c d =
    let next = add_damage now 1 time (sub_u32 0 v) c d in add_all now time values next.0 next.1

-- The first damage that init starts the list with.
unfoldable pub first_damage : ℕ → Damage → ℕ
first_damage amount d =
    if ltb d.max_damage d.start_damage
    then d.max_damage
    else if d.start_damage == 0
    then max 1 ((amount + 19) / 20)
    else d.start_damage

unfoldable pub init_list : ℕ → Harm → Condition → Damage → Condition × Damage
init_list now w c d =
    let amount = w.amount d in
    if amount == 0
    then (c, d)
    else (let ready = record d { start_damage = first_damage amount d } in
        add_all now d.tick_interval (w.generate amount ready.start_damage) (with_damage c ready)
          ready)

-- init
unfoldable pub init : ℕ → Harm → Condition → Damage → Bool × Condition × Damage
init now w c d =
    if d.period_damage != 0 || not (is_empty d.damage_list)
    then (true, c, d)
    else (let r = init_list now w (set_ticks now 0 c) d in
        (not (is_empty (r.1).damage_list), r.0, r.1))

-- ConditionDamage::startCondition
unfoldable pub start_damage : ℕ → Harm → Condition → Damage → Bool × Condition
start_damage now w c d =
    let begun = start_base now c in
    if not d.delayed && not (w.hit begun d.init_damage)
    then (false, begun)
    else (let r = init now w begun d in (r.0, r.1))

-- The first interval of the list after a tick: it is removed, or it begins again.
unfoldable pub tick_interval : Bool → ℕ → IntervalInfo → List IntervalInfo → List IntervalInfo
tick_interval removes interval i list =
    let left = sub_u32 i.time_left interval in
    if is_positive left
    then record i { time_left = left } ∷ list
    else if removes
    then list
    else record i { time_left = i.interval } ∷ list

-- The end of ConditionDamage::executeCondition: on a field that goes on, time stands still.
unfoldable pub after_tick : ℕ → Bool → ℕ → Condition → Bool × Condition
after_tick now removes interval c =
    if removes
    then execute_base now interval c
    else execute_base now 0 (
        if is_positive c.ticks then record c { end_time = (c.end_time + interval) % 2 ^ 64 } else c)

unfoldable pub tick_list : ℕ → Harm → ℕ → Condition → Damage → List IntervalInfo → Bool × Condition
tick_list now w interval c d [] = execute_base now interval c
tick_list now w interval c d (i ∷ list) =
    let removes = w.stays c.type (c.ticks != minus_one) in
    after_tick now removes interval
      (with_damage c (record d { damage_list = tick_interval removes interval i list }))

-- ConditionDamage::executeCondition; the damage itself is done to the creature.
unfoldable pub execute_damage : ℕ → Harm → ℕ → Condition → Damage → Bool × Condition
execute_damage now w interval c d =
    let tick = add_u32 d.period_damage_tick interval in
    if d.period_damage != 0
    then execute_base now interval (
        with_damage c
          (record d { period_damage_tick = if leb_int32 d.tick_interval tick then 0 else tick }))
    else tick_list now w interval c d d.damage_list

-- getNextDamage: what it takes from the list; the damage itself is done to the creature.
unfoldable pub take_next : Condition → Damage → Damage
take_next c d =
    if d.period_damage != 0 || c.ticks == minus_one
    then d
    else record d { damage_list = drop 1 d.damage_list }

unfoldable pub sum_values : List IntervalInfo → ℕ
sum_values [] = 0
sum_values (i ∷ list) = add_u32 i.value (sum_values list)

-- getTotalDamage, whose bounds are not negative.
unfoldable pub get_total_damage : Damage → ℕ
get_total_damage d =
    let result =
      if not (is_empty d.damage_list)
      then sum_values d.damage_list
      else if leb d.min_damage d.max_damage
      then d.min_damage + (d.max_damage - d.min_damage) / 2
      else d.min_damage - (d.min_damage - d.max_damage) / 2 in
    if ltb result (2 ^ 31) then result else 2 ^ 32 - result

-- ConditionDamage::updateCondition
unfoldable pub update_damage : Condition → Damage → Condition → Damage → Bool
update_damage c d new n =
    if n.force_update
    then true
    else if c.ticks == minus_one && is_positive new.ticks
    then false
    else ltb (get_total_damage d) (get_total_damage n)

-- The time left of the first interval is that of the old one.
unfoldable pub keep_time : List IntervalInfo → ℕ → List IntervalInfo → List IntervalInfo
keep_time old tick [] = []
keep_time [] tick (i ∷ list) = record i { time_left = tick } ∷ list
keep_time (o ∷ old) tick (i ∷ list) = record i { time_left = o.time_left } ∷ list

-- ConditionDamage::addCondition
unfoldable pub add_to_damage : ℕ → Harm → Condition → Damage → Condition → Damage → Condition
add_to_damage now w c d new n =
    if c.type != new.type || not (update_damage c d new n)
    then c
    else (let taken = record d {
      owner = n.owner;
      max_damage = n.max_damage;
      min_damage = n.min_damage;
      start_damage = n.start_damage;
      tick_interval = n.tick_interval;
      period_damage = n.period_damage;
      damage_list = n.damage_list;
    } in
        let r = init now w (with_damage (set_ticks now new.ticks c) taken) taken in
        let timed = record r.2 {
          damage_list = keep_time d.damage_list n.tick_interval (r.2).damage_list;
        } in
        if r.0 then with_damage r.1 (if d.delayed then timed else take_next r.1 timed) else r.1)
