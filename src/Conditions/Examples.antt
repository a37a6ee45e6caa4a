-- ===== src/Conditions/Examples.antt =====
-- The theorems on conditions at concrete inputs.
use baiak_fonticak.Base.{◌-◌, ◌^◌, ℕ, ◌≡◌, refl, true, false, some, List, [], ◌∷◌, map}
use baiak_fonticak.Base.{arith, All}
use mathlib.Core.List.{reverse}
use baiak_fonticak.Conditions.Setting.{set_params}
use baiak_fonticak.Conditions.Made.{set_params-IsFit}
use baiak_fonticak.Conditions.Params.{speed_param, subid_param}
use baiak_fonticak.Conditions.Renewing.{with_kind}
use baiak_fonticak.Conditions.Creating.{create_condition, new_condition, ticks_of}
use baiak_fonticak.Conditions.Creating.{aggressive_of, create_kind}
use baiak_fonticak.Conditions.{Kind, regeneration, damage, speed, outfit, Condition}
use baiak_fonticak.Conditions.{minus_one}
use baiak_fonticak.Conditions.Codes.{poison_type, haste_type, outfit_type, regeneration_type}
use baiak_fonticak.Conditions.Bearer.{Creature, World}
use baiak_fonticak.Conditions.Writing.{save_conditions, kind_fields, intervals, of_interval}
use baiak_fonticak.Conditions.Writing.{of_bool}
use baiak_fonticak.Conditions.Loading.{load_conditions}
use baiak_fonticak.Conditions.Restoring.{restored, blank, IsKindSound, total}
use baiak_fonticak.Conditions.RoundTrip.{persistent, load-save}
use baiak_fonticak.Conditions.Carrying.{execute_conditions}
use baiak_fonticak.Conditions.Changes.{Event, adding, removing, executing, apply_all}
use baiak_fonticak.Conditions.Changes.{apply_all-balance}
use baiak_fonticak.Conditions.Balance.{own}
use baiak_fonticak.Conditions.Values.{speed_gauge, skill_gauge, special_skill_gauge}
use baiak_fonticak.Conditions.Values.{stat_gauge}
use baiak_fonticak.Conditions.Orderly.{AreOrderly, IsOrderly, IsFit, same_mark}
use baiak_fonticak.Conditions.Marks.{mark, key, class}
use baiak_fonticak.Conditions.Single.{IsSound}
use baiak_fonticak.Conditions.Keys.{IsApt, apply_all-AreOrderly}
use baiak_fonticak.Conditions.Expiry.{keep, is_lasting, executed, execute_conditions_lem}

abbrev with_ticks : ℕ → ℕ → Kind → Condition
with_ticks type ticks k = record {
  id = 0;
  type = type;
  ticks = ticks;
  end_time = 0;
  is_buff = false;
  sub_id = 0;
  aggressive = true;
  kind = k;
}

-- A regeneration, a poison with two intervals, a haste, and one without end that is not saved.
abbrev food : Condition
food = with_ticks regeneration_type 60000 (
    regeneration (record {
      internal_health_ticks = 0;
      internal_mana_ticks = 0;
      health_ticks = 6000;
      mana_ticks = 3000;
      health_gain = 1;
      mana_gain = 2;
    }))

abbrev poison : Condition
poison = with_ticks poison_type 4000 (
    damage (record {
      max_damage = 0;
      min_damage = 0;
      start_damage = 0;
      period_damage = 0;
      period_damage_tick = 0;
      tick_interval = 2000;
      init_damage = 0;
      force_update = false;
      delayed = true;
      field = false;
      owner = 0;
      damage_list =
          record { time_left = 2000; value = 4294967291; interval = 2000 }
          ∷ record { time_left = 2000; value = 4294967292; interval = 2000 }
          ∷ [];
    }))

abbrev haste : Condition
haste =
    with_ticks haste_type 10000
      (speed (record { speed_delta = 80; mina = 0; minb = 0; maxa = 0; maxb = 0 }))

abbrev forever : Condition
forever = with_ticks outfit_type minus_one (outfit 128)

food-IsSound : IsSound food
unfolding create_kind blank kind_fields IsKindSound
food-IsSound = record {
  known = refl;
  id_fits = omega arith;
  type_fits = omega arith;
  ticks_fit = omega arith;
  sub_id_fits = omega arith;
  fields_fit = ground arith;
  kind_sound = tt;
}

poison-IsSound : IsSound poison
unfolding create_kind blank kind_fields IsKindSound intervals of_interval total of_bool
poison-IsSound = record {
  known = refl;
  id_fits = omega arith;
  type_fits = omega arith;
  ticks_fit = omega arith;
  sub_id_fits = omega arith;
  fields_fit = ground arith;
  kind_sound = ground arith;
}

forever-IsSound : IsSound forever
unfolding create_kind blank kind_fields IsKindSound
forever-IsSound = record {
  known = refl;
  id_fits = omega arith;
  type_fits = omega arith;
  ticks_fit = omega arith;
  sub_id_fits = omega arith;
  fields_fit = ground arith;
  kind_sound = tt;
}

load-save_example :
    load_conditions 1000 5 (save_conditions (food ∷ poison ∷ forever ∷ []) []) []
    ≡ some (reverse (map (restored 1000) (persistent (food ∷ poison ∷ forever ∷ []))))
load-save_example =
    load-save 1000 5 (food ∷ poison ∷ forever ∷ [])
      (food-IsSound, (poison-IsSound, (forever-IsSound, tt))) (omega arith)

abbrev walker : Creature
walker = record {
  conditions = haste ∷ food ∷ [];
  is_player = true;
  is_monster = false;
  var_speed = 300;
  var_skills = λ i. 0;
  var_special_skills = λ i. 0;
  var_stats = λ i. 0;
  use_defense = true;
  drunkenness = 0;
  mount_speed = 20;
}

abbrev town : World
town = record {
  now = 50000;
  is_suppress = λ type. false;
  is_walking = false;
  in_protection = true;
  draw = λ v. 40;
  percent = λ a. a;
  harm = record {
    amount = λ d. 0;
    generate = λ amount start. [];
    hit = λ c v. true;
    stays = λ type b. b;
  };
}

abbrev day : List Event
day = executing town 1000 ∷ adding town false poison ∷ removing town true haste_type ∷ []

apply_all-balance_example :
    (own speed_gauge (apply_all day walker) ≡ own speed_gauge walker)
    × (own (skill_gauge 2) (apply_all day walker) ≡ own (skill_gauge 2) walker)
    × (own (special_skill_gauge 2) (apply_all day walker) ≡ own (special_skill_gauge 2) walker)
    × (own (stat_gauge 2) (apply_all day walker) ≡ own (stat_gauge 2) walker)
apply_all-balance_example = apply_all-balance day walker 2

-- The classes are those of the types, and the keys differ.
walker-AreOrderly : AreOrderly walker.conditions
unfolding AreOrderly IsOrderly IsFit same_mark mark key class create_kind
walker-AreOrderly = (refl, (refl, tt), (refl, tt, tt))

day-IsApt : All IsApt day
unfolding IsApt IsFit mark key class create_kind
day-IsApt = (tt, (refl, (tt, tt)))

apply_all-AreOrderly_example : AreOrderly (apply_all day walker).conditions
apply_all-AreOrderly_example = apply_all-AreOrderly day walker day-IsApt walker-AreOrderly

execute_conditions_lem_example :
    (execute_conditions town 1000 walker).conditions
    ≡ keep (is_lasting 50000) (map (executed town 1000 true) (haste ∷ food ∷ []))
execute_conditions_lem_example = execute_conditions_lem town 1000 walker

abbrev new_haste : Condition
new_haste =
    with_kind (record haste { ticks = 2000 })
      (speed (record { speed_delta = 0; mina = 0; minb = 0; maxa = 0; maxb = 0 }))

made : create_condition 0 haste_type 2000 0 false 0 true ≡ some new_haste
unfolding create_condition create_kind new_condition ticks_of aggressive_of
made = refl

-- A haste whose speed is set to -40, which makes it a paralysis, and then its subId to 3.
set_params-IsFit_example :
    IsFit (mark (set_params ((speed_param, 2 ^ 32 - 40) ∷ (subid_param, 3) ∷ []) new_haste))
set_params-IsFit_example =
    set_params-IsFit 0 haste_type 2000 0 false 0 true new_haste
      ((speed_param, 2 ^ 32 - 40) ∷ (subid_param, 3) ∷ []) made
