-- ===== src/Conditions.antt =====
-- Conditions of creatures (src/condition.h, src/condition.cpp). Signed fields are the bits of
-- their words, and a float is the bits of its four bytes.
pub mod Codes
pub mod Writing
pub mod Creating
pub mod Reading
pub mod Loading
pub mod Fields
pub mod Restoring
pub mod Kinds
pub mod Arrays
pub mod Single
pub mod RoundTrip
pub mod Lasting
pub mod Damaging
pub mod Bearer
pub mod Casting
pub mod Renewing
pub mod Carrying
pub mod Marks
pub mod Steps
pub mod Gauges
pub mod Shares
pub mod Renewal
pub mod Values
pub mod Cases
pub mod Balance
pub mod Changes
pub mod Orderly
pub mod Keys
pub mod Expiry
pub mod Params
pub mod Setting
pub mod Made
mod Examples
use baiak_fonticak.Conditions.Codes.{muted_type}
use baiak_fonticak.Base.{ℕ, zero, suc, ◌+◌, ◌-◌, ◌*◌, ◌/◌, ◌%◌, ◌^◌, ◌≤◌, ◌<◌, min, max}
use baiak_fonticak.Base.{bit_and, bit_or, bit_xor, String, ◌≡◌, refl, sym, ap, ap₂, subst}
use baiak_fonticak.Base.{fun_ext, ◌∙◌, ◌≢◌, ◌↔◌, ◌⊎◌, inl, inr, Bool, true, false, not, ◌&&◌}
use baiak_fonticak.Base.{◌||◌, Option, none, some, option_map, List, [], ◌∷◌, ◌++◌, map}
use baiak_fonticak.Base.{append-nil, append_assoc, arith, str_eq, length, is_empty}
use baiak_fonticak.Base.{get_elem?, set, get_or, take, drop, length-append, take_prefix}
use baiak_fonticak.Base.{drop_prefix, take-append-drop, length-take-le, length-drop-le}
use baiak_fonticak.Base.{length-set, All, contains, erase_first, IsDistinct, count-append}
use baiak_fonticak.Base.{contains-iff-count, count-erase_first, length-erase_first-le}
use baiak_fonticak.Base.{same_bytes, same_bytes_self, same_bytes_lem, ltb, leb, ◌==◌, ◌!=◌}
use baiak_fonticak.Base.{if◌then◌else◌, ltb→lt, lt→ltb, leb→le, le→leb, lt→leb_false}
use baiak_fonticak.Base.{lt→ltb_false, ==_iff, ==_self, tests, Bool-cases, Option-cases}

-- ConditionAttributes; the arrays go by skills_t, SpecialSkills_t and stats_t.
pub record Attributes : Type 0 where
  pub skills : List ℕ
  pub skills_percent : List ℕ
  pub special_skills : List ℕ
  pub stats : List ℕ
  pub stats_percent : List ℕ
  pub current_skill : ℕ
  pub current_special_skill : ℕ
  pub current_stat : ℕ
  pub disable_defense : Bool

-- ConditionRegeneration
pub record Regeneration : Type 0 where
  pub internal_health_ticks : ℕ
  pub internal_mana_ticks : ℕ
  pub health_ticks : ℕ
  pub mana_ticks : ℕ
  pub health_gain : ℕ
  pub mana_gain : ℕ

-- ConditionSoul
pub record Soul : Type 0 where
  pub internal_soul_ticks : ℕ
  pub soul_ticks : ℕ
  pub soul_gain : ℕ

pub record IntervalInfo : Type 0 where
  pub time_left : ℕ
  pub value : ℕ
  pub interval : ℕ

-- ConditionDamage
pub record Damage : Type 0 where
  pub max_damage : ℕ
  pub min_damage : ℕ
  pub start_damage : ℕ
  pub period_damage : ℕ
  pub period_damage_tick : ℕ
  pub tick_interval : ℕ
  pub init_damage : ℕ
  pub force_update : Bool
  pub delayed : Bool
  pub field : Bool
  pub owner : ℕ
  pub damage_list : List IntervalInfo

-- ConditionSpeed
pub record Speed : Type 0 where
  pub speed_delta : ℕ
  pub mina : ℕ
  pub minb : ℕ
  pub maxa : ℕ
  pub maxb : ℕ

-- ConditionLight
pub record Light : Type 0 where
  pub level : ℕ
  pub color : ℕ
  pub internal_light_ticks : ℕ
  pub light_change_interval : ℕ

-- The classes of conditions with the fields of their own. An outfit is the number in the bytes of
-- its struct. The classes ConditionGeneric, ConditionInvisible, ConditionSpellCooldown and
-- ConditionSpellGroupCooldown have no fields of their own.
pub data Kind : Type 0 where
  generic : Kind
  invisible : Kind
  spell_cooldown : Kind
  spell_group_cooldown : Kind
  attributes : Attributes → Kind
  regeneration : Regeneration → Kind
  soul : Soul → Kind
  damage : Damage → Kind
  speed : Speed → Kind
  outfit : ℕ → Kind
  light : Light → Kind
  drunk : ℕ → Kind

pub record Condition : Type 0 where
  pub id : ℕ
  pub type : ℕ
  pub ticks : ℕ
  pub end_time : ℕ
  pub is_buff : Bool
  pub sub_id : ℕ
  pub aggressive : Bool
  pub kind : Kind

-- The bits of -1.
abbrev pub minus_one : ℕ
minus_one = 2 ^ 32 - 1

-- An int32_t as int64_t.
unfoldable pub to_int64 : ℕ → ℕ
to_int64 t = if ltb t (2 ^ 31) then t else t + (2 ^ 64 - 2 ^ 32)

-- setTicks, at the time `now`.
unfoldable pub set_ticks : ℕ → ℕ → Condition → Condition
set_ticks now new_ticks c = record c {
  ticks = new_ticks;
  end_time = (to_int64 new_ticks + now) % 2 ^ 64;
}

-- isPersistent; CONDITIONID_DEFAULT is -1 in a byte and CONDITIONID_COMBAT is 0.
unfoldable pub is_persistent : Condition → Bool
is_persistent c =
    if c.ticks == minus_one then false else c.id == 255 || c.id == 0 || c.type == muted_type
