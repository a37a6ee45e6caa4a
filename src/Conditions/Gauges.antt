-- ===== src/Conditions/Gauges.antt =====
-- A value of a creature that its conditions change, and what each of them adds to it
-- (src/condition.cpp): the interface that the value's own parts fill.
use baiak_fonticak.Base.Words.{sub_u32, u32}
use baiak_fonticak.Conditions.Lasting.{update_condition}
use baiak_fonticak.Base.{ℕ, ◌+◌, ◌≡◌, refl, ◌∙◌, Bool, List, ltb, if◌then◌else◌}
use baiak_fonticak.Conditions.{Attributes, Kind, generic, invisible, spell_cooldown}
use baiak_fonticak.Conditions.{spell_group_cooldown, attributes, regeneration, soul, damage}
use baiak_fonticak.Conditions.{speed, outfit, light, drunk, Condition}
use baiak_fonticak.Conditions.Bearer.{Creature, World, start_kind, end_kind, change_speed}
use baiak_fonticak.Conditions.Bearer.{add_attributes, end_attributes}
use baiak_fonticak.Conditions.Carrying.{dismount}
use baiak_fonticak.Conditions.Renewing.{replace_attributes, replace_speed, add_to}
use baiak_fonticak.Conditions.Casting.{as_attributes, as_regeneration, as_soul, as_damage}
use baiak_fonticak.Conditions.Casting.{as_speed, as_outfit, as_light, as_drunk}
use baiak_fonticak.Conditions.Marks.{if_both}
use baiak_fonticak.Conditions.Steps.{option_both}

-- The value without what does not come from conditions, the part of a condition on attributes
-- and of a change of speed in it, and that the operations on the creature change it by these.
pub record Gauge : Type 0 where
  pub total : Creature → ℕ
  pub weigh : Bool → Attributes → ℕ
  pub weigh_speed : ℕ → ℕ
  pub total-conditions :
      (s : Creature) (l : List Condition) → total (record s { conditions = l }) ≡ total s
  pub total-use_defense : (s : Creature) (b : Bool) → total (record s { use_defense = b }) ≡ total s
  pub total-drunkenness : (s : Creature) (n : ℕ) → total (record s { drunkenness = n }) ≡ total s
  pub total-dismount : (s : Creature) → u32 (total (dismount s)) ≡ u32 (total s)
  pub total-change_speed :
      (d : ℕ) (s : Creature) → u32 (total (change_speed d s)) ≡ u32 (total s + weigh_speed d)
  pub total-add_attributes :
      (a : Attributes) (s : Creature)
      → u32 (total (add_attributes a s)) ≡ u32 (total s + weigh s.is_player a)
  pub total-end_attributes :
      (a : Attributes) (s : Creature)
      → u32 (total (end_attributes a s) + weigh s.is_player a) ≡ u32 (total s)
  pub weigh_speed-sub :
      (a b : ℕ) → u32 (weigh_speed (sub_u32 a b) + weigh_speed b) ≡ u32 (weigh_speed a)
  pub weigh_speed-zero : weigh_speed 0 ≡ 0

-- The part that a condition has.
unfoldable pub part : Gauge → Bool → Kind → ℕ
part g p generic = 0
part g p invisible = 0
part g p spell_cooldown = 0
part g p spell_group_cooldown = 0
part g p (attributes a) = g.weigh p a
part g p (regeneration r) = 0
part g p (soul v) = 0
part g p (damage d) = 0
part g p (speed v) = g.weigh_speed v.speed_delta
part g p (outfit o) = 0
part g p (light l) = 0
part g p (drunk n) = 0

-- Whether a creature is a player stays.
pub player-add_attributes :
    (a : Attributes) (s : Creature) → (add_attributes a s).is_player ≡ s.is_player
unfolding add_attributes
player-add_attributes a s =
    if_both (λ (r : Creature). r.is_player ≡ s.is_player) s.is_player refl refl

pub player-end_attributes :
    (a : Attributes) (s : Creature) → (end_attributes a s).is_player ≡ s.is_player
unfolding end_attributes
player-end_attributes a s =
    let P = λ (r : Creature). r.is_player ≡ s.is_player in
    let taken : P (if s.is_player then _ else s) = if_both P s.is_player refl refl in
    if_both P a.disable_defense taken taken

pub player-end_kind : (k : Kind) (s : Creature) → (end_kind k s).is_player ≡ s.is_player
unfolding end_kind change_speed
player-end_kind generic s = refl
player-end_kind invisible s = refl
player-end_kind spell_cooldown s = refl
player-end_kind spell_group_cooldown s = refl
player-end_kind (attributes a) s = player-end_attributes a s
player-end_kind (regeneration r) s = refl
player-end_kind (soul v) s = refl
player-end_kind (damage d) s = refl
player-end_kind (speed v) s = refl
player-end_kind (outfit o) s = refl
player-end_kind (light l) s = refl
player-end_kind (drunk n) s = refl

pub player-start_kind :
    (w : World) (c : Condition) (k : Kind) (s : Creature)
    → (start_kind w c k s).2.is_player ≡ s.is_player
unfolding start_kind change_speed
player-start_kind w c generic s = refl
player-start_kind w c invisible s = refl
player-start_kind w c spell_cooldown s = refl
player-start_kind w c spell_group_cooldown s = refl
player-start_kind w c (attributes a) s = player-add_attributes _ _
player-start_kind w c (regeneration r) s = refl
player-start_kind w c (soul v) s = refl
player-start_kind w c (damage d) s = refl
player-start_kind w c (speed v) s = refl
player-start_kind w c (outfit o) s = refl
player-start_kind w c (light l) s = refl
player-start_kind w c (drunk n) s = refl

abbrev pub SamePlayer : Creature → Condition × Creature → Type 0
SamePlayer s r = r.1.is_player ≡ s.is_player

pub player-add_to :
    (w : World) (c new : Condition) (k : Kind) (s : Creature)
    → (add_to w c new k s).1.is_player ≡ s.is_player
unfolding add_to replace_attributes replace_speed change_speed
player-add_to w c new generic s = refl
player-add_to w c new invisible s = refl
player-add_to w c new spell_cooldown s = refl
player-add_to w c new spell_group_cooldown s = refl
player-add_to w c new (attributes a) s =
    option_both (SamePlayer s) (as_attributes new.kind) refl (λ n.
      if_both (SamePlayer s) (update_condition w.now c new)
        (player-add_attributes _ _ ∙ player-end_attributes a s) refl)
player-add_to w c new (regeneration r) s =
    option_both (SamePlayer s) (as_regeneration new.kind) refl (λ n. refl)
player-add_to w c new (soul v) s = option_both (SamePlayer s) (as_soul new.kind) refl (λ n. refl)
player-add_to w c new (damage d) s =
    option_both (SamePlayer s) (as_damage new.kind) refl (λ n. refl)
player-add_to w c new (speed v) s = option_both (SamePlayer s) (as_speed new.kind) refl (λ n.
    if_both (SamePlayer s) _ refl
      (if_both (λ (r : Creature). r.is_player ≡ s.is_player) _ refl refl))
player-add_to w c new (outfit o) s =
    option_both (SamePlayer s) (as_outfit new.kind) refl (λ n. refl)
player-add_to w c new (light l) s = option_both (SamePlayer s) (as_light new.kind) refl (λ n. refl)
player-add_to w c new (drunk n) s =
    option_both (SamePlayer s) (as_drunk new.kind) refl
      (λ m. if_both (SamePlayer s) (ltb n m) refl refl)
