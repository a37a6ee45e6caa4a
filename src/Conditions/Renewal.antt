-- ===== src/Conditions/Renewal.antt =====
-- What a new condition of a condition's key changes a value of the creature by (src/condition.cpp,
-- addCondition of the classes).
use baiak_fonticak.Base.Words.{u32, sub_u32}
use baiak_fonticak.Base.{ℕ, ◌+◌, ◌≡◌, refl, sym, ap, ◌∙◌, Bool, true, false, ◌&&◌, ◌||◌}
use baiak_fonticak.Base.{arith, ltb, ◌==◌, ◌!=◌, if◌then◌else◌}
use baiak_fonticak.Conditions.{Attributes, Speed, Kind, generic, invisible, spell_cooldown}
use baiak_fonticak.Conditions.{spell_group_cooldown, attributes, regeneration, soul, damage}
use baiak_fonticak.Conditions.{speed, outfit, light, drunk, Condition, minus_one}
use baiak_fonticak.Conditions.Bearer.{Creature, World, with_percent, drawn, change_speed}
use baiak_fonticak.Conditions.Bearer.{end_attributes}
use baiak_fonticak.Conditions.Renewing.{replace_attributes, replace_speed, add_to}
use baiak_fonticak.Conditions.Renewing.{copy_attributes}
use baiak_fonticak.Conditions.Lasting.{update_condition, is_positive}
use baiak_fonticak.Conditions.Casting.{as_attributes, as_regeneration, as_soul, as_damage}
use baiak_fonticak.Conditions.Casting.{as_speed, as_outfit, as_light, as_drunk}
use baiak_fonticak.Conditions.Marks.{class, if_both}
use baiak_fonticak.Conditions.Steps.{option_both, mark-add_to}
use baiak_fonticak.Conditions.Gauges.{Gauge, part, player-end_attributes}
use baiak_fonticak.Conditions.Shares.{has_part, part-other, part-became}

module _ (g : Gauge) where
  -- The creature's value and the condition's part change by the same.
  abbrev pub Even : Creature → Kind → Condition × Creature → Type 0
  Even s k r =
      u32 (g.total r.1 + part g s.is_player k) ≡ u32 (g.total s + part g s.is_player r.0.kind)

  pub added_lightly :
      (w : World) (c new : Condition) (k : Kind) (s : Creature)
      → c.kind ≡ k
      → has_part (class k) ≡ false
      → g.total (add_to w c new k s).1 ≡ g.total s
      → Even s k (add_to w c new k s)
  added_lightly w c new k s h bare same =
      let before = part-other g s.is_player k bare in
      let after = part-became g s.is_player c _ k h (mark-add_to w c new k s h) bare in omega arith

  pub Even-self : (s : Creature) (c : Condition) (k : Kind) → c.kind ≡ k → Even s k (c, s)
  Even-self s c k h = ap (λ l. u32 (g.total s + part g s.is_player l)) (sym h)

  pub Even-replace_attributes :
      (w : World) (c new : Condition) (a n : Attributes) (s : Creature)
      → Even s (attributes a) (replace_attributes w c new a n s)
  unfolding replace_attributes part
  Even-replace_attributes w c new a n s =
      let filled = with_percent w s (copy_attributes a n) in
      let taken = g.total-end_attributes a s in
      let added = g.total-add_attributes filled (end_attributes a s) in
      let player = ap (λ p. g.weigh p filled) (player-end_attributes a s) in omega arith

  pub total-choice :
      (b : Bool) (change : ℕ) (s : Creature)
      → (b ≡ false → change ≡ 0)
      → u32 (g.total (if b then change_speed change s else s))
        ≡ u32 (g.total s + g.weigh_speed change)
  total-choice true change s h = g.total-change_speed change s
  total-choice false change s h =
      let nothing = ap g.weigh_speed (h refl) ∙ g.weigh_speed-zero in omega arith

  pub Even-replace_speed :
      (w : World) (c new : Condition) (v n : Speed) (s : Creature)
      → c.kind ≡ speed v
      → Even s (speed v) (replace_speed w c new v n s)
  unfolding replace_speed part
  Even-replace_speed w c new v n s h =
      let fast = drawn w n in
      let change = sub_u32 fast.speed_delta v.speed_delta in
      let moved = total-choice (change != 0) change s (λ e. ground arith) in
      let weight = g.weigh_speed-sub fast.speed_delta v.speed_delta in
      let before = g.weigh_speed v.speed_delta in
      let even : u32 (g.total (if change != 0 then change_speed change s else s) + before)
          ≡ u32 (g.total s + g.weigh_speed fast.speed_delta) =
        omega arith in
      if_both (Even s (speed v))
        (c.type != new.type || c.ticks == minus_one && is_positive new.ticks)
        (Even-self s c (speed v) h) even

  -- The total is that of `s`.
  abbrev pub Totalled : Creature → Condition × Creature → Type 0
  Totalled s r = g.total r.1 ≡ g.total s

  pub total-add_to :
      (w : World) (c new : Condition) (k : Kind) (s : Creature)
      → c.kind ≡ k
      → Even s k (add_to w c new k s)
  unfolding add_to class has_part
  total-add_to w c new generic s h = added_lightly w c new generic s h refl refl
  total-add_to w c new invisible s h = added_lightly w c new invisible s h refl refl
  total-add_to w c new spell_cooldown s h = added_lightly w c new spell_cooldown s h refl refl
  total-add_to w c new spell_group_cooldown s h =
      added_lightly w c new spell_group_cooldown s h refl refl
  total-add_to w c new (attributes a) s h =
      option_both (Even s (attributes a)) (as_attributes new.kind) (Even-self s c (attributes a) h)
        (λ n.
          if_both (Even s (attributes a)) (update_condition w.now c new)
            (Even-replace_attributes w c new a n s) (Even-self s c (attributes a) h))
  total-add_to w c new (regeneration r) s h =
      added_lightly w c new (regeneration r) s h refl
        (option_both (Totalled s) (as_regeneration new.kind) refl (λ n. refl))
  total-add_to w c new (soul v) s h =
      added_lightly w c new (soul v) s h refl
        (option_both (Totalled s) (as_soul new.kind) refl (λ n. refl))
  total-add_to w c new (damage d) s h =
      added_lightly w c new (damage d) s h refl
        (option_both (Totalled s) (as_damage new.kind) refl (λ n. refl))
  total-add_to w c new (speed v) s h =
      option_both (Even s (speed v)) (as_speed new.kind) (Even-self s c (speed v) h)
        (λ n. Even-replace_speed w c new v n s h)
  total-add_to w c new (outfit o) s h =
      added_lightly w c new (outfit o) s h refl
        (option_both (Totalled s) (as_outfit new.kind) refl (λ n. refl))
  total-add_to w c new (light l) s h =
      added_lightly w c new (light l) s h refl
        (option_both (Totalled s) (as_light new.kind) refl (λ n. refl))
  total-add_to w c new (drunk n) s h = added_lightly w c new (drunk n) s h refl (
      option_both (Totalled s) (as_drunk new.kind) refl
        (λ m. if_both (Totalled s) (ltb n m) (g.total-drunkenness s m) refl))
