-- ===== src/Conditions/Values.antt =====
-- The speed, and one of the skills, special skills and stats, as values that conditions change
-- (src/condition.cpp, updateSkills, updateStats, changeSpeed and endCondition).
use baiak_fonticak.Conditions.Bearer.{sub_array, add_array, Creature, change_speed, add_at}
use baiak_fonticak.Conditions.Bearer.{sub_at, add_attributes, sub_skills, end_attributes}
use baiak_fonticak.Base.{inl, inr, Bool-cases, refl, ◌+◌, ℕ, ◌≡◌, Bool, arith, get_or}
use baiak_fonticak.Base.{if◌then◌else◌}
use baiak_fonticak.Base.Words.{u32, sub_u32}
use baiak_fonticak.Conditions.{Attributes}
use baiak_fonticak.Conditions.Carrying.{dismount}
use baiak_fonticak.Conditions.Marks.{if_both}
use baiak_fonticak.Conditions.Gauges.{Gauge}

-- Without the speed of the mount.
unfoldable pub walking_speed : Creature → ℕ
walking_speed s = sub_u32 s.var_speed s.mount_speed

-- The value of a player; others have none.
unfoldable pub of_player : Bool → ℕ → ℕ
of_player p v = if p then v else 0

pub speed_gauge : Gauge
unfolding walking_speed dismount change_speed add_attributes end_attributes
speed_gauge = record {
  total = walking_speed;
  weigh = λ p a. 0;
  weigh_speed = λ v. v;
  total-conditions = λ s l. refl;
  total-use_defense = λ s b. refl;
  total-drunkenness = λ s n. refl;
  total-dismount = λ s. omega arith;
  total-change_speed = λ d s. omega arith;
  total-add_attributes = λ a s.
      if_both (λ (r : Creature). u32 (walking_speed r) ≡ u32 (walking_speed s + 0)) s.is_player
        (omega arith) (omega arith);
  total-end_attributes = λ a s.
      let P = λ (r : Creature). u32 (walking_speed r + 0) ≡ u32 (walking_speed s) in
      let taken : P (if s.is_player then _ else s) =
        if_both P s.is_player (omega arith) (omega arith) in
      if_both P a.disable_defense taken taken;
  weigh_speed-sub = λ a b. omega arith;
  weigh_speed-zero = refl;
}

pub add_at-total : (x v : ℕ) → u32 (add_at x v) ≡ u32 (v + x)
unfolding add_at
add_at-total x v = ground arith

pub sub_at-total : (x v : ℕ) → u32 (sub_at x v + x) ≡ u32 v
unfolding sub_at
sub_at-total x v = ground arith

pub sub_skills-total :
    (a : Attributes) (f : ℕ → ℕ) (i : ℕ) → u32 (sub_skills a f i + get_or a.skills i 0) ≡ u32 (f i)
unfolding sub_skills
sub_skills-total a f i = ground arith

pub skill_gauge : ℕ → Gauge
unfolding of_player dismount change_speed add_attributes end_attributes add_array
skill_gauge i = record {
  total = λ s. of_player s.is_player (s.var_skills i);
  weigh = λ p a. of_player p (get_or a.skills i 0);
  weigh_speed = λ v. 0;
  total-conditions = λ s l. refl;
  total-use_defense = λ s b. refl;
  total-drunkenness = λ s n. refl;
  total-dismount = λ s. refl;
  total-change_speed = λ d s. omega arith;
  total-add_attributes = λ a s.
      (let e = add_at-total (get_or a.skills i 0) (s.var_skills i) in
        elim (Bool-cases s.is_player) [ inl h ↦ ground arith | inr h ↦ ground arith ]);
  total-end_attributes = λ a s.
      (let e = sub_skills-total a s.var_skills i in
        elim (Bool-cases s.is_player) [ inl h ↦ ground arith | inr h ↦ ground arith ]);
  weigh_speed-sub = λ a b. refl;
  weigh_speed-zero = refl;
}

pub special_skill_gauge : ℕ → Gauge
unfolding of_player dismount change_speed add_attributes end_attributes add_array sub_array
special_skill_gauge i = record {
  total = λ s. of_player s.is_player (s.var_special_skills i);
  weigh = λ p a. of_player p (get_or a.special_skills i 0);
  weigh_speed = λ v. 0;
  total-conditions = λ s l. refl;
  total-use_defense = λ s b. refl;
  total-drunkenness = λ s n. refl;
  total-dismount = λ s. refl;
  total-change_speed = λ d s. omega arith;
  total-add_attributes = λ a s.
      (let e = add_at-total (get_or a.special_skills i 0) (s.var_special_skills i) in
        elim (Bool-cases s.is_player) [ inl h ↦ ground arith | inr h ↦ ground arith ]);
  total-end_attributes = λ a s.
      (let e = sub_at-total (get_or a.special_skills i 0) (s.var_special_skills i) in
        elim (Bool-cases s.is_player) [ inl h ↦ ground arith | inr h ↦ ground arith ]);
  weigh_speed-sub = λ a b. refl;
  weigh_speed-zero = refl;
}

pub stat_gauge : ℕ → Gauge
unfolding of_player dismount change_speed add_attributes end_attributes add_array sub_array
stat_gauge i = record {
  total = λ s. of_player s.is_player (s.var_stats i);
  weigh = λ p a. of_player p (get_or a.stats i 0);
  weigh_speed = λ v. 0;
  total-conditions = λ s l. refl;
  total-use_defense = λ s b. refl;
  total-drunkenness = λ s n. refl;
  total-dismount = λ s. refl;
  total-change_speed = λ d s. omega arith;
  total-add_attributes = λ a s.
      (let e = add_at-total (get_or a.stats i 0) (s.var_stats i) in
        elim (Bool-cases s.is_player) [ inl h ↦ ground arith | inr h ↦ ground arith ]);
  total-end_attributes = λ a s.
      (let e = sub_at-total (get_or a.stats i 0) (s.var_stats i) in
        elim (Bool-cases s.is_player) [ inl h ↦ ground arith | inr h ↦ ground arith ]);
  weigh_speed-sub = λ a b. refl;
  weigh_speed-zero = refl;
}
