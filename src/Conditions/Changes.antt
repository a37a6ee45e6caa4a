-- ===== src/Conditions/Changes.antt =====
-- What happens to the conditions of a creature over its time (src/creature.cpp): each change with
-- the world that it finds.
use baiak_fonticak.Base.{ℕ, Bool, List, [], ◌∷◌, ◌≡◌, refl, ◌∙◌}
use baiak_fonticak.Conditions.{Condition}
use baiak_fonticak.Conditions.Bearer.{Creature, World}
use baiak_fonticak.Conditions.Carrying.{add_condition, remove_type, remove_type_id}
use baiak_fonticak.Conditions.Carrying.{execute_conditions}
use baiak_fonticak.Conditions.Gauges.{Gauge}
use baiak_fonticak.Conditions.Values.{speed_gauge, skill_gauge, special_skill_gauge}
use baiak_fonticak.Conditions.Values.{stat_gauge}
use baiak_fonticak.Conditions.Balance.{own, own-add_condition, own-remove_type}
use baiak_fonticak.Conditions.Balance.{own-remove_type_id, own-execute_loop}

pub data Event : Type 0 where
  adding : World → Bool → Condition → Event
  removing : World → Bool → ℕ → Event
  removing_id : World → Bool → ℕ → ℕ → Event
  executing : World → ℕ → Event

unfoldable pub apply : Event → Creature → Creature
apply (adding w force c) s = add_condition w force c s
apply (removing w force type) s = remove_type w force type s
apply (removing_id w force type id) s = remove_type_id w force type id s
apply (executing w interval) s = execute_conditions w interval s

unfoldable pub apply_all : List Event → Creature → Creature
apply_all [] s = s
apply_all (o ∷ changes) s = apply_all changes (apply o s)

pub own-apply : (g : Gauge) (o : Event) (s : Creature) → own g (apply o s) ≡ own g s
unfolding apply own execute_conditions
own-apply g (adding w force c) s = own-add_condition g w force c s
own-apply g (removing w force type) s = own-remove_type g w force type s
own-apply g (removing_id w force type id) s = own-remove_type_id g w force type id s
own-apply g (executing w interval) s = own-execute_loop g w interval s.conditions [] s

pub own-apply_all :
    (g : Gauge) (changes : List Event) (s : Creature) → own g (apply_all changes s) ≡ own g s
unfolding apply_all
own-apply_all g [] s = refl
own-apply_all g (o ∷ changes) s = own-apply_all g changes (apply o s) ∙ own-apply g o s

-- Whatever happens to the conditions of a creature, in any order and at any times, what it has
-- without them stays as it was: its speed less that of its mount and of its conditions, and for a
-- player each skill, special skill and stat less what its conditions add to it, all as words of
-- 32 bits.
pub apply_all-balance :
    (changes : List Event) (s : Creature) (i : ℕ)
    → (own speed_gauge (apply_all changes s) ≡ own speed_gauge s)
      × (own (skill_gauge i) (apply_all changes s) ≡ own (skill_gauge i) s)
      × (own (special_skill_gauge i) (apply_all changes s) ≡ own (special_skill_gauge i) s)
      × (own (stat_gauge i) (apply_all changes s) ≡ own (stat_gauge i) s)
apply_all-balance changes s i = (
  own-apply_all speed_gauge changes s,
  own-apply_all (skill_gauge i) changes s,
  own-apply_all (special_skill_gauge i) changes s,
  own-apply_all (stat_gauge i) changes s,
)
