-- ===== src/Conditions/Keys.antt =====
-- The order of the list of conditions under its operations (src/creature.cpp).
use baiak_fonticak.Base.{ℕ, ◌≡◌, refl, sym, ap, subst, ◌∙◌, inl, inr, Bool, true, false, not}
use baiak_fonticak.Base.{◌&&◌, none, List, [], ◌∷◌, ◌++◌, map, arith, All, ◌==◌, Bool-cases}
use baiak_fonticak.Conditions.{Condition}
use baiak_fonticak.Conditions.Codes.{paralyze_type, haste_type}
use baiak_fonticak.Conditions.Bearer.{Creature, World, start_kind, change_speed}
use baiak_fonticak.Conditions.Carrying.{same_key, add_to_first, has_condition, remove_type}
use baiak_fonticak.Conditions.Carrying.{remove_type_id, dismount, on_add_condition}
use baiak_fonticak.Conditions.Carrying.{push_condition, add_condition, execute_conditions}
use baiak_fonticak.Conditions.Marks.{if_both, mark, key}
use baiak_fonticak.Conditions.Steps.{mark-start_kind, mark-add_to}
use baiak_fonticak.Conditions.Cases.{elim_both, IfSome, IfSome-map, IfSome-cases}
use baiak_fonticak.Conditions.Cases.{IfSome-none, IfSome-some, conditions-start_kind}
use baiak_fonticak.Conditions.Orderly.{same_mark, IsFit, IsOrderly, AreOrderly}
use baiak_fonticak.Conditions.Orderly.{IsOrderly-more, map-append, AreOrderly-remove_loop}
use baiak_fonticak.Conditions.Orderly.{AreOrderly-execute_loop}
use baiak_fonticak.Conditions.Changes.{Event, adding, removing, removing_id, executing}
use baiak_fonticak.Conditions.Changes.{apply, apply_all}

-- The list with one condition renewed has the same marks.
pub marks-add_to_first :
    (w : World) (new : Condition) (l : List Condition) (s : Creature)
    → IfSome (λ (r : List Condition × Creature). map mark r.0 ≡ map mark l) (add_to_first w new l s)
unfolding add_to_first
marks-add_to_first w new [] s = IfSome-none (λ (r : List Condition × Creature). map mark r.0 ≡ [])
marks-add_to_first w new (c ∷ l) s =
    let P = λ (m : List Condition). λ (r : List Condition × Creature). map mark r.0 ≡ map mark m in
    if_both (IfSome (P (c ∷ l))) (same_key c new)
      (IfSome-some (P (c ∷ l)) (ap (λ m. m ∷ map mark l) (mark-add_to w c new c.kind s refl)))
      (IfSome-map (P l) (P (c ∷ l)) _ _ (marks-add_to_first w new l s)
        (λ r h. ap (λ ms. mark c ∷ ms) h))

-- Where none is renewed, none has the key.
pub add_to_first-none :
    (w : World) (new : Condition) (l : List Condition) (s : Creature)
    → add_to_first w new l s ≡ none
    → All (λ m. same_mark m (mark new) ≡ false) (map mark l)
unfolding add_to_first same_mark same_key mark key
add_to_first-none w new [] s h = tt
add_to_first-none w new (c ∷ l) s h = elim (Bool-cases (same_key c new)) [
  | inl e ↦ ground arith
  | inr e ↦ (ground arith, add_to_first-none w new l s (ground arith))
]

pub AreOrderly-on_add_condition :
    (w : World) (type : ℕ) (s : Creature)
    → AreOrderly s.conditions
    → AreOrderly (on_add_condition w type s).conditions
unfolding on_add_condition remove_type dismount change_speed
AreOrderly-on_add_condition w type s h =
    let P = λ (r : Creature). AreOrderly r.conditions in
    let calm = if_both P s.is_monster h (
      if_both P (type == paralyze_type && has_condition w haste_type s)
        (AreOrderly-remove_loop w false (λ c. c.type == haste_type) s.conditions [] s h)
        (if_both P (type == haste_type && has_condition w paralyze_type s)
          (AreOrderly-remove_loop w false (λ c. c.type == paralyze_type) s.conditions [] s h) h)) in
    if_both P _ calm calm

pub AreOrderly-push_condition :
    (w : World) (b : Bool) (c : Condition) (t s : Creature)
    → AreOrderly s.conditions
    → IsFit (mark c)
    → All (λ m. same_mark m (mark c) ≡ false) (map mark s.conditions)
    → t.conditions ≡ s.conditions
    → AreOrderly (push_condition w (b, c, t) s).conditions
unfolding push_condition AreOrderly
AreOrderly-push_condition w true c t s h fits apart list = AreOrderly-on_add_condition w c.type _ (
    subst IsOrderly
      (sym (ap (λ l. map mark (l ++ c ∷ [])) list ∙ map-append mark s.conditions (c ∷ [])))
      (IsOrderly-more _ (mark c) h fits apart))
AreOrderly-push_condition w false c t s h fits apart list = subst AreOrderly (sym list) h

pub AreOrderly-add_condition :
    (w : World) (force : Bool) (c : Condition) (s : Creature)
    → IsFit (mark c)
    → AreOrderly s.conditions
    → AreOrderly (add_condition w force c s).conditions
unfolding add_condition AreOrderly
AreOrderly-add_condition w force c s fits h =
    let P = λ (r : Creature). AreOrderly r.conditions in
    let r = start_kind w c c.kind s in
    let e = sym (mark-start_kind w c c.kind s refl) in
    elim_both P
      (not force && c.type == haste_type && has_condition w paralyze_type s && w.is_walking)
      (IfSome-cases P (add_to_first w c s.conditions s) (marks-add_to_first w c s.conditions s)
        (λ p g. subst IsOrderly (sym g) h)
        (λ g.
          AreOrderly-push_condition w r.0 r.1 r.2 s h (subst IsFit e fits)
            (subst (λ m. All (λ n. same_mark n m ≡ false) (map mark s.conditions)) e
              (add_to_first-none w c s.conditions s g))
            (conditions-start_kind w c c.kind s)))
      h

-- A condition that is added fits.
unfoldable pub IsApt : Event → Type 0
IsApt (adding w force c) = IsFit (mark c)
IsApt (removing w force type) = Unit
IsApt (removing_id w force type id) = Unit
IsApt (executing w interval) = Unit

pub AreOrderly-apply :
    (o : Event) (s : Creature)
    → IsApt o
    → AreOrderly s.conditions
    → AreOrderly (apply o s).conditions
unfolding apply IsApt remove_type remove_type_id execute_conditions
AreOrderly-apply (adding w force c) s apt h = AreOrderly-add_condition w force c s apt h
AreOrderly-apply (removing w force type) s apt h =
    AreOrderly-remove_loop w force _ s.conditions [] s h
AreOrderly-apply (removing_id w force type id) s apt h =
    AreOrderly-remove_loop w force _ s.conditions [] s h
AreOrderly-apply (executing w interval) s apt h =
    AreOrderly-execute_loop w interval s.conditions [] s h

-- Where no two conditions of a creature have the same type, id and subId, and each is of the class
-- that is made for its type, this stays so whatever happens to its conditions, as long as those
-- that are added are of the class for their type too.
pub apply_all-AreOrderly :
    (changes : List Event) (s : Creature)
    → All IsApt changes
    → AreOrderly s.conditions
    → AreOrderly (apply_all changes s).conditions
unfolding apply_all
apply_all-AreOrderly [] s apt h = h
apply_all-AreOrderly (o ∷ changes) s apt h =
    apply_all-AreOrderly changes (apply o s) apt.1 (AreOrderly-apply o s apt.0 h)
