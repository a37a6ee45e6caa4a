-- ===== src/Conditions/Marks.antt =====
-- What changes to a condition keep: its type, id, subId and class (src/condition.cpp).
use baiak_fonticak.Base.{ℕ, zero, suc, ◌≡◌, refl, sym, ap, ◌∙◌, Bool, true, false, not, ◌&&◌}
use baiak_fonticak.Base.{◌||◌, List, [], ◌∷◌, is_empty, ◌==◌, ◌!=◌, if◌then◌else◌}
use baiak_fonticak.Conditions.Lasting.{start_base, execute_base, is_positive}
use baiak_fonticak.Conditions.Damaging.{Harm, with_damage, longer, add_rounds, add_damage}
use baiak_fonticak.Conditions.Damaging.{add_all, init_list, init, start_damage, after_tick}
use baiak_fonticak.Conditions.Damaging.{tick_list, execute_damage, update_damage}
use baiak_fonticak.Conditions.Damaging.{add_to_damage}
use baiak_fonticak.Conditions.Reading.{push_interval}
use baiak_fonticak.Conditions.{Kind, generic, invisible, spell_cooldown}
use baiak_fonticak.Conditions.{spell_group_cooldown, attributes, regeneration, soul, damage}
use baiak_fonticak.Conditions.{speed, outfit, light, drunk, Condition, minus_one}
use baiak_fonticak.Conditions.{IntervalInfo, Damage, set_ticks}

-- The class of a condition, by number.
unfoldable pub class : Kind → ℕ
class generic = 0
class invisible = 1
class spell_cooldown = 2
class spell_group_cooldown = 3
class (attributes a) = 4
class (regeneration r) = 5
class (soul v) = 6
class (damage d) = 7
class (speed v) = 8
class (outfit o) = 9
class (light l) = 10
class (drunk n) = 11

-- The key of a condition with a class.
unfoldable pub key : Condition → ℕ → ℕ × ℕ × ℕ × ℕ
key c n = (c.type, c.id, c.sub_id, n)

unfoldable pub mark : Condition → ℕ × ℕ × ℕ × ℕ
mark c = key c (class c.kind)

pub mark-if :
    (b : Bool) (x y : Condition) {m : ℕ × ℕ × ℕ × ℕ}
    → mark x ≡ m
    → mark y ≡ m
    → mark (if b then x else y) ≡ m
mark-if true x y hx hy = hx
mark-if false x y hx hy = hy

-- What holds of both values holds of a choice of them.
pub if_both :
    {A : Type 0} (P : A → Type 0) (b : Bool) {x y : A} → P x → P y → P (if b then x else y)
if_both P true hx hy = hx
if_both P false hx hy = hy

pub class-mark : (c d : Condition) → mark c ≡ mark d → class c.kind ≡ class d.kind
unfolding mark key
class-mark c d h = ap (λ (m : ℕ × ℕ × ℕ × ℕ). m.3) h

pub mark-set_ticks : (now t : ℕ) (c : Condition) → mark (set_ticks now t c) ≡ mark c
unfolding mark key set_ticks
mark-set_ticks now t c = refl

pub mark-start_base : (now : ℕ) (c : Condition) → mark (start_base now c) ≡ mark c
unfolding mark key start_base
mark-start_base now c = mark-if (is_positive c.ticks) _ c refl refl

pub mark-execute_base :
    (now interval : ℕ) (c : Condition) → mark (execute_base now interval c).1 ≡ mark c
unfolding mark key execute_base
mark-execute_base now interval c =
    if_both (λ (r : Bool × Condition). mark r.1 ≡ mark c) (c.ticks == minus_one) refl refl

-- Damage stays damage.
pub mark-with_damage :
    (c : Condition) (d : Damage) → class c.kind ≡ 7 → mark (with_damage c d) ≡ mark c
unfolding mark key class
mark-with_damage c d h = ap (key c) (sym h)

pub mark-push_interval :
    (now : ℕ) (d : Damage) (c : Condition) (i : IntervalInfo)
    → class c.kind ≡ 7
    → mark (push_interval now d c i) ≡ mark c
unfolding mark key class push_interval set_ticks
mark-push_interval now d c i h =
    mark-if (c.ticks != minus_one) _ _ (ap (key c) (sym h)) (ap (key c) (sym h))

pub mark-add_rounds :
    (n now : ℕ) (i : IntervalInfo) (c : Condition) (d : Damage)
    → class c.kind ≡ 7
    → mark (add_rounds n now i c d).0 ≡ mark c
unfolding add_rounds
mark-add_rounds zero now i c d h = refl
mark-add_rounds (suc n) now i c d h =
    let e = mark-push_interval now d c i h in
    mark-add_rounds n now i _ (longer d i) (class-mark _ c e ∙ h) ∙ e

pub mark-add_damage :
    (now rounds time value : ℕ) (c : Condition) (d : Damage)
    → class c.kind ≡ 7
    → mark (add_damage now rounds time value c d).0 ≡ mark c
unfolding add_damage mark key class
mark-add_damage now rounds time value c d h =
    let P = λ (r : Condition × Damage). mark r.0 ≡ mark c in
    if_both P (rounds == minus_one) (ap (key c) (sym h))
      (if_both P (is_positive d.period_damage) refl (mark-add_rounds _ now _ c d h))

pub mark-add_all :
    (now time : ℕ) (values : List ℕ) (c : Condition) (d : Damage)
    → class c.kind ≡ 7
    → mark (add_all now time values c d).0 ≡ mark c
unfolding add_all
mark-add_all now time [] c d h = refl
mark-add_all now time (v ∷ values) c d h =
    let e = mark-add_damage now 1 time _ c d h in
    mark-add_all now time values _ _ (class-mark _ c e ∙ h) ∙ e

pub mark-init_list :
    (now : ℕ) (w : Harm) (c : Condition) (d : Damage)
    → class c.kind ≡ 7
    → mark (init_list now w c d).0 ≡ mark c
unfolding init_list class
mark-init_list now w c d h =
    if_both (λ (r : Condition × Damage). mark r.0 ≡ mark c) (w.amount d == 0) (refl)
      (mark-add_all now _ _ _ _ refl ∙ mark-with_damage c _ h)

pub mark-init :
    (now : ℕ) (w : Harm) (c : Condition) (d : Damage)
    → class c.kind ≡ 7
    → mark (init now w c d).1 ≡ mark c
unfolding init set_ticks
mark-init now w c d h =
    if_both (λ (r : Bool × Condition × Damage). mark r.1 ≡ mark c)
      (d.period_damage != 0 || not (is_empty d.damage_list)) (refl)
      (mark-init_list now w (set_ticks now 0 c) d h ∙ mark-set_ticks now 0 c)

pub mark-start_damage :
    (now : ℕ) (w : Harm) (c : Condition) (d : Damage)
    → class c.kind ≡ 7
    → mark (start_damage now w c d).1 ≡ mark c
unfolding start_damage
mark-start_damage now w c d h =
    let e = mark-start_base now c in
    if_both (λ (r : Bool × Condition). mark r.1 ≡ mark c)
      (not d.delayed && not (w.hit (start_base now c) d.init_damage)) e
      (mark-init now w _ d (class-mark _ c e ∙ h) ∙ e)

pub mark-after_tick :
    (now : ℕ) (removes : Bool) (interval : ℕ) (c : Condition)
    → mark (after_tick now removes interval c).1 ≡ mark c
unfolding after_tick mark key
mark-after_tick now true interval c = mark-execute_base now interval c
mark-after_tick now false interval c =
    mark-execute_base now 0 _ ∙ mark-if (is_positive c.ticks) _ c refl refl

pub mark-tick_list :
    (now : ℕ) (w : Harm) (interval : ℕ) (c : Condition) (d : Damage) (list : List IntervalInfo)
    → class c.kind ≡ 7
    → mark (tick_list now w interval c d list).1 ≡ mark c
unfolding tick_list
mark-tick_list now w interval c d [] h = mark-execute_base now interval c
mark-tick_list now w interval c d (i ∷ list) h =
    mark-after_tick now _ interval _ ∙ mark-with_damage c _ h

pub mark-execute_damage :
    (now : ℕ) (w : Harm) (interval : ℕ) (c : Condition) (d : Damage)
    → class c.kind ≡ 7
    → mark (execute_damage now w interval c d).1 ≡ mark c
unfolding execute_damage
mark-execute_damage now w interval c d h =
    if_both (λ (r : Bool × Condition). mark r.1 ≡ mark c) (d.period_damage != 0)
      (mark-execute_base now interval _ ∙ mark-with_damage c _ h)
      (mark-tick_list now w interval c d d.damage_list h)

pub mark-add_to_damage :
    (now : ℕ) (w : Harm) (c : Condition) (d : Damage) (new : Condition) (n : Damage)
    → class c.kind ≡ 7
    → mark (add_to_damage now w c d new n) ≡ mark c
unfolding add_to_damage class set_ticks mark
mark-add_to_damage now w c d new n h =
    let e = mark-init now w _ _ refl ∙ mark-with_damage _ _ h ∙ mark-set_ticks now new.ticks c in
    mark-if (c.type != new.type || not (update_damage c d new n)) c _ refl
      (mark-if _ _ _ (mark-with_damage _ _ (class-mark _ c e ∙ h) ∙ e) e)
