-- ===== src/Conditions/Steps.antt =====
-- What starting, executing and adding to a condition keep of it (src/condition.cpp).
use baiak_fonticak.Base.{ℕ, ◌≡◌, refl, sym, ap, ◌∙◌, Bool, Option, none, some, ltb}
use baiak_fonticak.Conditions.{Kind, generic, invisible, spell_cooldown}
use baiak_fonticak.Conditions.{spell_group_cooldown, attributes, regeneration, soul, damage}
use baiak_fonticak.Conditions.{speed, outfit, light, drunk, Condition, set_ticks}
use baiak_fonticak.Conditions.Lasting.{update_condition, start_base}
use baiak_fonticak.Conditions.Bearer.{Creature, World, start_kind, execute_kind}
use baiak_fonticak.Conditions.Renewing.{with_kind, renew, replace_attributes, replace_speed}
use baiak_fonticak.Conditions.Renewing.{add_to}
use baiak_fonticak.Conditions.Casting.{as_attributes, as_regeneration, as_soul, as_damage}
use baiak_fonticak.Conditions.Casting.{as_speed, as_outfit, as_light, as_drunk}
use baiak_fonticak.Conditions.Marks.{class, key, mark, if_both, mark-if, class-mark}
use baiak_fonticak.Conditions.Marks.{mark-set_ticks, mark-start_base, mark-execute_base}
use baiak_fonticak.Conditions.Marks.{mark-start_damage, mark-execute_damage}
use baiak_fonticak.Conditions.Marks.{mark-add_to_damage}

-- What holds of both cases of an option holds of the case that it is.
pub option_both :
    {A B : Type 0} (P : B → Type 0) (o : Option A) {y : B} {f : A → B}
    → P y
    → ((x : A) → P (f x))
    → P (elim o as (λ _. B) [ none ↦ y | some x ↦ f x ])
option_both P none hy hf = hy
option_both P (some x) hy hf = hf x

pub mark-kind : (c : Condition) (k : Kind) → class k ≡ class c.kind → mark (with_kind c k) ≡ mark c
unfolding mark key
mark-kind c k h = ap (key c) h

pub mark-start_kind :
    (w : World) (c : Condition) (k : Kind) (s : Creature)
    → c.kind ≡ k
    → mark (start_kind w c k s).1 ≡ mark c
unfolding start_kind class
mark-start_kind w c generic s h = mark-start_base w.now c
mark-start_kind w c invisible s h = mark-start_base w.now c
mark-start_kind w c spell_cooldown s h = mark-start_base w.now c
mark-start_kind w c spell_group_cooldown s h = mark-start_base w.now c
mark-start_kind w c (attributes a) s h =
    mark-kind (start_base w.now c) _ (sym (class-mark _ c (mark-start_base w.now c) ∙ ap class h))
    ∙ mark-start_base w.now c
mark-start_kind w c (regeneration r) s h = mark-start_base w.now c
mark-start_kind w c (soul v) s h = mark-start_base w.now c
mark-start_kind w c (damage d) s h = mark-start_damage w.now w.harm c d (ap class h)
mark-start_kind w c (speed v) s h =
    mark-kind (start_base w.now c) _ (sym (class-mark _ c (mark-start_base w.now c) ∙ ap class h))
    ∙ mark-start_base w.now c
mark-start_kind w c (outfit o) s h = mark-start_base w.now c
mark-start_kind w c (light l) s h =
    mark-kind (start_base w.now c) _ (sym (class-mark _ c (mark-start_base w.now c) ∙ ap class h))
    ∙ mark-start_base w.now c
mark-start_kind w c (drunk n) s h = mark-start_base w.now c

pub mark-execute_kind :
    (w : World) (interval : ℕ) (c : Condition) (p : Bool) (k : Kind)
    → c.kind ≡ k
    → mark (execute_kind w interval c p k).1 ≡ mark c
unfolding execute_kind class
mark-execute_kind w i c p generic h = mark-execute_base w.now i c
mark-execute_kind w i c p invisible h = mark-execute_base w.now i c
mark-execute_kind w i c p spell_cooldown h = mark-execute_base w.now i c
mark-execute_kind w i c p spell_group_cooldown h = mark-execute_base w.now i c
mark-execute_kind w i c p (attributes a) h = mark-execute_base w.now i c
mark-execute_kind w i c p (regeneration r) h =
    mark-execute_base w.now i _ ∙ mark-kind c _ (sym (ap class h))
mark-execute_kind w i c p (soul v) h =
    mark-execute_base w.now i _ ∙ mark-kind c _ (sym (ap class h))
mark-execute_kind w i c p (damage d) h = mark-execute_damage w.now w.harm i c d (ap class h)
mark-execute_kind w i c p (speed v) h = mark-execute_base w.now i c
mark-execute_kind w i c p (outfit o) h = mark-execute_base w.now i c
mark-execute_kind w i c p (light l) h =
    mark-execute_base w.now i _ ∙ mark-kind c _ (sym (ap class h))
mark-execute_kind w i c p (drunk n) h = mark-execute_base w.now i c

-- The condition with new ticks and new fields of its class.
pub mark-renewed :
    (w : World) (c : Condition) (t : ℕ) (k : Kind)
    → class k ≡ class c.kind
    → mark (with_kind (set_ticks w.now t c) k) ≡ mark c
unfolding mark key set_ticks
mark-renewed w c t k h = ap (key c) h

pub mark-renew : (w : World) (c new : Condition) → mark (renew w c new) ≡ mark c
unfolding renew
mark-renew w c new =
    mark-if (update_condition w.now c new) _ c (mark-set_ticks w.now new.ticks c) refl

abbrev pub Marked : Condition → Condition × Creature → Type 0
Marked c r = mark r.0 ≡ mark c

pub mark-add_to :
    (w : World) (c new : Condition) (k : Kind) (s : Creature)
    → c.kind ≡ k
    → mark (add_to w c new k s).0 ≡ mark c
unfolding add_to class replace_attributes replace_speed
mark-add_to w c new generic s h = mark-renew w c new
mark-add_to w c new invisible s h = mark-renew w c new
mark-add_to w c new spell_cooldown s h = mark-renew w c new
mark-add_to w c new spell_group_cooldown s h = mark-renew w c new
mark-add_to w c new (attributes a) s h = option_both (Marked c) (as_attributes new.kind) refl (λ n.
    if_both (Marked c) (update_condition w.now c new)
      (mark-renewed w c new.ticks _ (sym (ap class h))) refl)
mark-add_to w c new (regeneration r) s h =
    option_both (Marked c) (as_regeneration new.kind) refl (λ n.
      mark-if (update_condition w.now c new) _ c (mark-renewed w c new.ticks _ (sym (ap class h)))
        refl)
mark-add_to w c new (soul v) s h = option_both (Marked c) (as_soul new.kind) refl (λ n.
    mark-if (update_condition w.now c new) _ c (mark-renewed w c new.ticks _ (sym (ap class h)))
      refl)
mark-add_to w c new (damage d) s h =
    option_both (Marked c) (as_damage new.kind) refl
      (λ n. mark-add_to_damage w.now w.harm c d new n (ap class h))
mark-add_to w c new (speed v) s h =
    option_both (Marked c) (as_speed new.kind) refl
      (λ n. if_both (Marked c) _ refl (mark-renewed w c new.ticks _ (sym (ap class h))))
mark-add_to w c new (outfit o) s h = option_both (Marked c) (as_outfit new.kind) refl (λ n.
    mark-if (update_condition w.now c new) _ c (mark-renewed w c new.ticks _ (sym (ap class h)))
      refl)
mark-add_to w c new (light l) s h = option_both (Marked c) (as_light new.kind) refl (λ n.
    mark-if (update_condition w.now c new) _ c (mark-renewed w c new.ticks _ (sym (ap class h)))
      refl)
mark-add_to w c new (drunk n) s h =
    option_both (Marked c) (as_drunk new.kind) refl
      (λ m. if_both (Marked c) (ltb n m) (mark-set_ticks w.now new.ticks c) refl)
