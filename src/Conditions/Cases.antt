-- ===== src/Conditions/Cases.antt =====
-- Proofs by the cases of the operations on the list of conditions (src/creature.cpp), and what
-- startCondition leaves of the creature (src/condition.cpp).
use baiak_fonticak.Base.{◌≡◌, refl, ap, subst, Bool, true, false, Option, none, some}
use baiak_fonticak.Base.{option_map, arith}
use baiak_fonticak.Conditions.{Kind, generic, invisible, spell_cooldown}
use baiak_fonticak.Conditions.{spell_group_cooldown, attributes, regeneration, soul, damage}
use baiak_fonticak.Conditions.{speed, outfit, light, drunk, Condition}
use baiak_fonticak.Conditions.Bearer.{Creature, World, start_kind, add_attributes}
use baiak_fonticak.Conditions.Bearer.{change_speed}
use baiak_fonticak.Conditions.Marks.{if_both}

pub elim_both :
    {A : Type 0} (P : A → Type 0) (b : Bool) {x y : A}
    → P x
    → P y
    → P (elim b as (λ _. A) [ false ↦ x | true ↦ y ])
elim_both P true hx hy = hy
elim_both P false hx hy = hx

pub elim_cases :
    {A : Type 0} (P : A → Type 0) (b : Bool) {x y : A}
    → (b ≡ false → P x)
    → (b ≡ true → P y)
    → P (elim b as (λ _. A) [ false ↦ x | true ↦ y ])
elim_cases P true hx hy = hy refl
elim_cases P false hx hy = hx refl

-- What there is has the property.
unfoldable pub IfSome : {A : Type 0} → (A → Type 0) → Option A → Type 0
IfSome {A} P o = (x : A) → o ≡ some x → P x

unfoldable pub or_else : {A : Type 0} → Option A → A → A
or_else none y = y
or_else (some x) y = x

pub IfSome-none : {A : Type 0} (P : A → Type 0) → IfSome P none
unfolding IfSome
IfSome-none P x e = ground arith

pub IfSome-some : {A : Type 0} (P : A → Type 0) {x : A} → P x → IfSome P (some x)
unfolding IfSome or_else
IfSome-some P {x} h y e = subst P (ap (λ o. or_else o x) e) h

pub IfSome-map :
    {A B : Type 0} (P : A → Type 0) (Q : B → Type 0) (f : A → B) (o : Option A)
    → IfSome P o
    → ((x : A) → P x → Q (f x))
    → IfSome Q (option_map f o)
unfolding IfSome
IfSome-map P Q f none h step = IfSome-none Q
IfSome-map P Q f (some x) h step = IfSome-some Q (step x (h x refl))

pub IfSome-both :
    {A B : Type 0} (P : B → Type 0) {Q : A → Type 0} (o : Option A) {y : B} {f : A → B}
    → IfSome Q o
    → ((x : A) → Q x → P (f x))
    → P y
    → P (elim o as (λ _. B) [ none ↦ y | some x ↦ f x ])
unfolding IfSome
IfSome-both P none h hf hy = hy
IfSome-both P (some x) h hf hy = hf x (h x refl)

pub IfSome-cases :
    {A B : Type 0} (P : B → Type 0) {Q : A → Type 0} (o : Option A) {y : B} {f : A → B}
    → IfSome Q o
    → ((x : A) → Q x → P (f x))
    → (o ≡ none → P y)
    → P (elim o as (λ _. B) [ none ↦ y | some x ↦ f x ])
unfolding IfSome
IfSome-cases P none h hf hy = hy refl
IfSome-cases P (some x) h hf hy = hf x (h x refl)

pub conditions-start_kind :
    (w : World) (c : Condition) (k : Kind) (s : Creature)
    → (start_kind w c k s).2.conditions ≡ s.conditions
unfolding start_kind change_speed add_attributes
conditions-start_kind w c generic s = refl
conditions-start_kind w c invisible s = refl
conditions-start_kind w c spell_cooldown s = refl
conditions-start_kind w c spell_group_cooldown s = refl
conditions-start_kind w c (attributes a) s =
    if_both (λ (r : Creature). r.conditions ≡ s.conditions) s.is_player refl refl
conditions-start_kind w c (regeneration r) s = refl
conditions-start_kind w c (soul v) s = refl
conditions-start_kind w c (damage d) s = refl
conditions-start_kind w c (speed v) s = refl
conditions-start_kind w c (outfit o) s = refl
conditions-start_kind w c (light l) s = refl
conditions-start_kind w c (drunk n) s = refl

pub start_kind-failed :
    (w : World) (c : Condition) (k : Kind) (s : Creature)
    → (start_kind w c k s).0 ≡ false
    → (start_kind w c k s).2 ≡ s
unfolding start_kind
start_kind-failed w c generic s h = refl
start_kind-failed w c invisible s h = refl
start_kind-failed w c spell_cooldown s h = refl
start_kind-failed w c spell_group_cooldown s h = refl
start_kind-failed w c (attributes a) s h = ground arith
start_kind-failed w c (regeneration r) s h = refl
start_kind-failed w c (soul v) s h = refl
start_kind-failed w c (damage d) s h = refl
start_kind-failed w c (speed v) s h = ground arith
start_kind-failed w c (outfit o) s h = refl
start_kind-failed w c (light l) s h = refl
start_kind-failed w c (drunk n) s h = ground arith
