-- ===== src/Conditions/Made.antt =====
-- The class of a condition that createCondition made, with parameters set (src/condition.cpp).
use baiak_fonticak.Conditions.Params.{aggressive_param, subid_param, buff_spell_param}
use baiak_fonticak.Conditions.Params.{ticks_param, speed_param}
use baiak_fonticak.Conditions.Lasting.{is_positive}
use baiak_fonticak.Base.{ℕ, ◌≡◌, refl, sym, ap, subst, ◌∙◌, Bool, true, false, Option, none}
use baiak_fonticak.Base.{some, option_map, List, [], ◌∷◌, arith, ◌==◌, ◌!=◌, if◌then◌else◌}
use baiak_fonticak.Conditions.{Speed, Kind, generic, invisible, spell_cooldown}
use baiak_fonticak.Conditions.{spell_group_cooldown, attributes, regeneration, soul, damage}
use baiak_fonticak.Conditions.{speed, outfit, light, drunk, Condition}
use baiak_fonticak.Conditions.Codes.{haste_type, paralyze_type}
use baiak_fonticak.Conditions.Setting.{set_base, set_speed, set_kind, set_param, set_params}
use baiak_fonticak.Conditions.Setting.{own_or}
use baiak_fonticak.Conditions.Creating.{create_kind, create_condition, new_condition}
use baiak_fonticak.Conditions.Marks.{class, key, mark, if_both}
use baiak_fonticak.Conditions.Steps.{option_both}
use baiak_fonticak.Conditions.Cases.{or_else}
use baiak_fonticak.Conditions.Orderly.{IsFit}

-- The class is the one for the type.
unfoldable pub IsOf : ℕ → Kind → Type 0
IsOf type k = option_map class (create_kind type 0) ≡ some (class k)

abbrev pub Whole : Bool × Condition → Type 0
Whole r = IsOf r.1.type r.1.kind

pub IsOf-base :
    (p v : ℕ) (c : Condition)
    → Whole (true, c)
    → (Whole (set_base p v c)) × ((set_base p v c).1.kind ≡ c.kind)
unfolding set_base
IsOf-base p v c h =
    let P = λ (r : Bool × Condition). Whole r × (r.1.kind ≡ c.kind) in
    if_both P (p == ticks_param) (h, refl)
      (if_both P (p == buff_spell_param) (h, refl)
        (if_both P (p == subid_param) (h, refl)
          (if_both P (p == aggressive_param) (h, refl) (h, refl))))

pub IsOf-own :
    {A : Type 0} (make : A → Kind) (n : ℕ) (o : Option A) (r : Bool × Condition)
    → ((x : A) → class (make x) ≡ n)
    → class r.1.kind ≡ n
    → Whole r
    → Whole (own_or make o r)
unfolding IsOf
IsOf-own make n o r same e h = option_both Whole o h (λ x. h ∙ ap some (e ∙ sym (same x)))

pub IsOf-speed : (b : Bool) (s : Speed) → IsOf (if b then haste_type else paralyze_type) (speed s)
unfolding IsOf class create_kind
IsOf-speed true s = refl
IsOf-speed false s = refl

pub IsOf-kind :
    (p v : ℕ) (k : Kind) (r : Bool × Condition) → r.1.kind ≡ k → Whole r → Whole (set_kind p v k r)
unfolding set_kind IsOf class set_speed
IsOf-kind p v generic r e h = h
IsOf-kind p v invisible r e h = h
IsOf-kind p v spell_cooldown r e h = h
IsOf-kind p v spell_group_cooldown r e h = h
IsOf-kind p v (attributes a) r e h = IsOf-own attributes 4 _ r (λ x. refl) (ap class e) h
IsOf-kind p v (regeneration g) r e h = IsOf-own regeneration 5 _ r (λ x. refl) (ap class e) h
IsOf-kind p v (soul s) r e h = IsOf-own soul 6 _ r (λ x. refl) (ap class e) h
IsOf-kind p v (damage d) r e h = h ∙ ap (λ k. some (class k)) e
IsOf-kind p v (speed s) r e h = if_both Whole (p != speed_param) h (IsOf-speed (is_positive v) s)
IsOf-kind p v (outfit o) r e h = h
IsOf-kind p v (light l) r e h = h ∙ ap (λ k. some (class k)) e
IsOf-kind p v (drunk n) r e h = IsOf-own drunk 11 _ r (λ x. refl) (ap class e) h

pub IsOf-param : (p v : ℕ) (c : Condition) → IsOf c.type c.kind → Whole (set_param p v c)
unfolding set_param
IsOf-param p v c h = let b = IsOf-base p v c h in IsOf-kind p v c.kind (set_base p v c) b.1 b.0

pub IsOf-params :
    (list : List (ℕ × ℕ)) (c : Condition)
    → IsOf c.type c.kind
    → IsOf (set_params list c).type (set_params list c).kind
unfolding set_params
IsOf-params [] c h = h
IsOf-params (q ∷ list) c h = IsOf-params list _ (IsOf-param q.0 q.1 c h)

-- The param does not choose the class.
create_kind-class :
    (type param : ℕ)
    → option_map class (create_kind type param) ≡ option_map class (create_kind type 0)
unfolding create_kind class
create_kind-class type param = ground arith

pub IsOf-new :
    (id type ticks param : ℕ) (buff : Bool) (sub_id : ℕ) (aggressive : Bool) (o : Option Kind)
    (c : Condition)
    → create_kind type param ≡ o
    → option_map (new_condition id type ticks buff sub_id aggressive) o ≡ some c
    → IsOf c.type c.kind
unfolding IsOf new_condition or_else
IsOf-new id type ticks param buff sub_id aggressive none c e h = ground arith
IsOf-new id type ticks param buff sub_id aggressive (some k) c e h =
    subst (λ (d : Condition). option_map class (create_kind d.type 0) ≡ some (class d.kind))
      (ap (λ o. or_else o c) h) (sym (create_kind-class type param) ∙ ap (option_map class) e)

-- What createCondition makes for a type and a param, with any parameters set to any values afterwards, is of
-- the class that createCondition makes for the type that it then has.
pub set_params-IsFit :
    (id type ticks param : ℕ) (buff : Bool) (sub_id : ℕ) (aggressive : Bool) (c : Condition)
    (list : List (ℕ × ℕ))
    → create_condition id type ticks param buff sub_id aggressive ≡ some c
    → IsFit (mark (set_params list c))
unfolding create_condition IsFit IsOf mark key
set_params-IsFit id type ticks param buff sub_id aggressive c list h =
    IsOf-params list c
      (IsOf-new id type ticks param buff sub_id aggressive (create_kind type param) c refl h)
