-- ===== src/Conditions/Expiry.antt =====
-- Which conditions go on after executeConditions (src/creature.cpp), and which removeConditions
-- leaves.
use baiak_fonticak.Base.{ℕ, ◌≡◌, refl, sym, ap, ◌∙◌, inl, inr, Bool, true, false, not, ◌&&◌}
use baiak_fonticak.Base.{◌||◌, List, [], ◌∷◌, ◌++◌, map, append-nil, append_assoc, arith}
use baiak_fonticak.Base.{◌==◌, ◌!=◌, if◌then◌else◌, Bool-cases}
use baiak_fonticak.Conditions.{IntervalInfo, Damage, Kind, generic, invisible}
use baiak_fonticak.Conditions.{spell_cooldown, spell_group_cooldown, attributes}
use baiak_fonticak.Conditions.{regeneration, soul, damage, speed, outfit, light, drunk}
use baiak_fonticak.Conditions.{Condition, minus_one}
use baiak_fonticak.Conditions.Codes.{paralyze_type}
use baiak_fonticak.Conditions.Bearer.{Creature, World, execute_kind, end_kind}
use baiak_fonticak.Conditions.Lasting.{is_over, execute_base}
use baiak_fonticak.Conditions.Damaging.{Harm, execute_damage, tick_list, after_tick}
use baiak_fonticak.Conditions.Carrying.{remove_loop, remove_type, execute_loop}
use baiak_fonticak.Conditions.Carrying.{execute_conditions}
use baiak_fonticak.Conditions.Marks.{if_both}
use baiak_fonticak.Conditions.Cases.{elim_cases}
use baiak_fonticak.Conditions.Gauges.{player-end_kind}

-- A condition lasts without end, or until a time that has not passed.
unfoldable pub is_lasting : ℕ → Condition → Bool
is_lasting now c = c.ticks == minus_one || not (is_over now c.end_time)

unfoldable pub keep : (Condition → Bool) → List Condition → List Condition
keep test [] = []
keep test (c ∷ l) = if test c then c ∷ keep test l else keep test l

-- Whether a condition goes on is whether it lasts.
abbrev pub Told : ℕ → Bool × Condition → Type 0
Told now r = r.0 ≡ is_lasting now r.1

pub Told-execute_base : (now interval : ℕ) (c : Condition) → Told now (execute_base now interval c)
unfolding execute_base is_lasting
Told-execute_base now interval c = elim (Bool-cases (c.ticks == minus_one)) [
  | inl h ↦ ground arith
  | inr h ↦ ground arith
]

pub Told-after_tick :
    (now : ℕ) (removes : Bool) (interval : ℕ) (c : Condition)
    → Told now (after_tick now removes interval c)
unfolding after_tick
Told-after_tick now true interval c = Told-execute_base now interval c
Told-after_tick now false interval c = Told-execute_base now 0 _

pub Told-tick_list :
    (now : ℕ) (w : Harm) (interval : ℕ) (c : Condition) (d : Damage) (l : List IntervalInfo)
    → Told now (tick_list now w interval c d l)
unfolding tick_list
Told-tick_list now w interval c d [] = Told-execute_base now interval c
Told-tick_list now w interval c d (i ∷ l) = Told-after_tick now _ interval _

pub Told-execute_damage :
    (now : ℕ) (w : Harm) (interval : ℕ) (c : Condition) (d : Damage)
    → Told now (execute_damage now w interval c d)
unfolding execute_damage
Told-execute_damage now w interval c d =
    if_both (Told now) (d.period_damage != 0) (Told-execute_base now interval _)
      (Told-tick_list now w interval c d d.damage_list)

pub Told-execute_kind :
    (w : World) (i : ℕ) (c : Condition) (p : Bool) (k : Kind) → Told w.now (execute_kind w i c p k)
unfolding execute_kind
Told-execute_kind w i c p generic = Told-execute_base w.now i c
Told-execute_kind w i c p invisible = Told-execute_base w.now i c
Told-execute_kind w i c p spell_cooldown = Told-execute_base w.now i c
Told-execute_kind w i c p spell_group_cooldown = Told-execute_base w.now i c
Told-execute_kind w i c p (attributes a) = Told-execute_base w.now i c
Told-execute_kind w i c p (regeneration r) = Told-execute_base w.now i _
Told-execute_kind w i c p (soul v) = Told-execute_base w.now i _
Told-execute_kind w i c p (damage d) = Told-execute_damage w.now w.harm i c d
Told-execute_kind w i c p (speed v) = Told-execute_base w.now i c
Told-execute_kind w i c p (outfit o) = Told-execute_base w.now i c
Told-execute_kind w i c p (light l) = Told-execute_base w.now i _
Told-execute_kind w i c p (drunk n) = Told-execute_base w.now i c

-- A condition after the time `interval`.
unfoldable pub executed : World → ℕ → Bool → Condition → Condition
executed w interval p c = (execute_kind w interval c p c.kind).1

pub keep-head :
    (test : Condition → Bool) (c : Condition) (l : List Condition)
    → test c ≡ true
    → keep test (c ∷ l) ≡ c ∷ keep test l
unfolding keep
keep-head test c l h = ap (λ b. if b then c ∷ keep test l else keep test l) h

pub keep-tail :
    (test : Condition → Bool) (c : Condition) (l : List Condition)
    → test c ≡ false
    → keep test (c ∷ l) ≡ keep test l
unfolding keep
keep-tail test c l h = ap (λ b. if b then c ∷ keep test l else keep test l) h

pub execute_loop_lem :
    (w : World) (interval : ℕ) (p : Bool) (rest kept : List Condition) (s : Creature)
    → s.is_player ≡ p
    → (execute_loop w interval rest kept s).conditions
      ≡ kept ++ keep (is_lasting w.now) (map (executed w interval p) rest)
unfolding execute_loop keep executed
execute_loop_lem w interval p [] kept s h = sym (append-nil kept)
execute_loop_lem w interval p (c ∷ rest) kept s h =
    let r = execute_kind w interval c s.is_player c.kind in
    let told = Told-execute_kind w interval c s.is_player c.kind in
    let same : r.1 ≡ executed w interval p c = ap (λ q. (execute_kind w interval c q c.kind).1) h in
    let l = map (executed w interval p) rest in
    let lasting = is_lasting w.now in
    let head = ap (λ x. kept ++ keep lasting (x ∷ l)) same in
    elim_cases (λ (t : Creature). t.conditions ≡ kept ++ keep lasting (executed w interval p c ∷ l))
      r.0
      (λ e.
        execute_loop_lem w interval p rest kept (end_kind (r.1).kind s)
          (player-end_kind (r.1).kind s ∙ h)
        ∙ ap (λ m. kept ++ m) (sym (keep-tail lasting r.1 l (sym told ∙ e)))
        ∙ head)
      (λ e.
        execute_loop_lem w interval p rest (kept ++ r.1 ∷ []) s h
        ∙ append_assoc kept (r.1 ∷ []) (keep lasting l)
        ∙ ap (λ m. kept ++ m) (sym (keep-head lasting r.1 l (sym told ∙ e)))
        ∙ head)

-- Where no walk holds a removal back, the conditions that `test` names are gone.
pub remove_loop_lem :
    (w : World) (force : Bool) (test : Condition → Bool) (rest kept : List Condition) (s : Creature)
    → force || not w.is_walking ≡ true
    → (remove_loop w force test rest kept s).conditions ≡ kept ++ keep (λ c. not (test c)) rest
unfolding remove_loop keep
remove_loop_lem w force test [] kept s h = sym (append-nil kept)
remove_loop_lem w force test (c ∷ rest) kept s h =
    let others = λ (d : Condition). not (test d) in
    let P = λ (t : Creature). t.conditions ≡ kept ++ keep others (c ∷ rest) in
    elim_cases P (test c)
      (λ e.
        remove_loop_lem w force test rest (kept ++ c ∷ []) s h
        ∙ append_assoc kept (c ∷ []) (keep others rest)
        ∙ ap (λ m. kept ++ m) (sym (keep-head others c rest (ap not e))))
      (λ e.
        elim_cases P (not force && c.type == paralyze_type && w.is_walking)
          (λ u.
            remove_loop_lem w force test rest kept (end_kind c.kind s) h
            ∙ ap (λ m. kept ++ m) (sym (keep-tail others c rest (ap not e))))
          (λ u. ground arith))

-- After executeConditions a creature has, in their order, those of its executed conditions that
-- last: without end, or with an end that has not passed.
pub execute_conditions_lem :
    (w : World) (interval : ℕ) (s : Creature)
    → (execute_conditions w interval s).conditions
      ≡ keep (is_lasting w.now) (map (executed w interval s.is_player) s.conditions)
unfolding execute_conditions
execute_conditions_lem w interval s = execute_loop_lem w interval s.is_player s.conditions [] s refl

-- Where a removal is forced or the creature is not walking, removeConditions leaves the conditions
-- of other types, in their order.
pub remove_type_lem :
    (w : World) (force : Bool) (type : ℕ) (s : Creature)
    → force || not w.is_walking ≡ true
    → (remove_type w force type s).conditions ≡ keep (λ c. not (c.type == type)) s.conditions
unfolding remove_type
remove_type_lem w force type s h = remove_loop_lem w force (λ c. c.type == type) s.conditions [] s h
