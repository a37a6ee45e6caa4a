-- ===== src/Conditions/Carrying.antt =====
-- The list of conditions of a creature (src/creature.cpp). What onEndCondition does elsewhere, the
-- later call that the scheduler is given where a walk holds an operation back, and the answers of
-- the operations are left out.
use baiak_fonticak.Base.{ℕ, Bool, true, false, not, ◌&&◌, ◌||◌, Option, none, some}
use baiak_fonticak.Base.{option_map, List, [], ◌∷◌, ◌++◌, ◌==◌, if◌then◌else◌}
use baiak_fonticak.Base.Words.{sub_u32}
use baiak_fonticak.Conditions.Lasting.{is_over}
use baiak_fonticak.Conditions.Bearer.{Creature, World, change_speed, start_kind}
use baiak_fonticak.Conditions.Bearer.{execute_kind, end_kind}
use baiak_fonticak.Conditions.{Condition, minus_one}
use baiak_fonticak.Conditions.Codes.{haste_type, paralyze_type, outfit_type}
use baiak_fonticak.Conditions.Renewing.{add_to}

-- The key of a condition: type, id and subId.
unfoldable pub same_key : Condition → Condition → Bool
same_key c d = c.type == d.type && c.id == d.id && c.sub_id == d.sub_id

-- getCondition, and addCondition on the one that it finds: none where it finds none.
unfoldable pub add_to_first :
    World → Condition → List Condition → Creature → Option (List Condition × Creature)
add_to_first w new [] s = none
add_to_first w new (c ∷ conditions) s =
    let later = add_to_first w new conditions s in
    if same_key c new
    then (let r = add_to w c new c.kind s in some (r.0 ∷ conditions, r.1))
    else option_map (λ (p : List Condition × Creature). (c ∷ p.0, p.1)) later

unfoldable pub has_type : World → ℕ → List Condition → Bool
has_type w type [] = false
has_type w type (c ∷ conditions) =
    (c.type == type && c.sub_id == 0 && (not (is_over w.now c.end_time) || c.ticks == minus_one))
    || has_type w type conditions

-- hasCondition with subId 0
unfoldable pub has_condition : World → ℕ → Creature → Bool
has_condition w type s = not (w.is_suppress type) && has_type w type s.conditions

-- The loop of both removeConditions by type, over the conditions that `test` names; `kept` are
-- those it has passed. A paralysis that is not forced waits for the end of a walk.
unfoldable pub remove_loop :
    World → Bool → (Condition → Bool) → List Condition → List Condition → Creature → Creature
remove_loop w force test [] kept s = record s { conditions = kept }
remove_loop w force test (c ∷ rest) kept s = elim (test c) [
  | false ↦ remove_loop w force test rest (kept ++ c ∷ []) s
  | true ↦ elim (not force && c.type == paralyze_type && w.is_walking) [
    | true ↦ record s { conditions = kept ++ c ∷ rest }
    | false ↦ remove_loop w force test rest kept (end_kind c.kind s)
  ]
]

unfoldable pub remove_type : World → Bool → ℕ → Creature → Creature
remove_type w force type s = remove_loop w force (λ c. c.type == type) s.conditions [] s

unfoldable pub remove_type_id : World → Bool → ℕ → ℕ → Creature → Creature
remove_type_id w force type id s =
    remove_loop w force (λ c. c.type == type && c.id == id) s.conditions [] s

-- dismount, where a player is mounted
unfoldable pub dismount : Creature → Creature
dismount s = record (change_speed (sub_u32 0 s.mount_speed) s) { mount_speed = 0 }

-- onAddCondition of Creature, of Player, and of Monster, which removes neither haste nor
-- paralysis.
unfoldable pub on_add_condition : World → ℕ → Creature → Creature
on_add_condition w type s =
    let calm =
      if s.is_monster
      then s
      else if type == paralyze_type && has_condition w haste_type s
      then remove_type w false haste_type s
      else if type == haste_type && has_condition w paralyze_type s
      then remove_type w false paralyze_type s
      else s in
    if calm.is_player && type == outfit_type then dismount calm else calm

-- The end of addCondition, for a condition that the creature does not have.
unfoldable pub push_condition : World → Bool × Condition × Creature → Creature → Creature
push_condition w (true, c, begun) s =
    on_add_condition w c.type (record begun { conditions = begun.conditions ++ c ∷ [] })
push_condition w (false, c, begun) s = begun

-- addCondition; a haste that is not forced waits for the end of a paralysed walk.
unfoldable pub add_condition : World → Bool → Condition → Creature → Creature
add_condition w force c s =
    elim (not force && c.type == haste_type && has_condition w paralyze_type s && w.is_walking) [
      | true ↦ s
      | false ↦ elim (add_to_first w c s.conditions s) [
        | some p ↦ record p.1 { conditions = p.0 }
        | none ↦ push_condition w (start_kind w c c.kind s) s
      ]
    ]

-- The loop of executeConditions.
unfoldable pub execute_loop : World → ℕ → List Condition → List Condition → Creature → Creature
execute_loop w interval [] kept s = record s { conditions = kept }
execute_loop w interval (c ∷ rest) kept s =
    let r = execute_kind w interval c s.is_player c.kind in
    elim r.0 [
      | true ↦ execute_loop w interval rest (kept ++ r.1 ∷ []) s
      | false ↦ execute_loop w interval rest kept (end_kind (r.1).kind s)
    ]

unfoldable pub execute_conditions : World → ℕ → Creature → Creature
execute_conditions w interval s = execute_loop w interval s.conditions [] s
