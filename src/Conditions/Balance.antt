-- ===== src/Conditions/Balance.antt =====
-- What a creature has of a value without its conditions, over the operations on the list of its
-- conditions (src/creature.cpp).
use baiak_fonticak.Base.Words.{u32, sub_u32}
use baiak_fonticak.Base.{ℕ, ◌+◌, ◌≡◌, refl, sym, ap, ap₂, ◌∙◌, Bool, true, false, not, ◌&&◌}
use baiak_fonticak.Base.{List, [], ◌∷◌, ◌++◌, append-nil, append_assoc, arith, ◌==◌}
use baiak_fonticak.Conditions.{Kind, Condition}
use baiak_fonticak.Conditions.Codes.{haste_type, paralyze_type}
use baiak_fonticak.Conditions.Bearer.{Creature, World, start_kind, execute_kind, end_kind}
use baiak_fonticak.Conditions.Bearer.{change_speed}
use baiak_fonticak.Conditions.Carrying.{same_key, add_to_first, has_condition, remove_loop}
use baiak_fonticak.Conditions.Carrying.{remove_type, remove_type_id, dismount}
use baiak_fonticak.Conditions.Carrying.{on_add_condition, push_condition, add_condition}
use baiak_fonticak.Conditions.Carrying.{execute_loop}
use baiak_fonticak.Conditions.Renewing.{add_to}
use baiak_fonticak.Conditions.Marks.{if_both}
use baiak_fonticak.Conditions.Gauges.{Gauge, part, player-end_kind, player-start_kind}
use baiak_fonticak.Conditions.Gauges.{player-add_to}
use baiak_fonticak.Conditions.Shares.{total-end_kind, total-start_kind, part-execute_kind}
use baiak_fonticak.Conditions.Renewal.{total-add_to}
use baiak_fonticak.Conditions.Cases.{elim_both, IfSome, IfSome-map, IfSome-both, IfSome-none}
use baiak_fonticak.Conditions.Cases.{IfSome-some, conditions-start_kind, start_kind-failed}

-- The parts of all conditions of a list.
unfoldable pub parts : Gauge → Bool → List Condition → ℕ
parts g p [] = 0
parts g p (c ∷ l) = part g p c.kind + parts g p l

pub parts-append :
    (g : Gauge) (p : Bool) (l m : List Condition) → parts g p (l ++ m) ≡ parts g p l + parts g p m
unfolding parts
parts-append g p [] m = omega arith
parts-append g p (c ∷ l) m = let e = parts-append g p l m in omega arith

-- What the creature has of the value without the conditions of the list.
unfoldable pub own_without : Gauge → Creature → List Condition → ℕ
own_without g s l = sub_u32 (g.total s) (parts g s.is_player l)

unfoldable pub own : Gauge → Creature → ℕ
own g s = own_without g s s.conditions

module _ (g : Gauge) where
  pub own-conditions :
      (s : Creature) (l : List Condition) → own g (record s { conditions = l }) ≡ own_without g s l
  unfolding own own_without
  own-conditions s l = ap (λ t. sub_u32 t (parts g s.is_player l)) (g.total-conditions s l)

  -- A condition of the list ends and is gone.
  pub own-ended :
      (k : Kind) (c : Condition) (s : Creature) (l m : List Condition)
      → part g s.is_player k ≡ part g s.is_player c.kind
      → own_without g (end_kind k s) (l ++ m) ≡ own_without g s (l ++ c ∷ m)
  unfolding own_without parts
  own-ended k c s l m same =
      let ended = total-end_kind g k s in
      let player = ap (λ p. parts g p (l ++ m)) (player-end_kind k s) in
      let left = parts-append g s.is_player l m in
      let right = parts-append g s.is_player l (c ∷ m) in omega arith

  -- A condition of the list changes, but not its part.
  pub own-changed :
      (c d : Condition) (s : Creature) (l m : List Condition)
      → part g s.is_player d.kind ≡ part g s.is_player c.kind
      → own_without g s ((l ++ d ∷ []) ++ m) ≡ own_without g s (l ++ c ∷ m)
  unfolding own_without parts
  own-changed c d s l m same =
      let left = parts-append g s.is_player (l ++ d ∷ []) m in
      let first = parts-append g s.is_player l (d ∷ []) in
      let right = parts-append g s.is_player l (c ∷ m) in omega arith

  pub own-remove_loop :
      (w : World) (force : Bool) (test : Condition → Bool) (rest kept : List Condition)
      (s : Creature)
      → own g (remove_loop w force test rest kept s) ≡ own_without g s (kept ++ rest)
  unfolding remove_loop
  own-remove_loop w force test [] kept s =
      own-conditions s kept ∙ ap (own_without g s) (sym (append-nil kept))
  own-remove_loop w force test (c ∷ rest) kept s =
      let P = λ (r : Creature). own g r ≡ own_without g s (kept ++ c ∷ rest) in
      elim_both P (test c)
        (own-remove_loop w force test rest (kept ++ c ∷ []) s
          ∙ ap (own_without g s) (append_assoc kept (c ∷ []) rest))
        (elim_both P (not force && c.type == paralyze_type && w.is_walking)
          (own-remove_loop w force test rest kept (end_kind c.kind s)
            ∙ own-ended c.kind c s kept rest refl)
          (own-conditions s (kept ++ c ∷ rest)))

  pub own-remove_type :
      (w : World) (force : Bool) (type : ℕ) (s : Creature)
      → own g (remove_type w force type s) ≡ own g s
  unfolding remove_type own
  own-remove_type w force type s = own-remove_loop w force _ s.conditions [] s

  pub own-remove_type_id :
      (w : World) (force : Bool) (type id : ℕ) (s : Creature)
      → own g (remove_type_id w force type id s) ≡ own g s
  unfolding remove_type_id own
  own-remove_type_id w force type id s = own-remove_loop w force _ s.conditions [] s

  pub own-dismount : (s : Creature) → own g (dismount s) ≡ own g s
  unfolding own own_without dismount change_speed
  own-dismount s = let e = g.total-dismount s in omega arith

  pub own-on_add_condition :
      (w : World) (type : ℕ) (s : Creature) → own g (on_add_condition w type s) ≡ own g s
  unfolding on_add_condition
  own-on_add_condition w type s =
      let P = λ (r : Creature). own g r ≡ own g s in
      let calm = if_both P s.is_monster refl (
        if_both P (type == paralyze_type && has_condition w haste_type s)
          (own-remove_type w false haste_type s)
          (if_both P (type == haste_type && has_condition w paralyze_type s)
            (own-remove_type w false paralyze_type s) refl)) in
      if_both P _ (own-dismount _ ∙ calm) calm

  pub own-later :
      (c : Condition) (r : List Condition × Creature) (s : Creature) (l : List Condition)
      → r.1.is_player ≡ s.is_player
      → own_without g r.1 r.0 ≡ own_without g s l
      → own_without g r.1 (c ∷ r.0) ≡ own_without g s (c ∷ l)
  unfolding own_without parts
  own-later c r s l player same = let e = ap (λ p. part g p c.kind) player in omega arith

  -- The list and the creature that another comes with.
  abbrev pub Same : Creature → List Condition → List Condition × Creature → Type 0
  Same s l r = (r.1.is_player ≡ s.is_player) × (own_without g r.1 r.0 ≡ own_without g s l)

  pub own-add_to_first :
      (w : World) (new : Condition) (l : List Condition) (s : Creature)
      → IfSome (Same s l) (add_to_first w new l s)
  unfolding add_to_first own_without parts
  own-add_to_first w new [] s = IfSome-none (Same s [])
  own-add_to_first w new (c ∷ l) s =
      let e = player-add_to w c new c.kind s in
      let added = total-add_to g w c new c.kind s refl in
      let player = ap (λ p. part g p (add_to w c new c.kind s).0.kind + parts g p l) e in
      if_both (IfSome (Same s (c ∷ l))) (same_key c new)
        (IfSome-some (Same s (c ∷ l)) (e, omega arith))
        (IfSome-map (Same s l) (Same s (c ∷ l)) _ _ (own-add_to_first w new l s)
          (λ r h. (h.0, own-later c r s l h.0 h.1)))

  pub own-push_condition :
      (w : World) (b : Bool) (c : Condition) (t s : Creature)
      → u32 (g.total t) ≡ u32 (g.total s + part g s.is_player c.kind)
      → t.is_player ≡ s.is_player
      → t.conditions ≡ s.conditions
      → (b ≡ false → t ≡ s)
      → own g (push_condition w (b, c, t) s) ≡ own g s
  unfolding push_condition own own_without parts
  own-push_condition w true c t s total player list failed =
      own-on_add_condition w c.type _ ∙ own-conditions t (t.conditions ++ c ∷ []) ∙ pushed
    where
      pushed : own_without g t (t.conditions ++ c ∷ []) ≡ own g s
      pushed =
          let same = ap₂ (parts g) player list in
          let more = parts-append g t.is_player t.conditions (c ∷ []) in
          let one = ap (λ p. part g p c.kind) player in omega arith
  own-push_condition w false c t s total player list failed = ap (own g) (failed refl)

  pub own-add_condition :
      (w : World) (force : Bool) (c : Condition) (s : Creature)
      → own g (add_condition w force c s) ≡ own g s
  unfolding add_condition own own_without
  own-add_condition w force c s =
      let P = λ (r : Creature). own g r ≡ own g s in
      let r = start_kind w c c.kind s in
      elim_both P
        (not force && c.type == haste_type && has_condition w paralyze_type s && w.is_walking)
        (IfSome-both P _ (own-add_to_first w c s.conditions s) (λ p h. own-conditions p.1 p.0 ∙ h.1)
          (own-push_condition w r.0 r.1 r.2 s (total-start_kind g w c c.kind s refl)
            (player-start_kind w c c.kind s) (conditions-start_kind w c c.kind s)
            (start_kind-failed w c c.kind s)))
        refl

  pub own-execute_loop :
      (w : World) (interval : ℕ) (rest kept : List Condition) (s : Creature)
      → own g (execute_loop w interval rest kept s) ≡ own_without g s (kept ++ rest)
  unfolding execute_loop
  own-execute_loop w interval [] kept s =
      own-conditions s kept ∙ ap (own_without g s) (sym (append-nil kept))
  own-execute_loop w interval (c ∷ rest) kept s =
      let r = execute_kind w interval c s.is_player c.kind in
      let same = part-execute_kind g w interval c s.is_player s.is_player c.kind refl in
      elim_both (λ (t : Creature). own g t ≡ own_without g s (kept ++ c ∷ rest)) r.0
        (own-execute_loop w interval rest kept (end_kind (r.1).kind s)
          ∙ own-ended (r.1).kind c s kept rest same)
        (own-execute_loop w interval rest (kept ++ r.1 ∷ []) s ∙ own-changed c r.1 s kept rest same)
