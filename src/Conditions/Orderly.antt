-- ===== src/Conditions/Orderly.antt =====
-- The keys and classes in the list of conditions of a creature (src/creature.cpp): no two of a
-- type, id and subId, and each of the class of its type, as the casts of addCondition rely on.
use baiak_fonticak.Base.{ℕ, ◌≡◌, refl, sym, ap, subst, ◌∙◌, Bool, false, not, ◌&&◌, some}
use baiak_fonticak.Base.{option_map, List, [], ◌∷◌, ◌++◌, map, append-nil, append_assoc, All}
use baiak_fonticak.Base.{◌==◌}
use baiak_fonticak.Conditions.{Condition}
use baiak_fonticak.Conditions.Codes.{paralyze_type}
use baiak_fonticak.Conditions.Creating.{create_kind}
use baiak_fonticak.Conditions.Bearer.{Creature, World, execute_kind, end_kind}
use baiak_fonticak.Conditions.Carrying.{remove_loop, execute_loop}
use baiak_fonticak.Conditions.Marks.{mark, class}
use baiak_fonticak.Conditions.Steps.{mark-execute_kind}
use baiak_fonticak.Conditions.Cases.{elim_both}

abbrev pub Mark : Type 0
Mark = ℕ × ℕ × ℕ × ℕ

unfoldable pub same_mark : Mark → Mark → Bool
same_mark m n = m.0 == n.0 && m.1 == n.1 && m.2 == n.2

-- The class is the one that createCondition makes for the type.
unfoldable pub IsFit : Mark → Type 0
IsFit m = option_map class (create_kind m.0 0) ≡ some m.3

-- All fit, and none has the key of a later one.
unfoldable pub IsOrderly : List Mark → Type 0
IsOrderly [] = Unit
IsOrderly (m ∷ l) = IsFit m × All (λ n. same_mark m n ≡ false) l × IsOrderly l

unfoldable pub AreOrderly : List Condition → Type 0
AreOrderly l = IsOrderly (map mark l)

pub All-without :
    {A : Type 0} (P : A → Type 0) (l : List A) (x : A) (m : List A)
    → All P (l ++ x ∷ m)
    → All P (l ++ m)
All-without P [] x m h = h.1
All-without P (y ∷ l) x m h = (h.0, All-without P l x m h.1)

pub All-more :
    {A : Type 0} (P : A → Type 0) (l : List A) (x : A) → All P l → P x → All P (l ++ x ∷ [])
All-more P [] x h hx = (hx, tt)
All-more P (y ∷ l) x h hx = (h.0, All-more P l x h.1 hx)

pub IsOrderly-without :
    (l : List Mark) (x : Mark) (m : List Mark) → IsOrderly (l ++ x ∷ m) → IsOrderly (l ++ m)
unfolding IsOrderly
IsOrderly-without [] x m h = h.2
IsOrderly-without (y ∷ l) x m h = (h.0, All-without _ l x m h.1, IsOrderly-without l x m h.2)

pub IsOrderly-more :
    (l : List Mark) (x : Mark)
    → IsOrderly l
    → IsFit x
    → All (λ m. same_mark m x ≡ false) l
    → IsOrderly (l ++ x ∷ [])
unfolding IsOrderly
IsOrderly-more [] x h fits apart = (fits, tt, tt)
IsOrderly-more (y ∷ l) x h fits apart =
    (h.0, All-more _ l x h.1 apart.0, IsOrderly-more l x h.2 fits apart.1)

pub map-append : {A B : Type 0} (f : A → B) (l m : List A) → map f (l ++ m) ≡ map f l ++ map f m
map-append f [] m = refl
map-append f (x ∷ l) m = ap (λ r. f x ∷ r) (map-append f l m)

pub AreOrderly-without :
    (l : List Condition) (c : Condition) (m : List Condition)
    → AreOrderly (l ++ c ∷ m)
    → AreOrderly (l ++ m)
unfolding AreOrderly
AreOrderly-without l c m h = subst IsOrderly (sym (map-append mark l m)) (
    IsOrderly-without (map mark l) (mark c) (map mark m)
      (subst IsOrderly (map-append mark l (c ∷ m)) h))

pub AreOrderly-changed :
    (l : List Condition) (c d : Condition) (m : List Condition)
    → mark d ≡ mark c
    → AreOrderly (l ++ c ∷ m)
    → AreOrderly ((l ++ d ∷ []) ++ m)
unfolding AreOrderly
AreOrderly-changed l c d m e h =
    subst IsOrderly
      (map-append mark l (c ∷ m)
        ∙ ap (λ x. map mark l ++ x ∷ map mark m) (sym e)
        ∙ sym (map-append mark l (d ∷ m))
        ∙ ap (map mark) (sym (append_assoc l (d ∷ []) m)))
      h

pub AreOrderly-remove_loop :
    (w : World) (force : Bool) (test : Condition → Bool) (rest kept : List Condition) (s : Creature)
    → AreOrderly (kept ++ rest)
    → AreOrderly (remove_loop w force test rest kept s).conditions
unfolding remove_loop
AreOrderly-remove_loop w force test [] kept s h = subst AreOrderly (append-nil kept) h
AreOrderly-remove_loop w force test (c ∷ rest) kept s h =
    let P = λ (r : Creature). AreOrderly r.conditions in
    elim_both P (test c)
      (AreOrderly-remove_loop w force test rest (kept ++ c ∷ []) s
        (AreOrderly-changed kept c c rest refl h))
      (elim_both P (not force && c.type == paralyze_type && w.is_walking)
        (AreOrderly-remove_loop w force test rest kept (end_kind c.kind s)
          (AreOrderly-without kept c rest h))
        h)

pub AreOrderly-execute_loop :
    (w : World) (interval : ℕ) (rest kept : List Condition) (s : Creature)
    → AreOrderly (kept ++ rest)
    → AreOrderly (execute_loop w interval rest kept s).conditions
unfolding execute_loop
AreOrderly-execute_loop w interval [] kept s h = subst AreOrderly (append-nil kept) h
AreOrderly-execute_loop w interval (c ∷ rest) kept s h =
    let r = execute_kind w interval c s.is_player c.kind in
    elim_both (λ (t : Creature). AreOrderly t.conditions) r.0
      (AreOrderly-execute_loop w interval rest kept (end_kind (r.1).kind s)
        (AreOrderly-without kept c rest h))
      (AreOrderly-execute_loop w interval rest (kept ++ r.1 ∷ []) s (
        AreOrderly-changed kept c r.1 rest (mark-execute_kind w interval c s.is_player c.kind refl)
          h))
