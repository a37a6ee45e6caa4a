-- ===== src/Containers/Applying.antt =====
-- An operation deep inside keeps every total weight on the way (src/container.cpp).
use baiak_fonticak.Base.{ℕ, ◌≡◌, sym, subst, ◌∙◌, ◌≢◌, inl, inr, none, some, List, [], ◌∷◌}
use baiak_fonticak.Base.{arith, count, Option-cases}
use baiak_fonticak.Base.Words.{add_u32}
use mathlib.Core.Option.{none-ne-some, some-injective}
use baiak_fonticak.Containers.{Attributes, Item, Items, thing, container, get_weight}
use baiak_fonticak.Containers.{get_item_by_index, set_item, Change, Operation, add_thing}
use baiak_fonticak.Containers.{internal_add_thing, add_item_back, update_thing}
use baiak_fonticak.Containers.{replace_thing, remove_thing, apply_at}
use baiak_fonticak.Containers.Weights.{IsWeighed, IsKept, IsSound, sum-set_item}
use baiak_fonticak.Containers.Weights.{AllWeighed-get, AllWeighed-set_item}
use baiak_fonticak.Containers.Keeping.{add_thing-IsSound, internal_add_thing-IsSound}
use baiak_fonticak.Containers.Keeping.{add_item_back-IsSound, update_thing-IsSound}
use baiak_fonticak.Containers.Keeping.{replace_thing-IsSound, remove_thing-IsSound}

-- The operations of containers, with what they are given.
pub data Step : Type 0 where
  added : ℕ → Item → Step
  internally_added : Item → Step
  added_back : Item → Step
  updated : ℕ → Attributes → ℕ → Step
  replaced : ℕ → Item → Step
  removed : ℕ → ℕ → Step

unfoldable pub operation_of : Step → Operation
operation_of (added index item) = add_thing index item
operation_of (internally_added item) = internal_add_thing item
operation_of (added_back item) = add_item_back item
operation_of (updated index after count) = update_thing index after count
operation_of (replaced index item) = replace_thing index item
operation_of (removed index count) = remove_thing index count

-- An item that is put in is weighed itself.
unfoldable pub IsFit : Step → Type 0
IsFit (added index item) = IsWeighed item
IsFit (internally_added item) = IsWeighed item
IsFit (added_back item) = IsWeighed item
IsFit (updated index after count) = Unit
IsFit (replaced index item) = IsWeighed item
IsFit (removed index count) = Unit

operation_of-IsSound : (s : Step) → IsFit s → IsSound (operation_of s)
unfolding operation_of IsFit
operation_of-IsSound (added index item) w = add_thing-IsSound index item w
operation_of-IsSound (internally_added item) w = internal_add_thing-IsSound item w
operation_of-IsSound (added_back item) w = add_item_back-IsSound item w
operation_of-IsSound (updated index after count) w = update_thing-IsSound index after count
operation_of-IsSound (replaced index item) w = replace_thing-IsSound index item w
operation_of-IsSound (removed index count) w = remove_thing-IsSound index count

-- The item after an operation inside it: weighed, and heavier by the difference.
abbrev Result : Item → Item × ℕ → Type 0
Result before p = IsWeighed p.0 × (get_weight p.0 ≡ add_u32 (get_weight before) p.1)

apply_missing :
    (i : ℕ) (way : List ℕ) (operation : Operation) (a : Attributes) (m tw am : ℕ) (items : Items)
    (p : Item × ℕ)
    → get_item_by_index i items ≡ none
    → apply_at (i ∷ way) operation (container a m tw am items) ≢ some p
unfolding apply_at
apply_missing i way operation a m tw am items p missing done = ground (arith, missing, done)

apply_stuck :
    (i : ℕ) (way : List ℕ) (operation : Operation) (a : Attributes) (m tw am : ℕ) (items : Items)
    (item : Item) (p : Item × ℕ)
    → get_item_by_index i items ≡ some item
    → apply_at way operation item ≡ none
    → apply_at (i ∷ way) operation (container a m tw am items) ≢ some p
unfolding apply_at
apply_stuck i way operation a m tw am items item p here stuck done =
    ground (arith, here, stuck, done)

apply_further :
    (i : ℕ) (way : List ℕ) (operation : Operation) (a : Attributes) (m tw am : ℕ) (items : Items)
    (item new : Item) (diff : ℕ)
    → get_item_by_index i items ≡ some item
    → apply_at way operation item ≡ some (new, diff)
    → apply_at (i ∷ way) operation (container a m tw am items)
      ≡ some (container a m (add_u32 tw diff) am (set_item i new items), diff)
unfolding apply_at
apply_further i way operation a m tw am items item new diff here inner = ground (arith, here, inner)

changed_here :
    (a : Attributes) (m tw am : ℕ) (items : Items) (c : Change)
    → IsWeighed (container a m tw am items)
    → IsKept items c
    → Result
        (container a m tw am items)
        (container a m (add_u32 tw c.diff) c.ammo_count c.items, c.diff)
unfolding IsWeighed get_weight
changed_here a m tw am items c w (kept, differ) = ((omega (arith, differ, w.0), kept), omega arith)

changed_below :
    (i : ℕ) (a : Attributes) (m tw am : ℕ) (items : Items) (item new : Item) (diff : ℕ)
    → IsWeighed (container a m tw am items)
    → get_item_by_index i items ≡ some item
    → Result item (new, diff)
    → Result
        (container a m tw am items)
        (container a m (add_u32 tw diff) am (set_item i new items), diff)
unfolding IsWeighed get_weight
changed_below i a m tw am items item new diff w here (weighed, heavier) = (
  (
    omega (arith, w.0, heavier, sum-set_item i new item items here),
    AllWeighed-set_item i new items w.1 weighed,
  ),
  omega arith,
)

apply_at_lem :
    (way : List ℕ) (operation : Operation) (item : Item) (p : Item × ℕ)
    → IsSound operation
    → IsWeighed item
    → apply_at way operation item ≡ some p
    → Result item p
unfolding apply_at IsSound IsWeighed
apply_at_lem [] operation (thing a) p sound w done = absurd (none-ne-some p done)
apply_at_lem (i ∷ way) operation (thing a) p sound w done = absurd (none-ne-some p done)
apply_at_lem [] operation (container a m tw am items) p sound w done =
    let c = operation m am items in
    subst (Result (container a m tw am items))
      (some-injective (container a m (add_u32 tw c.diff) c.ammo_count c.items, c.diff) p done)
      (changed_here a m tw am items c w (sound m am items w.1))
apply_at_lem (i ∷ way) operation (container a m tw am items) p sound w done =
    elim (Option-cases (get_item_by_index i items)) [
      | inl missing ↦ absurd (apply_missing i way operation a m tw am items p missing done)
      | inr (item, here) ↦ elim (Option-cases (apply_at way operation item)) [
        | inl stuck ↦ absurd (apply_stuck i way operation a m tw am items item p here stuck done)
        | inr ((new, diff), inner) ↦
            let heavier =
              apply_at_lem way operation item (new, diff) sound
                (AllWeighed-get i item items w.1 here) inner in
            subst (Result (container a m tw am items))
              (some-injective (container a m (add_u32 tw diff) am (set_item i new items), diff) p
                (sym (apply_further i way operation a m tw am items item new diff here inner)
                  ∙ done))
              (changed_below i a m tw am items item new diff w here heavier)
      ]
    ]

-- Any operation on a container at any depth keeps, in every container, the total weight equal to
-- the sum of the weights of its items modulo 2^32, and makes the outermost container heavier by
-- the difference that updateItemWeight carries up. An item that is put in is to be weighed.
pub apply_at-IsWeighed :
    (way : List ℕ) (s : Step) (before after : Item) (diff : ℕ)
    → IsWeighed before
    → IsFit s
    → apply_at way (operation_of s) before ≡ some (after, diff)
    → IsWeighed after × (get_weight after ≡ add_u32 (get_weight before) diff)
apply_at-IsWeighed way s before after diff w fit done =
    apply_at_lem way (operation_of s) before (after, diff) (operation_of-IsSound s fit) w done
