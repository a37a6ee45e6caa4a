-- ===== src/Containers.antt =====
-- Containers (src/container.h, src/container.cpp). A container is the tree of what it holds, and
-- a container inside others is named by the indices on the way to it, so that the loop of
-- updateItemWeight over the parents is the way back. Messages to clients change no container.
pub mod Weights
pub mod Keeping
pub mod Applying
pub mod Holding
mod Examples
use baiak_fonticak.Base.Words.{max_int32, u8, u32, sub_u32, add_u32}
use baiak_fonticak.Base.{ℕ, zero, suc, ◌+◌, ◌-◌, ◌*◌, ◌/◌, ◌%◌, ◌^◌, ◌≤◌, ◌<◌, min, max}
use baiak_fonticak.Base.{bit_and, bit_or, bit_xor, String, ◌≡◌, refl, sym, ap, ap₂, subst}
use baiak_fonticak.Base.{fun_ext, ◌∙◌, ◌≢◌, ◌↔◌, ◌⊎◌, inl, inr, Bool, true, false, not, ◌&&◌}
use baiak_fonticak.Base.{◌||◌, Option, none, some, option_map, List, [], ◌∷◌, ◌++◌, map}
use baiak_fonticak.Base.{append-nil, append_assoc, arith, str_eq, length, is_empty}
use baiak_fonticak.Base.{get_elem?, set, get_or, take, drop, length-append, take_prefix}
use baiak_fonticak.Base.{drop_prefix, take-append-drop, length-take-le, length-drop-le}
use baiak_fonticak.Base.{length-set, All, contains, erase_first, IsDistinct, count-append}
use baiak_fonticak.Base.{contains-iff-count, count-erase_first, length-erase_first-le}
use baiak_fonticak.Base.{same_bytes, same_bytes_self, same_bytes_lem, ltb, leb, ◌==◌, ◌!=◌}
use baiak_fonticak.Base.{if◌then◌else◌, ltb→lt, lt→ltb, leb→le, le→leb, lt→leb_false}
use baiak_fonticak.Base.{lt→ltb_false, ==_iff, ==_self, tests, Bool-cases, Option-cases}

-- What a container reads of an item: getBaseWeight, getItemCount, isStackable.
pub record Attributes : Type 0 where
  pub base_weight : ℕ
  pub count : ℕ
  pub is_stackable : Bool

-- A container has maxSize, totalWeight, ammoCount and itemlist.
mutual
  pub data Item : Type 0 where
    thing : Attributes → Item
    container : Attributes → ℕ → ℕ → ℕ → Items → Item

  pub data Items : Type 0 where
    nil : Items
    cons : Item → Items → Items

-- Item::getWeight
unfoldable pub item_weight : Attributes → ℕ
item_weight a = if a.is_stackable then u32 (a.base_weight * max 1 a.count) else u32 a.base_weight

unfoldable pub get_weight : Item → ℕ
get_weight (thing a) = item_weight a
get_weight (container a max_size total_weight ammo_count items) =
    add_u32 (item_weight a) total_weight

abbrev pub attributes : Item → Attributes
attributes (thing a) = a
attributes (container a max_size total_weight ammo_count items) = a

abbrev pub with_attributes : Attributes → Item → Item
with_attributes b (thing a) = thing b
with_attributes b (container a max_size total_weight ammo_count items) =
    container b max_size total_weight ammo_count items

-- getItemByIndex
unfoldable pub get_item_by_index : ℕ → Items → Option Item
get_item_by_index i nil = none
get_item_by_index zero (cons item items) = some item
get_item_by_index (suc i) (cons item items) = get_item_by_index i items

unfoldable pub set_item : ℕ → Item → Items → Items
set_item i new nil = nil
set_item zero new (cons item items) = cons new items
set_item (suc i) new (cons item items) = cons item (set_item i new items)

unfoldable pub erase_item : ℕ → Items → Items
erase_item i nil = nil
erase_item zero (cons item items) = items
erase_item (suc i) (cons item items) = cons item (erase_item i items)

unfoldable pub push_back : Item → Items → Items
push_back new nil = cons new nil
push_back new (cons item items) = cons item (push_back new items)

-- The fields that an operation changes, with the difference that it hands to updateItemWeight.
pub record Change : Type 0 where
  pub items : Items
  pub ammo_count : ℕ
  pub diff : ℕ

abbrev pub unchanged : ℕ → Items → Change
unchanged ammo_count items = record { items = items; ammo_count = ammo_count; diff = 0 }

-- An operation of a container: from maxSize, ammoCount and itemlist.
abbrev pub Operation : Type 0
Operation = ℕ → ℕ → Items → Change

unfoldable pub add_thing : ℕ → Item → Operation
add_thing index item max_size ammo_count items =
    if leb max_size index then unchanged ammo_count items else record {
      items = cons item items;
      ammo_count = add_u32 ammo_count (attributes item).count;
      diff = get_weight item;
    }

-- internalAddThing: addThing with no test of the index.
unfoldable pub internal_add_thing : Item → Operation
internal_add_thing item max_size ammo_count items = record {
  items = cons item items;
  ammo_count = add_u32 ammo_count (attributes item).count;
  diff = get_weight item;
}

unfoldable pub add_item_back : Item → Operation
add_item_back item max_size ammo_count items = record {
  items = push_back item items;
  ammo_count = add_u32 ammo_count (attributes item).count;
  diff = get_weight item;
}

-- updateThing of the item at `index`; `after` is what setID and setSubType make of it.
unfoldable pub update_thing : ℕ → Attributes → ℕ → Operation
update_thing index after count max_size ammo_count items = elim (get_item_by_index index items) [
  | none ↦ unchanged ammo_count items
  | some item ↦ record {
    items = set_item index (with_attributes after item) items;
    ammo_count = sub_u32 (add_u32 ammo_count count) (attributes item).count;
    diff = sub_u32 (get_weight (with_attributes after item)) (get_weight item);
  }
]

unfoldable pub replace_thing : ℕ → Item → Operation
replace_thing index item max_size ammo_count items = elim (get_item_by_index index items) [
  | none ↦ unchanged ammo_count items
  | some replaced ↦ record {
    items = set_item index item items;
    ammo_count = add_u32 (sub_u32 ammo_count (attributes replaced).count) (attributes item).count;
    diff = sub_u32 (get_weight item) (get_weight replaced);
  }
]

-- removeThing of the item at `index`: a part of a stack is cut off, all else is erased.
unfoldable pub remove_thing : ℕ → ℕ → Operation
remove_thing index count max_size ammo_count items = elim (get_item_by_index index items) [
  | none ↦ unchanged ammo_count items
  | some item ↦
      let a = attributes item in
      let new_count = u8 (max_int32 (sub_u32 a.count count)) in
      let cut = with_attributes (record a { count = new_count }) item in
      if a.is_stackable && count != a.count
      then record {
        items = set_item index cut items;
        ammo_count = sub_u32 ammo_count (sub_u32 a.count new_count);
        diff = sub_u32 (get_weight cut) (get_weight item);
      }
      else record {
        items = erase_item index items;
        ammo_count = sub_u32 ammo_count a.count;
        diff = sub_u32 0 (get_weight item);
      }
]

-- The operation on the container at the end of the way, and updateItemWeight on it and on every
-- container on the way: the new container and the difference. None where the way leads nowhere.
unfoldable pub apply_at : List ℕ → Operation → Item → Option (Item × ℕ)
apply_at way operation (thing a) = none
apply_at [] operation (container a max_size total_weight ammo_count items) =
    let change = operation max_size ammo_count items in
    some (
      container a max_size (add_u32 total_weight change.diff) change.ammo_count change.items,
      change.diff,
    )
apply_at (i ∷ way) operation (container a max_size total_weight ammo_count items) =
    elim (get_item_by_index i items) [
      | none ↦ none
      | some item ↦ elim (apply_at way operation item) [
        | none ↦ none
        | some p ↦
            some (
              container a max_size (add_u32 total_weight p.1) ammo_count (set_item i p.0 items),
              p.1,
            )
      ]
    ]

-- A ContainerIterator: the items from `cur` to the end of the first container of `over`, and the
-- other containers of `over`. It has a next item while there is one.
pub record ContainerIterator : Type 0 where
  pub cur : Items
  pub over : List Items

abbrev pub contents : Item → Items
contents (thing a) = nil
contents (container a max_size total_weight ammo_count items) = items

-- pop_front of `over` at the end of a container; containers in `over` are not empty.
abbrev pub next_container : Items → List Items → ContainerIterator
next_container (cons item items) over = record { cur = cons item items; over = over }
next_container nil [] = record { cur = nil; over = [] }
next_container nil (items ∷ over) = record { cur = items; over = over }

abbrev pub push_contents : Items → List Items → List Items
push_contents nil over = over
push_contents (cons item items) over = over ++ cons item items ∷ []

unfoldable pub advance : Item → Items → List Items → ContainerIterator
advance item rest over = next_container rest (push_contents (contents item) over)

-- The loop of getItemHoldingCount, on fuel.
unfoldable pub holding_loop : ℕ → ContainerIterator → ℕ → Option ℕ
holding_loop zero it counter = none
holding_loop (suc fuel) it counter = elim it.cur [
  | nil ↦ some counter
  | cons item rest ↦ holding_loop fuel (advance item rest it.over) (add_u32 counter 1)
]

unfoldable pub get_item_holding_count : ℕ → Item → Option ℕ
get_item_holding_count fuel item = holding_loop fuel (record { cur = contents item; over = [] }) 0
