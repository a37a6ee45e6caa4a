-- ===== src/Containers/Weights.antt =====
-- totalWeight (src/container.cpp) is the weight of what a container holds, at every depth.
use baiak_fonticak.Base.Words.{u32}
use baiak_fonticak.Base.{ℕ, zero, suc, ◌+◌, ◌≡◌, ap, subst, some, arith}
use mathlib.Core.Option.{none-ne-some, some-injective}
use baiak_fonticak.Containers.{Attributes, Item, Items, thing, container, nil, cons}
use baiak_fonticak.Containers.{get_weight, with_attributes, get_item_by_index, set_item}
use baiak_fonticak.Containers.{erase_item, push_back, Change, Operation}

unfoldable pub sum_weights : Items → ℕ
sum_weights nil = 0
sum_weights (cons item items) = get_weight item + sum_weights items

-- In a container the total weight is the sum of the weights of its items, modulo 2^32, and so
-- in all containers that it holds.
unfoldable mutual
  pub IsWeighed : Item → Type 0
  IsWeighed (thing a) = Unit
  IsWeighed (container a max_size total_weight ammo_count items) =
      (total_weight ≡ u32 (sum_weights items)) × AllWeighed items

  pub AllWeighed : Items → Type 0
  AllWeighed nil = Unit
  AllWeighed (cons item items) = IsWeighed item × AllWeighed items

-- A change keeps the items weighed and hands on the difference of their weights.
abbrev pub IsKept : Items → Change → Type 0
IsKept items change =
    AllWeighed change.items
    × (u32 (sum_weights change.items) ≡ u32 (sum_weights items + change.diff))

unfoldable pub IsSound : Operation → Type 0
IsSound operation =
    (max_size ammo_count : ℕ) (items : Items)
    → AllWeighed items
    → IsKept items (operation max_size ammo_count items)

pub sum-set_item :
    (i : ℕ) (new old : Item) (items : Items)
    → get_item_by_index i items ≡ some old
    → sum_weights (set_item i new items) + get_weight old ≡ sum_weights items + get_weight new
unfolding sum_weights set_item get_item_by_index
sum-set_item i new old nil found = absurd (none-ne-some old found)
sum-set_item zero new old (cons item items) found =
    let same = ap get_weight (some-injective item old found) in omega (arith, same)
sum-set_item (suc i) new old (cons item items) found =
    omega (arith, sum-set_item i new old items found)

pub sum-erase_item :
    (i : ℕ) (old : Item) (items : Items)
    → get_item_by_index i items ≡ some old
    → sum_weights (erase_item i items) + get_weight old ≡ sum_weights items
unfolding sum_weights erase_item get_item_by_index
sum-erase_item i old nil found = absurd (none-ne-some old found)
sum-erase_item zero old (cons item items) found =
    let same = ap get_weight (some-injective item old found) in omega (arith, same)
sum-erase_item (suc i) old (cons item items) found = omega (arith, sum-erase_item i old items found)

pub sum-push_back :
    (new : Item) (items : Items)
    → sum_weights (push_back new items) ≡ sum_weights items + get_weight new
unfolding sum_weights push_back
sum-push_back new nil = omega arith
sum-push_back new (cons item items) = omega (arith, sum-push_back new items)

pub AllWeighed-get :
    (i : ℕ) (old : Item) (items : Items)
    → AllWeighed items
    → get_item_by_index i items ≡ some old
    → IsWeighed old
unfolding AllWeighed get_item_by_index
AllWeighed-get i old nil h found = absurd (none-ne-some old found)
AllWeighed-get zero old (cons item items) h found =
    subst IsWeighed (some-injective item old found) h.0
AllWeighed-get (suc i) old (cons item items) h found = AllWeighed-get i old items h.1 found

pub AllWeighed-set_item :
    (i : ℕ) (new : Item) (items : Items)
    → AllWeighed items
    → IsWeighed new
    → AllWeighed (set_item i new items)
unfolding AllWeighed set_item
AllWeighed-set_item i new nil h w = tt
AllWeighed-set_item zero new (cons item items) h w = (w, h.1)
AllWeighed-set_item (suc i) new (cons item items) h w = (h.0, AllWeighed-set_item i new items h.1 w)

pub AllWeighed-erase_item :
    (i : ℕ) (items : Items) → AllWeighed items → AllWeighed (erase_item i items)
unfolding AllWeighed erase_item
AllWeighed-erase_item i nil h = tt
AllWeighed-erase_item zero (cons item items) h = h.1
AllWeighed-erase_item (suc i) (cons item items) h = (h.0, AllWeighed-erase_item i items h.1)

pub AllWeighed-push_back :
    (new : Item) (items : Items)
    → AllWeighed items
    → IsWeighed new
    → AllWeighed (push_back new items)
unfolding AllWeighed push_back
AllWeighed-push_back new nil h w = (w, tt)
AllWeighed-push_back new (cons item items) h w = (h.0, AllWeighed-push_back new items h.1 w)

pub IsWeighed-with_attributes :
    (b : Attributes) (item : Item) → IsWeighed item → IsWeighed (with_attributes b item)
unfolding IsWeighed
IsWeighed-with_attributes b (thing a) h = tt
IsWeighed-with_attributes b (container a m tw am items) h = h
