-- ===== src/Containers/Examples.antt =====
-- A backpack with a bag of gold inside.
use baiak_fonticak.Base.Words.{add_u32}
use baiak_fonticak.Base.{◌-◌, ◌^◌, ◌≡◌, refl, true, false, some, [], ◌∷◌, arith}
use baiak_fonticak.Containers.{Attributes, Item, thing, container, nil, cons, item_weight}
use baiak_fonticak.Containers.{get_weight, apply_at, get_item_by_index, remove_thing}
use baiak_fonticak.Containers.{set_item, get_item_holding_count, holding_loop, advance}
use baiak_fonticak.Containers.Weights.{sum_weights, IsWeighed, AllWeighed}
use baiak_fonticak.Containers.Applying.{removed, operation_of, IsFit, apply_at-IsWeighed}
use baiak_fonticak.Containers.Holding.{held, count_items, get_item_holding_count_lem}

abbrev gold : Attributes
gold = record { base_weight = 10; count = 50; is_stackable = true }

abbrev leather : Attributes
leather = record { base_weight = 800; count = 1; is_stackable = false }

abbrev bag : Item
bag = container leather 8 500 50 (cons (thing gold) nil)

abbrev backpack : Item
backpack = container leather 20 1300 1 (cons bag nil)

abbrev lighter_bag : Item
lighter_bag = container leather 8 200 20 (cons (thing (record gold { count = 20 })) nil)

abbrev lighter : Item
lighter = container leather 20 1000 1 (cons lighter_bag nil)

backpack-IsWeighed : IsWeighed backpack
unfolding IsWeighed AllWeighed sum_weights get_weight item_weight
backpack-IsWeighed = (refl, ((refl, (tt, tt)), tt))

-- Thirty gold leave the bag inside the backpack, which gets 300 lighter.
apply_at-IsWeighed_example :
    IsWeighed lighter × (get_weight lighter ≡ add_u32 (get_weight backpack) (2 ^ 32 - 300))
unfolding apply_at operation_of remove_thing get_item_by_index set_item get_weight item_weight IsFit
apply_at-IsWeighed_example =
    apply_at-IsWeighed (0 ∷ []) (removed 0 30) backpack lighter (2 ^ 32 - 300) backpack-IsWeighed tt
      refl

get_item_holding_count_lem_example : get_item_holding_count 10 backpack ≡ some (held backpack)
unfolding held count_items
get_item_holding_count_lem_example =
    get_item_holding_count_lem 10 backpack (omega arith) (omega arith)

two_items : get_item_holding_count 10 backpack ≡ some 2
unfolding get_item_holding_count holding_loop advance
two_items = refl
