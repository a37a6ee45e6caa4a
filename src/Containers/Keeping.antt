-- ===== src/Containers/Keeping.antt =====
-- Each operation of a container (src/container.cpp) hands on the right difference of weights.
use baiak_fonticak.Base.Words.{max_int32, u8, sub_u32, add_u32}
use baiak_fonticak.Base.{ℕ, ◌≡◌, sym, subst, inl, inr, Bool, true, false, ◌&&◌, Option, none}
use baiak_fonticak.Base.{some, arith, count, leb, ◌!=◌, if◌then◌else◌, Option-cases}
use baiak_fonticak.Containers.{Attributes, Item, Items, cons, get_weight, attributes}
use baiak_fonticak.Containers.{with_attributes, get_item_by_index, set_item, erase_item}
use baiak_fonticak.Containers.{Change, add_thing, unchanged, internal_add_thing}
use baiak_fonticak.Containers.{add_item_back, update_thing, replace_thing, remove_thing}
use baiak_fonticak.Containers.Weights.{sum_weights, IsWeighed, AllWeighed, IsKept, IsSound}
use baiak_fonticak.Containers.Weights.{sum-set_item, sum-erase_item, sum-push_back}
use baiak_fonticak.Containers.Weights.{AllWeighed-get, AllWeighed-set_item}
use baiak_fonticak.Containers.Weights.{AllWeighed-erase_item, AllWeighed-push_back}
use baiak_fonticak.Containers.Weights.{IsWeighed-with_attributes}

unchanged-IsKept : (am : ℕ) (items : Items) → AllWeighed items → IsKept items (unchanged am items)
unchanged-IsKept am items h = (h, omega arith)

added-IsKept :
    (item : Item) (am : ℕ) (items : Items)
    → IsWeighed item
    → AllWeighed items
    → IsKept items (record { items = cons item items; ammo_count = am; diff = get_weight item })
unfolding sum_weights AllWeighed
added-IsKept item am items w h = ((w, h), omega arith)

replaced-IsKept :
    (i : ℕ) (new old : Item) (am : ℕ) (items : Items)
    → get_item_by_index i items ≡ some old
    → IsWeighed new
    → AllWeighed items
    → IsKept items (record {
      items = set_item i new items;
      ammo_count = am;
      diff = sub_u32 (get_weight new) (get_weight old);
    })
replaced-IsKept i new old am items here w h =
    (AllWeighed-set_item i new items h w, omega (arith, sum-set_item i new old items here))

erased-IsKept :
    (i : ℕ) (old : Item) (am : ℕ) (items : Items)
    → get_item_by_index i items ≡ some old
    → AllWeighed items
    → IsKept items
        (record { items = erase_item i items; ammo_count = am; diff = sub_u32 0 (get_weight old) })
erased-IsKept i old am items here h =
    (AllWeighed-erase_item i items h, omega (arith, sum-erase_item i old items here))

either-IsKept :
    (b : Bool) (items : Items) (c d : Change)
    → IsKept items c
    → IsKept items d
    → IsKept items (if b then c else d)
either-IsKept true items c d kc kd = kc
either-IsKept false items c d kc kd = kd

pub add_thing-IsSound : (index : ℕ) (item : Item) → IsWeighed item → IsSound (add_thing index item)
unfolding add_thing IsSound
add_thing-IsSound index item w m am items h =
    either-IsKept (leb m index) items (unchanged am items)
      (record {
        items = cons item items;
        ammo_count = add_u32 am (attributes item).count;
        diff = get_weight item;
      })
      (unchanged-IsKept am items h)
      (added-IsKept item (add_u32 am (attributes item).count) items w h)

pub internal_add_thing-IsSound : (item : Item) → IsWeighed item → IsSound (internal_add_thing item)
unfolding internal_add_thing IsSound
internal_add_thing-IsSound item w m am items h =
    added-IsKept item (add_u32 am (attributes item).count) items w h

pub add_item_back-IsSound : (item : Item) → IsWeighed item → IsSound (add_item_back item)
unfolding add_item_back IsSound
add_item_back-IsSound item w m am items h =
    (AllWeighed-push_back item items h w, omega (arith, sum-push_back item items))

-- An operation that looks an item up first, by the two cases of the lookup.
looked_up-IsKept :
    (i : ℕ) (am : ℕ) (items : Items) (f : Item → Change)
    → AllWeighed items
    → ((item : Item) → get_item_by_index i items ≡ some item → IsKept items (f item))
    → IsKept items
        (elim (get_item_by_index i items) [ none ↦ unchanged am items | some item ↦ f item ])
looked_up-IsKept i am items f h kept = elim (Option-cases (get_item_by_index i items)) [
  | inl missing ↦
      subst
        (λ (o : Option Item).
          IsKept items (elim o [ none ↦ unchanged am items | some item ↦ f item ]))
        (sym missing) (unchanged-IsKept am items h)
  | inr (item, here) ↦
      subst
        (λ (o : Option Item). IsKept items (elim o [ none ↦ unchanged am items | some k ↦ f k ]))
        (sym here) (kept item here)
]

pub update_thing-IsSound :
    (index : ℕ) (after : Attributes) (count : ℕ) → IsSound (update_thing index after count)
unfolding update_thing IsSound
update_thing-IsSound index after count m am items h =
    looked_up-IsKept index am items
      (λ item. record {
        items = set_item index (with_attributes after item) items;
        ammo_count = sub_u32 (add_u32 am count) (attributes item).count;
        diff = sub_u32 (get_weight (with_attributes after item)) (get_weight item);
      })
      h
      (λ item here.
        replaced-IsKept index (with_attributes after item) item
          (sub_u32 (add_u32 am count) (attributes item).count) items here
          (IsWeighed-with_attributes after item (AllWeighed-get index item items h here)) h)

pub replace_thing-IsSound :
    (index : ℕ) (item : Item) → IsWeighed item → IsSound (replace_thing index item)
unfolding replace_thing IsSound
replace_thing-IsSound index item w m am items h =
    looked_up-IsKept index am items
      (λ replaced. record {
        items = set_item index item items;
        ammo_count = add_u32 (sub_u32 am (attributes replaced).count) (attributes item).count;
        diff = sub_u32 (get_weight item) (get_weight replaced);
      })
      h
      (λ replaced here.
        replaced-IsKept index item replaced
          (add_u32 (sub_u32 am (attributes replaced).count) (attributes item).count) items here w h)

pub remove_thing-IsSound : (index count : ℕ) → IsSound (remove_thing index count)
unfolding remove_thing IsSound
remove_thing-IsSound index count m am items h =
    let new_count = λ (item : Item). u8 (max_int32 (sub_u32 (attributes item).count count)) in
    let cut =
      λ (item : Item). with_attributes (record (attributes item) { count = new_count item }) item in
    let part = λ (item : Item).
      let c : Change = record {
        items = set_item index (cut item) items;
        ammo_count = sub_u32 am (sub_u32 (attributes item).count (new_count item));
        diff = sub_u32 (get_weight (cut item)) (get_weight item);
      } in
      c in
    let whole = λ (item : Item).
      let c : Change = record {
        items = erase_item index items;
        ammo_count = sub_u32 am (attributes item).count;
        diff = sub_u32 0 (get_weight item);
      } in
      c in
    looked_up-IsKept index am items
      (λ item.
        if (attributes item).is_stackable && count != (attributes item).count
        then part item
        else whole item)
      h
      (λ item here.
        either-IsKept ((attributes item).is_stackable && count != (attributes item).count) items
          (part item) (whole item)
          (replaced-IsKept index (cut item) item
            (sub_u32 am (sub_u32 (attributes item).count (new_count item))) items here
            (IsWeighed-with_attributes (record (attributes item) { count = new_count item }) item
              (AllWeighed-get index item items h here))
            h)
          (erased-IsKept index item (sub_u32 am (attributes item).count) items here h))
