-- ===== src/Containers/Holding.antt =====
-- getItemHoldingCount (src/container.cpp): the iterator, which goes through the containers level
-- by level, meets every item at every depth once.
use baiak_fonticak.Base.Words.{add_u32}
use baiak_fonticak.Containers.{advance, next_container, holding_loop, get_item_holding_count}
use baiak_fonticak.Containers.{Item, Items, thing, container, nil, cons, contents}
use baiak_fonticak.Containers.{ContainerIterator, push_contents}
use baiak_fonticak.Base.{ℕ, zero, suc, ◌+◌, ◌^◌, ◌<◌, ◌≡◌, refl, ap, ◌∙◌, some, List, []}
use baiak_fonticak.Base.{◌∷◌, ◌++◌, arith}

-- The items that an item holds, by recursion on its tree.
unfoldable mutual
  pub held : Item → ℕ
  held (thing a) = 0
  held (container a max_size total_weight ammo_count items) = count_items items

  pub count_items : Items → ℕ
  count_items nil = 0
  count_items (cons item items) = suc (held item + count_items items)

count_all : List Items → ℕ
count_all [] = 0
count_all (items ∷ over) = count_items items + count_all over

-- No container of `over` is empty.
AllFull : List Items → Type 0
AllFull [] = Unit
AllFull (nil ∷ over) = ⊥
AllFull (cons item items ∷ over) = AllFull over

-- There is a next item unless nothing is left.
IsReady : Items → List Items → Type 0
IsReady nil [] = Unit
IsReady nil (items ∷ over) = ⊥
IsReady (cons item items) over = AllFull over

count_contents : (item : Item) → count_items (contents item) ≡ held item
unfolding held count_items
count_contents (thing a) = refl
count_contents (container a m tw am items) = refl

count-append_one :
    (over : List Items) (items : Items)
    → count_all (over ++ items ∷ []) ≡ count_all over + count_items items
unfolding count_all
count-append_one [] items = omega arith
count-append_one (first ∷ over) items = omega (arith, count-append_one over items)

AllFull-push :
    (items : Items) (over : List Items) → AllFull over → AllFull (push_contents items over)
unfolding AllFull
AllFull-push nil over h = h
AllFull-push (cons item items) [] h = tt
AllFull-push (cons item items) (nil ∷ over) h = h
AllFull-push (cons item items) (cons k ks ∷ over) h = AllFull-push (cons item items) over h

count-push :
    (items : Items) (over : List Items)
    → count_all (push_contents items over) ≡ count_all over + count_items items
unfolding count_items
count-push nil over = omega arith
count-push (cons item items) over = count-append_one over (cons item items)

next-IsReady :
    (rest : Items) (over : List Items)
    → AllFull over
    → IsReady (next_container rest over).cur (next_container rest over).over
unfolding AllFull IsReady
next-IsReady (cons item items) over h = h
next-IsReady nil [] h = tt
next-IsReady nil (nil ∷ over) h = absurd h
next-IsReady nil (cons item items ∷ over) h = h

abbrev left : ContainerIterator → ℕ
left it = count_items it.cur + count_all it.over

left-next_container :
    (rest : Items) (over : List Items)
    → left (next_container rest over) ≡ count_items rest + count_all over
unfolding count_items count_all
left-next_container (cons item items) over = refl
left-next_container nil [] = refl
left-next_container nil (items ∷ over) = omega arith

ready_full :
    (item : Item) (rest : Items) (over : List Items) → IsReady (cons item rest) over → AllFull over
unfolding IsReady
ready_full item rest over h = h

holding_loop_lem :
    (fuel : ℕ) (cur : Items) (over : List Items) (counter : ℕ)
    → IsReady cur over
    → count_items cur + count_all over < fuel
    → counter + (count_items cur + count_all over) < 2 ^ 32
    → holding_loop fuel (record { cur = cur; over = over }) counter
      ≡ some (counter + (count_items cur + count_all over))
unfolding holding_loop advance count_items count_all IsReady
holding_loop_lem zero cur over counter h enough fits = absurd (omega (arith, enough))
holding_loop_lem (suc fuel) nil [] counter h enough fits = ap some (omega arith)
holding_loop_lem (suc fuel) nil (items ∷ over) counter h enough fits = absurd h
holding_loop_lem (suc fuel) (cons item rest) over counter h enough fits =
    let pushed = push_contents (contents item) over in
    let it = next_container rest pushed in
    let total : left it ≡ count_items rest + (count_all over + held item) = omega (
      arith,
      left-next_container rest pushed,
      count-push (contents item) over,
      count_contents item,
    ) in
    holding_loop_lem fuel it.cur it.over (add_u32 counter 1)
      (next-IsReady rest pushed (AllFull-push (contents item) over h))
      (omega (arith, total, enough)) (omega (arith, total, fits))
    ∙ ap some (omega (arith, total, fits))

none_left_over : count_all [] ≡ 0
unfolding count_all
none_left_over = refl

IsReady-first : (items : Items) → IsReady items []
unfolding IsReady AllFull
IsReady-first nil = tt
IsReady-first (cons item items) = tt

-- getItemHoldingCount counts every item that a container holds at any depth, each once, when
-- they are fewer than 2^32; fuel above their number is enough, so the iterator comes to its end.
pub get_item_holding_count_lem :
    (fuel : ℕ) (item : Item)
    → held item < fuel
    → held item < 2 ^ 32
    → get_item_holding_count fuel item ≡ some (held item)
unfolding get_item_holding_count
get_item_holding_count_lem fuel item enough fits =
    let same = count_contents item in
    let none_over : count_all [] ≡ 0 = none_left_over in
    holding_loop_lem fuel (contents item) [] 0 (IsReady-first (contents item))
      (omega (arith, same, none_over, enough)) (omega (arith, same, none_over, fits))
    ∙ ap some (omega (arith, same, none_over))
