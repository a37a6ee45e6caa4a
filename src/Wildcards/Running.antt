-- ===== src/Wildcards/Running.antt =====
-- The tree of names (src/wildcardtree.cpp) stays without dead branches in every run.
use baiak_fonticak.Base.{ℕ, ◌≡◌, refl, sym, ap, subst, ◌∙◌, ◌≢◌, inl, inr, Bool, true, false}
use baiak_fonticak.Base.{◌||◌, Option, none, some, List, [], ◌∷◌, arith, if◌then◌else◌}
use baiak_fonticak.Base.{Bool-cases, Option-cases}
use mathlib.Core.Option.{some-injective}
use baiak_fonticak.Wildcards.{Node, Children, node, children_of, breakpoint_of, get_child}
use baiak_fonticak.Wildcards.{put_child, erase_child, add_child, insert_at, insert, is_bare}
use baiak_fonticak.Wildcards.{remove_below, remove}
use baiak_fonticak.Wildcards.Words.{Op, insert_name, remove_name, step, run}
use baiak_fonticak.Wildcards.Trim.{IsTrim, AllTrim, IsTrim-children, IsTrim-node}
use baiak_fonticak.Wildcards.Trim.{get_child-IsTrim, put_child-AllTrim, erase_child-AllTrim}
use baiak_fonticak.Wildcards.Trim.{add_new, add_old, bare_put, add_child-IsTrim}

marked_live : (b : Bool) (cs : Children) → is_bare (node (b || true) cs) ≡ false
unfolding is_bare
marked_live true cs = refl
marked_live false cs = refl

add_child_live : (ch : ℕ) (n : Node) → is_bare (add_child ch true n) ≡ false
unfolding add_child is_bare
add_child_live ch n = elim (Option-cases (get_child ch (children_of n))) [
  | inl missing ↦ ap is_bare (add_new ch true n missing)
  | inr (m, here) ↦
      ap is_bare (add_old ch true n m here) ∙ marked_live (breakpoint_of m) (children_of m)
]

insert_at_live : (ch : ℕ) (str : List ℕ) (n : Node) → is_bare (insert_at ch str n) ≡ false
unfolding insert_at
insert_at_live ch [] n = bare_put (breakpoint_of n) ch (add_child ch true n) (children_of n)
insert_at_live ch (c ∷ str) n =
    bare_put (breakpoint_of n) ch (insert_at c str (add_child ch false n)) (children_of n)

insert_at-IsTrim : (ch : ℕ) (str : List ℕ) (n : Node) → IsTrim n → IsTrim (insert_at ch str n)
unfolding insert_at
insert_at-IsTrim ch [] n h =
    let child = add_child ch true n in
    IsTrim-node (breakpoint_of n) (put_child ch child (children_of n)) (
      put_child-AllTrim ch child (children_of n) (IsTrim-children n h) (add_child_live ch n)
        (add_child-IsTrim ch true n h))
insert_at-IsTrim ch (c ∷ str) n h =
    let old = add_child ch false n in
    let child = insert_at c str old in
    IsTrim-node (breakpoint_of n) (put_child ch child (children_of n)) (
      put_child-AllTrim ch child (children_of n) (IsTrim-children n h) (insert_at_live c str old)
        (insert_at-IsTrim c str old (add_child-IsTrim ch false n h)))

remove_fails :
    (ch : ℕ) (str : List ℕ) (n m : Node)
    → get_child ch (children_of n) ≡ none
    → remove_below (ch ∷ str) n ≢ some m
unfolding remove_below
remove_fails ch str n m missing done = ground (arith, missing, done)

remove_fails_below :
    (ch : ℕ) (str : List ℕ) (n m k : Node)
    → get_child ch (children_of n) ≡ some k
    → remove_below str k ≡ none
    → remove_below (ch ∷ str) n ≢ some m
unfolding remove_below
remove_fails_below ch str n m k here fails done = ground (arith, here, fails, done)

remove_further :
    (ch : ℕ) (str : List ℕ) (n k l : Node)
    → get_child ch (children_of n) ≡ some k
    → remove_below str k ≡ some l
    → remove_below (ch ∷ str) n
      ≡ some (
          node
            (breakpoint_of n)
            (if is_bare l then erase_child ch (children_of n) else put_child ch l (children_of n)))
unfolding remove_below
remove_further ch str n k l here left = ground (arith, here, left)

pruned-AllTrim :
    (ch : ℕ) (l : Node) (cs : Children)
    → AllTrim cs
    → IsTrim l
    → AllTrim (if is_bare l then erase_child ch cs else put_child ch l cs)
pruned-AllTrim ch l cs h trim = elim (Bool-cases (is_bare l)) [
  | inl bare ↦
      subst (λ b. AllTrim (if b then erase_child ch cs else put_child ch l cs)) (sym bare)
        (erase_child-AllTrim ch cs h)
  | inr live ↦
      subst (λ b. AllTrim (if b then erase_child ch cs else put_child ch l cs)) (sym live)
        (put_child-AllTrim ch l cs h live trim)
]

remove_below-IsTrim :
    (str : List ℕ) (n m : Node) → IsTrim n → remove_below str n ≡ some m → IsTrim m
unfolding remove_below
remove_below-IsTrim [] n m h done =
    subst IsTrim (some-injective (node false (children_of n)) m done)
      (IsTrim-node false (children_of n) (IsTrim-children n h))
remove_below-IsTrim (ch ∷ str) n m h done = elim (Option-cases (get_child ch (children_of n))) [
  | inl missing ↦ absurd (remove_fails ch str n m missing done)
  | inr (k, here) ↦ elim (Option-cases (remove_below str k)) [
    | inl fails ↦ absurd (remove_fails_below ch str n m k here fails done)
    | inr (l, left) ↦
        let (live, trim) = get_child-IsTrim ch (children_of n) k (IsTrim-children n h) here in
        let pruned =
          if is_bare l then erase_child ch (children_of n) else put_child ch l (children_of n) in
        subst IsTrim
          (some-injective (node (breakpoint_of n) pruned) m
            (sym (remove_further ch str n k l here left) ∙ done))
          (IsTrim-node (breakpoint_of n) pruned (
            pruned-AllTrim ch l (children_of n) (IsTrim-children n h)
              (remove_below-IsTrim str k l trim left)))
  ]
]

step-IsTrim : (op : Op) (n : Node) → IsTrim n → IsTrim (step op n)
unfolding step insert remove
step-IsTrim (insert_name ch str) n h = insert_at-IsTrim ch str n h
step-IsTrim (remove_name str) n h = elim (Option-cases (remove_below str n)) [
  | inl fails ↦ subst (λ (o : Option Node). IsTrim (elim o [ none ↦ n | some m ↦ m ])) (sym fails) h
  | inr (m, done) ↦
      subst (λ (o : Option Node). IsTrim (elim o [ none ↦ n | some m ↦ m ])) (sym done)
        (remove_below-IsTrim str n m h done)
]

pub run-IsTrim : (ops : List Op) (n : Node) → IsTrim n → IsTrim (run ops n)
unfolding run
run-IsTrim [] n h = h
run-IsTrim (op ∷ ops) n h = run-IsTrim ops (step op n) (step-IsTrim op n h)
