-- ===== src/Wildcards/Words.antt =====
-- The tree of names as a set of names (src/wildcardtree.cpp).
use baiak_fonticak.Base.{ℕ, ◌≡◌, refl, ap, fun_ext, ◌∙◌, inl, inr, Bool, true, false, not}
use baiak_fonticak.Base.{◌&&◌, ◌||◌, none, some, List, [], ◌∷◌, arith, is_empty, same_bytes}
use baiak_fonticak.Base.{◌==◌, if◌then◌else◌, Bool-cases, Option-cases}
use baiak_fonticak.Wildcards.{Node, Children, node, none_left, entry, children_of}
use baiak_fonticak.Wildcards.{breakpoint_of, get_child, put_child, erase_child, add_child}
use baiak_fonticak.Wildcards.{insert_at, insert, is_bare, remove_below, remove}

unfoldable pub has_word : List ℕ → Node → Bool
has_word [] n = breakpoint_of n
has_word (ch ∷ str) n = elim (get_child ch (children_of n)) [
  | none ↦ false
  | some m ↦ has_word str m
]

pub get_child-put_child :
    (ch c : ℕ) (n : Node) (cs : Children)
    → get_child c (put_child ch n cs) ≡ (if ch == c then some n else get_child c cs)
unfolding get_child put_child
get_child-put_child ch c n none_left = refl
get_child-put_child ch c n (entry d m rest) = ground (arith, get_child-put_child ch c n rest)

pub get_child-erase_child :
    (ch c : ℕ) (cs : Children)
    → get_child c (erase_child ch cs) ≡ (if ch == c then none else get_child c cs)
unfolding get_child erase_child
get_child-erase_child ch c none_left = ground arith
get_child-erase_child ch c (entry d m rest) = ground (arith, get_child-erase_child ch c rest)

has_word-add_child :
    (q : List ℕ) (ch : ℕ) (b : Bool) (n : Node)
    → has_word q (add_child ch b n) ≡ (is_empty q && b || has_word (ch ∷ q) n)
unfolding has_word add_child get_child
has_word-add_child [] ch b n = ground arith
has_word-add_child (c ∷ q) ch b n = ground arith

same_bytes_nil : (q : List ℕ) → same_bytes [] q ≡ is_empty q
unfolding same_bytes
same_bytes_nil [] = refl
same_bytes_nil (c ∷ q) = refl

insert_at_lem :
    (q : List ℕ) (ch : ℕ) (str : List ℕ) (n : Node)
    → has_word q (insert_at ch str n) ≡ (same_bytes (ch ∷ str) q || has_word q n)
unfolding has_word insert_at same_bytes
insert_at_lem [] ch [] n = refl
insert_at_lem [] ch (c ∷ str) n = refl
insert_at_lem (d ∷ q) ch [] n = ground (
  arith,
  get_child-put_child ch d (add_child ch true n) (children_of n),
  has_word-add_child q ch true n,
  same_bytes_nil q,
)
insert_at_lem (d ∷ q) ch (c ∷ str) n = ground (
  arith,
  get_child-put_child ch d (insert_at c str (add_child ch false n)) (children_of n),
  has_word-add_child q ch false n,
  insert_at_lem q c str (add_child ch false n),
)

bare_lem : (q : List ℕ) (n : Node) → is_bare n ≡ true → has_word q n ≡ false
unfolding has_word is_bare get_child
bare_lem [] (node true cs) h = ground (arith, h)
bare_lem [] (node false none_left) h = refl
bare_lem [] (node false (entry c n cs)) h = ground (arith, h)
bare_lem (ch ∷ q) (node true cs) h = ground (arith, h)
bare_lem (ch ∷ q) (node false none_left) h = refl
bare_lem (ch ∷ q) (node false (entry c n cs)) h = ground (arith, h)

-- What the way down of remove leaves, or that the name was not there.
remove_below_lem :
    (str q : List ℕ) (n : Node)
    → has_word q (elim (remove_below str n) [ none ↦ n | some m ↦ m ])
      ≡ (not (same_bytes str q) && has_word q n)
unfolding has_word remove_below same_bytes
remove_below_lem [] [] n = refl
remove_below_lem [] (c ∷ q) n = refl
remove_below_lem (ch ∷ str) [] n = ground arith
remove_below_lem (ch ∷ str) (c ∷ q) n = elim (Option-cases (get_child ch (children_of n))) [
  | inl missing ↦ ground (arith, missing)
  | inr (m, here) ↦ elim (Option-cases (remove_below str m)) [
    | inl fails ↦ ground (arith, here, fails, remove_below_lem str q m)
    | inr (m1, left) ↦ elim (Bool-cases (is_bare m1)) [
      | inl bare ↦ ground (
        arith,
        here,
        left,
        bare,
        get_child-erase_child ch c (children_of n),
        bare_lem q m1 bare,
        remove_below_lem str q m,
      )
      | inr kept ↦ ground (
        arith,
        here,
        left,
        kept,
        get_child-put_child ch c m1 (children_of n),
        remove_below_lem str q m,
      )
    ]
  ]
]

remove_lem :
    (str q : List ℕ) (n : Node)
    → has_word q (remove str n) ≡ (not (same_bytes str q) && has_word q n)
unfolding remove
remove_lem str q n = remove_below_lem str q n

-- What the server does to the tree: a name that is not empty comes, or any name goes.
pub data Op : Type 0 where
  insert_name : ℕ → List ℕ → Op
  remove_name : List ℕ → Op

-- An insertion of a name that is not empty always succeeds.
unfoldable pub step : Op → Node → Node
step (insert_name ch str) n = elim (insert (ch ∷ str) n) [ none ↦ n | some m ↦ m ]
step (remove_name str) n = remove str n

unfoldable pub run : List Op → Node → Node
run [] n = n
run (op ∷ ops) n = run ops (step op n)

-- The same on a set of names.
unfoldable pub replay_step : Op → (List ℕ → Bool) → List ℕ → Bool
replay_step (insert_name ch str) words q = same_bytes (ch ∷ str) q || words q
replay_step (remove_name str) words q = not (same_bytes str q) && words q

unfoldable pub replay : List Op → (List ℕ → Bool) → List ℕ → Bool
replay [] words = words
replay (op ∷ ops) words = replay ops (replay_step op words)

words_of : Node → List ℕ → Bool
words_of n q = has_word q n

step_refines : (op : Op) (n : Node) → words_of (step op n) ≡ replay_step op (words_of n)
unfolding words_of step replay_step insert
step_refines (insert_name ch str) n = fun_ext λ q. insert_at_lem q ch str n
step_refines (remove_name str) n = fun_ext λ q. remove_lem str q n

words_refine : (ops : List Op) (n : Node) → words_of (run ops n) ≡ replay ops (words_of n)
unfolding run replay
words_refine [] n = refl
words_refine (op ∷ ops) n = words_refine ops (step op n) ∙ ap (replay ops) (step_refines op n)

empty_word : (q : List ℕ) → has_word q (node false none_left) ≡ false
unfolding has_word get_child
empty_word [] = refl
empty_word (c ∷ q) = refl

-- After any sequence of insertions and removals on an empty tree, the names that the tree holds
-- are the ones of the set on which the same insertions and removals were made.
pub run_refines :
    (ops : List Op) (q : List ℕ)
    → has_word q (run ops (node false none_left)) ≡ replay ops (λ w. false) q
unfolding words_of
run_refines ops q =
    ap (λ f. f q) (words_refine ops (node false none_left))
    ∙ ap (λ f. replay ops f q) (fun_ext empty_word)
