-- ===== src/Wildcards.antt =====
-- The tree of the names of players who are online, which completes abbreviated names
-- (WildcardTreeNode of src/wildcardtree.h and src/wildcardtree.cpp). A std::map of children is a
-- list of entries, and the stack of nodes on the way down is the recursion's.

pub mod Words
pub mod Trim
pub mod Running
pub mod Completing
pub mod Finding
mod Examples
use baiak_fonticak.Base.{ℕ, zero, suc, ◌+◌, ◌-◌, ◌*◌, ◌/◌, ◌%◌, ◌^◌, ◌≤◌, ◌<◌, min, max}
use baiak_fonticak.Base.{bit_and, bit_or, bit_xor, String, ◌≡◌, refl, sym, ap, ap₂, subst}
use baiak_fonticak.Base.{fun_ext, ◌∙◌, ◌≢◌, ◌↔◌, ◌⊎◌, inl, inr, Bool, true, false, not, ◌&&◌}
use baiak_fonticak.Base.{◌||◌, Option, none, some, option_map, List, [], ◌∷◌, ◌++◌, map}
use baiak_fonticak.Base.{append-nil, append_assoc, arith, str_eq, length, is_empty}
use baiak_fonticak.Base.{get_elem?, set, get_or, take, drop, length-append, take_prefix}
use baiak_fonticak.Base.{drop_prefix, take-append-drop, length-take-le, length-drop-le}
use baiak_fonticak.Base.{length-set, All, contains, erase_first, count, IsDistinct}
use baiak_fonticak.Base.{count-append, contains-iff-count, count-erase_first}
use baiak_fonticak.Base.{length-erase_first-le, same_bytes, same_bytes_self, same_bytes_lem}
use baiak_fonticak.Base.{ltb, leb, ◌==◌, ◌!=◌, if◌then◌else◌, ltb→lt, lt→ltb, leb→le, le→leb}
use baiak_fonticak.Base.{lt→leb_false, lt→ltb_false, ==_iff, ==_self, tests, Bool-cases}
use baiak_fonticak.Base.{Option-cases}

mutual
  pub data Node : Type 0 where
    node : Bool → Children → Node

  pub data Children : Type 0 where
    none_left : Children
    entry : ℕ → Node → Children → Children

abbrev pub children_of : Node → Children
children_of (node breakpoint children) = children

abbrev pub breakpoint_of : Node → Bool
breakpoint_of (node breakpoint children) = breakpoint

unfoldable pub get_child : ℕ → Children → Option Node
get_child ch none_left = none
get_child ch (entry c n rest) = if c == ch then some n else get_child ch rest

-- The entry of `ch` with `n` in the place of its node, or added.
unfoldable pub put_child : ℕ → Node → Children → Children
put_child ch n none_left = entry ch n none_left
put_child ch n (entry c m rest) =
    let others = put_child ch n rest in if c == ch then entry c n rest else entry c m others

-- The keys of a std::map are distinct, so the entry of `ch` is the only one.
unfoldable pub erase_child : ℕ → Children → Children
erase_child ch none_left = none_left
erase_child ch (entry c m rest) =
    let others = erase_child ch rest in if c == ch then others else entry c m others

-- addChild: the child that is found or made.
unfoldable pub add_child : ℕ → Bool → Node → Node
add_child ch breakpoint n = elim (get_child ch (children_of n)) [
  | none ↦ node breakpoint none_left
  | some m ↦ node (breakpoint_of m || breakpoint) (children_of m)
]

-- The loop of insert from the byte `ch` on; the last byte gets a breakpoint.
unfoldable pub insert_at : ℕ → List ℕ → Node → Node
insert_at ch [] n = node (breakpoint_of n) (put_child ch (add_child ch true n) (children_of n))
insert_at ch (c ∷ str) n =
    node (breakpoint_of n) (put_child ch (insert_at c str (add_child ch false n)) (children_of n))

-- insert, of a name that is not empty: the source's `str.length() - 1` wraps on an empty one,
-- which is none here.
unfoldable pub insert : List ℕ → Node → Option Node
insert [] n = none
insert (ch ∷ str) n = some (insert_at ch str n)

unfoldable pub is_bare : Node → Bool
is_bare (node true children) = false
is_bare (node false none_left) = true
is_bare (node false (entry c n rest)) = false

-- remove: the breakpoint of the name is cleared, and on the way back each node that is left
-- without children and breakpoint is erased. None where the way down fails.
unfoldable pub remove_below : List ℕ → Node → Option Node
remove_below [] n = some (node false (children_of n))
remove_below (ch ∷ str) n = elim (get_child ch (children_of n)) [
  | none ↦ none
  | some m ↦ elim (remove_below str m) [
    | none ↦ none
    | some m1 ↦ some (
        node (breakpoint_of n)
          (if is_bare m1 then erase_child ch (children_of n) else put_child ch m1 (children_of n)))
  ]
]

unfoldable pub remove : List ℕ → Node → Node
remove str n = elim (remove_below str n) [ none ↦ n | some m ↦ m ]

pub data Answer : Type 0 where
  not_online : Answer
  ambiguous : Answer
  found : List ℕ → Answer

-- The way down of findOne.
unfoldable pub find_node : List ℕ → Node → Option Node
find_node [] n = some n
find_node (ch ∷ query) n = elim (get_child ch (children_of n)) [
  | none ↦ none
  | some m ↦ find_node query m
]

-- The loop of findOne below the node of the query.
unfoldable pub complete : Node → List ℕ → Answer
complete (node b none_left) result = found result
complete (node true (entry c n rest)) result = ambiguous
complete (node false (entry c n none_left)) result = complete n (result ++ c ∷ [])
complete (node false (entry c n (entry d m rest))) result = ambiguous

unfoldable pub find_one : List ℕ → Node → Answer
find_one query n = elim (find_node query n) [ none ↦ not_online | some m ↦ complete m query ]
