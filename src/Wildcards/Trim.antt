-- ===== src/Wildcards/Trim.antt =====
-- A tree of names (src/wildcardtree.cpp) without dead branches, and how single children are added,
-- replaced and erased in it.
use baiak_fonticak.Base.{ℕ, ◌≡◌, refl, sym, subst, inl, inr, Bool, true, false, ◌||◌, none}
use baiak_fonticak.Base.{some, arith, ◌==◌, Bool-cases, Option-cases}
use mathlib.Core.Option.{none-ne-some, some-injective}
use baiak_fonticak.Wildcards.{Node, Children, node, none_left, entry, children_of}
use baiak_fonticak.Wildcards.{breakpoint_of, get_child, put_child, erase_child, add_child}
use baiak_fonticak.Wildcards.{is_bare}
use baiak_fonticak.Wildcards.Words.{get_child-put_child, get_child-erase_child}

-- Keys are distinct, and no child is without children and breakpoint.
unfoldable mutual
  pub IsTrim : Node → Type 0
  IsTrim (node b cs) = AllTrim cs

  pub AllTrim : Children → Type 0
  AllTrim none_left = Unit
  AllTrim (entry c n rest) =
      (get_child c rest ≡ none) × (is_bare n ≡ false) × IsTrim n × AllTrim rest

pub IsTrim-children : (n : Node) → IsTrim n → AllTrim (children_of n)
unfolding IsTrim
IsTrim-children (node b cs) h = h

pub IsTrim-node : (b : Bool) (cs : Children) → AllTrim cs → IsTrim (node b cs)
unfolding IsTrim
IsTrim-node b cs h = h

pub get_child-IsTrim :
    (c : ℕ) (cs : Children) (m : Node)
    → AllTrim cs
    → get_child c cs ≡ some m
    → (is_bare m ≡ false) × IsTrim m
unfolding AllTrim get_child
get_child-IsTrim c none_left m h found = absurd (none-ne-some m found)
get_child-IsTrim c (entry d n rest) m h found = elim (Bool-cases (d == c)) [
  | inl same ↦
      let equal : n ≡ m = some-injective n m (ground (arith, same, found)) in
      subst (λ k. (is_bare k ≡ false) × IsTrim k) equal (h.1, h.2)
  | inr other ↦ get_child-IsTrim c rest m h.3 (ground (arith, other, found))
]

pub put_here :
    (ch c : ℕ) (m n : Node) (rest : Children)
    → (c == ch) ≡ true
    → entry c m rest ≡ put_child ch m (entry c n rest)
unfolding put_child
put_here ch c m n rest same = ground (arith, same)

pub put_further :
    (ch c : ℕ) (m n : Node) (rest : Children)
    → (c == ch) ≡ false
    → entry c n (put_child ch m rest) ≡ put_child ch m (entry c n rest)
unfolding put_child
put_further ch c m n rest other = ground (arith, other)

pub erase_here :
    (ch c : ℕ) (n : Node) (rest : Children)
    → (c == ch) ≡ true
    → erase_child ch rest ≡ erase_child ch (entry c n rest)
unfolding erase_child
erase_here ch c n rest same = ground (arith, same)

pub erase_further :
    (ch c : ℕ) (n : Node) (rest : Children)
    → (c == ch) ≡ false
    → entry c n (erase_child ch rest) ≡ erase_child ch (entry c n rest)
unfolding erase_child
erase_further ch c n rest other = ground (arith, other)

pub put_child-AllTrim :
    (ch : ℕ) (m : Node) (cs : Children)
    → AllTrim cs
    → is_bare m ≡ false
    → IsTrim m
    → AllTrim (put_child ch m cs)
unfolding AllTrim put_child get_child
put_child-AllTrim ch m none_left h live trim = (refl, live, trim, tt)
put_child-AllTrim ch m (entry c n rest) h live trim = elim (Bool-cases (c == ch)) [
  | inl same ↦ subst AllTrim (put_here ch c m n rest same) (h.0, live, trim, h.3)
  | inr other ↦ subst AllTrim (put_further ch c m n rest other) (
    ground (arith, h.0, other, get_child-put_child ch c m rest),
    h.1,
    h.2,
    put_child-AllTrim ch m rest h.3 live trim,
  )
]

pub erase_child-AllTrim : (ch : ℕ) (cs : Children) → AllTrim cs → AllTrim (erase_child ch cs)
unfolding AllTrim erase_child
erase_child-AllTrim ch none_left h = tt
erase_child-AllTrim ch (entry c n rest) h = elim (Bool-cases (c == ch)) [
  | inl same ↦ subst AllTrim (erase_here ch c n rest same) (erase_child-AllTrim ch rest h.3)
  | inr other ↦ subst AllTrim (erase_further ch c n rest other) (
    ground (arith, h.0, other, get_child-erase_child ch c rest),
    h.1,
    h.2,
    erase_child-AllTrim ch rest h.3,
  )
]

pub add_new :
    (ch : ℕ) (b : Bool) (n : Node)
    → get_child ch (children_of n) ≡ none
    → add_child ch b n ≡ node b none_left
unfolding add_child
add_new ch b n missing = ground (arith, missing)

pub add_old :
    (ch : ℕ) (b : Bool) (n m : Node)
    → get_child ch (children_of n) ≡ some m
    → add_child ch b n ≡ node (breakpoint_of m || b) (children_of m)
unfolding add_child
add_old ch b n m here = ground (arith, here)

pub bare_put :
    (b : Bool) (ch : ℕ) (m : Node) (cs : Children) → is_bare (node b (put_child ch m cs)) ≡ false
unfolding is_bare put_child
bare_put true ch m cs = refl
bare_put false ch m none_left = refl
bare_put false ch m (entry c n rest) = ground arith

pub add_child-IsTrim : (ch : ℕ) (b : Bool) (n : Node) → IsTrim n → IsTrim (add_child ch b n)
unfolding add_child AllTrim
add_child-IsTrim ch b n h = elim (Option-cases (get_child ch (children_of n))) [
  | inl missing ↦ subst IsTrim (sym (add_new ch b n missing)) (IsTrim-node b none_left tt)
  | inr (m, here) ↦
      let (live, trim) = get_child-IsTrim ch (children_of n) m (IsTrim-children n h) here in
      subst IsTrim (sym (add_old ch b n m here))
        (IsTrim-node (breakpoint_of m || b) (children_of m) (IsTrim-children m trim))
]
