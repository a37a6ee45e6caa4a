-- ===== src/Wildcards/Finding.antt =====
-- findOne (src/wildcardtree.cpp) completes a query exactly when one name begins with it.
use baiak_fonticak.Base.{ℕ, ◌≡◌, sym, ◌∙◌, ◌≢◌, ◌⊎◌, inl, inr, true, false, none, some, List}
use baiak_fonticak.Base.{◌∷◌, ◌++◌, arith, Option-cases}
use baiak_fonticak.Wildcards.{Node, node, none_left, Answer, not_online, ambiguous, found}
use baiak_fonticak.Wildcards.{find_node, complete, find_one}
use baiak_fonticak.Wildcards.Words.{has_word, Op, run}
use baiak_fonticak.Wildcards.Running.{run-IsTrim}
use baiak_fonticak.Wildcards.Trim.{IsTrim}
use baiak_fonticak.Wildcards.Completing.{complete_lem, find_node-none, find_node-some}
use baiak_fonticak.Wildcards.Completing.{find_node-IsTrim}

-- What findOne should answer to a query, by the names that begin with it.
abbrev pub Answers : List ℕ → Node → Answer → Type 0
Answers query n answer =
    ((answer ≡ not_online) × ((w : List ℕ) → has_word (query ++ w) n ≡ false))
    ⊎ ((w : List ℕ) × (answer ≡ found (query ++ w))
        × (has_word (query ++ w) n ≡ true)
        × ((v : List ℕ) → has_word (query ++ v) n ≡ true → v ≡ w))
    ⊎ ((v : List ℕ) × (w : List ℕ) × (answer ≡ ambiguous)
        × (has_word (query ++ v) n ≡ true)
        × (has_word (query ++ w) n ≡ true)
        × (v ≢ w))

find_one-none :
    (query : List ℕ) (n : Node) → find_node query n ≡ none → find_one query n ≡ not_online
unfolding find_one
find_one-none query n missing = ground (arith, missing)

find_one-some :
    (query : List ℕ) (n m : Node) → find_node query n ≡ some m → find_one query n ≡ complete m query
unfolding find_one
find_one-some query n m here = ground (arith, here)

empty-IsTrim : IsTrim (node false none_left)
unfolding IsTrim
empty-IsTrim = tt

Answers-find_one :
    (c : ℕ) (query : List ℕ) (n : Node) → IsTrim n → Answers (c ∷ query) n (find_one (c ∷ query) n)
Answers-find_one c query n h = elim (Option-cases (find_node (c ∷ query) n)) [
  | inl missing ↦
      inl (find_one-none (c ∷ query) n missing, λ w. find_node-none (c ∷ query) w n missing)
  | inr (m, here) ↦
      let (live, trim) = find_node-IsTrim c query n m h here in
      let answered = find_one-some (c ∷ query) n m here in
      elim (complete_lem m (c ∷ query) trim live) [
        | inl (w, answer, has, only) ↦ inr (
            inl (
              w,
              answered ∙ answer,
              find_node-some (c ∷ query) w n m here ∙ has,
              λ v has_v. only v (sym (find_node-some (c ∷ query) v n m here) ∙ has_v),
            ))
        | inr (v, w, answer, has_v, has_w, differ) ↦ inr (
            inr (
              v,
              w,
              answered ∙ answer,
              find_node-some (c ∷ query) v n m here ∙ has_v,
              find_node-some (c ∷ query) w n m here ∙ has_w,
              differ,
            ))
      ]
]

-- In a tree made by any insertions and removals, findOne answers a query that is not empty by
-- the names that begin with it: "not online" when there is none, the whole name when there is
-- exactly one, and "too ambiguous" when there are two.
pub find_one-Answers :
    (ops : List Op) (c : ℕ) (query : List ℕ)
    → Answers
        (c ∷ query)
        (run ops (node false none_left))
        (find_one (c ∷ query) (run ops (node false none_left)))
find_one-Answers ops c query =
    Answers-find_one c query (run ops (node false none_left))
      (run-IsTrim ops (node false none_left) empty-IsTrim)
