-- ===== src/Wildcards/Examples.antt =====
-- The names Ann, Anna and Bo come and Anna goes.
use baiak_fonticak.Base.{◌≡◌, refl, false, List, [], ◌∷◌, ◌++◌}
use baiak_fonticak.Wildcards.{node, none_left, found, ambiguous, find_one, find_node}
use baiak_fonticak.Wildcards.{complete, insert, insert_at, add_child, get_child, put_child}
use baiak_fonticak.Wildcards.{erase_child, is_bare, remove_below, remove}
use baiak_fonticak.Wildcards.Words.{has_word, Op, insert_name, remove_name, run, step}
use baiak_fonticak.Wildcards.Words.{replay, run_refines}
use baiak_fonticak.Wildcards.Finding.{Answers, find_one-Answers}

abbrev come : List Op
come =
    insert_name 97 (110 ∷ 110 ∷ [])
    ∷ insert_name 97 (110 ∷ 110 ∷ 97 ∷ [])
    ∷ insert_name 98 (111 ∷ [])
    ∷ []

abbrev come_and_go : List Op
come_and_go = come ++ remove_name (97 ∷ 110 ∷ 110 ∷ 97 ∷ []) ∷ []

run_refines_example :
    has_word (97 ∷ 110 ∷ 110 ∷ []) (run come_and_go (node false none_left))
    ≡ replay come_and_go (λ w. false) (97 ∷ 110 ∷ 110 ∷ [])
run_refines_example = run_refines come_and_go (97 ∷ 110 ∷ 110 ∷ [])

find_one-Answers_example :
    Answers
      (97 ∷ [])
      (run come_and_go (node false none_left))
      (find_one (97 ∷ []) (run come_and_go (node false none_left)))
find_one-Answers_example = find_one-Answers come_and_go 97 []

-- With Ann and Anna the query "a" is ambiguous, and when Anna is gone it is Ann.
ambiguous_while_two : find_one (97 ∷ []) (run come (node false none_left)) ≡ ambiguous
unfolding run step insert insert_at add_child get_child put_child find_one find_node complete
ambiguous_while_two = refl

found_when_one :
    find_one (97 ∷ []) (run come_and_go (node false none_left)) ≡ found (97 ∷ 110 ∷ 110 ∷ [])
unfolding run step insert insert_at add_child get_child put_child find_one find_node complete remove
    remove_below is_bare erase_child
found_when_one = refl
