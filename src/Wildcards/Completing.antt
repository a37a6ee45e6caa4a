-- ===== src/Wildcards/Completing.antt =====
-- How findOne (src/wildcardtree.cpp) completes a query below the node that it leads to.
use baiak_fonticak.Base.{ℕ, ◌≡◌, refl, sym, ap, ap₂, subst, ◌∙◌, ◌≢◌, ◌⊎◌, inl, inr, Bool}
use baiak_fonticak.Base.{true, false, none, some, List, [], ◌∷◌, ◌++◌, append-nil}
use baiak_fonticak.Base.{append_assoc, arith, ◌==◌, ==_self, Bool-cases, Option-cases}
use mathlib.Core.Option.{none-ne-some, some-injective}
use baiak_fonticak.Wildcards.{Node, Children, node, none_left, entry, children_of, get_child}
use baiak_fonticak.Wildcards.{is_bare, Answer, ambiguous, found, find_node, complete}
use baiak_fonticak.Wildcards.Words.{has_word}
use baiak_fonticak.Wildcards.Trim.{IsTrim, get_child-IsTrim, IsTrim-children}

pub get_first : (c : ℕ) (n : Node) (rest : Children) → get_child c (entry c n rest) ≡ some n
unfolding get_child
get_first c n rest = ground (arith, ==_self c)

pub get_later :
    (c d : ℕ) (n : Node) (rest : Children) → c ≢ d → get_child d (entry c n rest) ≡ get_child d rest
unfolding get_child
get_later c d n rest other = ground (arith, other)

pub word_below :
    (c : ℕ) (w : List ℕ) (b : Bool) (cs : Children) (m : Node)
    → get_child c cs ≡ some m
    → has_word (c ∷ w) (node b cs) ≡ has_word w m
unfolding has_word
word_below c w b cs m here = ground (arith, here)

pub no_word_below :
    (c : ℕ) (w : List ℕ) (b : Bool) (cs : Children)
    → get_child c cs ≡ none
    → has_word (c ∷ w) (node b cs) ≡ false
unfolding has_word
no_word_below c w b cs missing = ground (arith, missing)

-- A branch that is not dead leads to a name.
pub live_word : (n : Node) → IsTrim n → is_bare n ≡ false → (w : List ℕ) × (has_word w n ≡ true)
unfolding IsTrim is_bare has_word
live_word (node true cs) h live = ([], refl)
live_word (node false none_left) h live = ground (arith, live)
live_word (node false (entry c m rest)) h live =
    let (w, has) = live_word m h.2 h.1 in
    (c ∷ w, word_below c w false (entry c m rest) m (get_first c m rest) ∙ has)

-- The names below `n` when completing behind `result` gives the answer: one name, or two.
abbrev pub OneName : Node → List ℕ → Answer → Type 0
OneName n result answer =
    (w : List ℕ) × (answer ≡ found (result ++ w))
    × (has_word w n ≡ true)
    × ((v : List ℕ) → has_word v n ≡ true → v ≡ w)

abbrev pub TwoNames : Node → Answer → Type 0
TwoNames n answer =
    (v : List ℕ) × (w : List ℕ) × (answer ≡ ambiguous)
    × (has_word v n ≡ true)
    × (has_word w n ≡ true)
    × (v ≢ w)

pub end_word : (cs : Children) → has_word [] (node true cs) ≡ true
unfolding has_word
end_word cs = refl

pub only_end : (v : List ℕ) → has_word v (node true none_left) ≡ true → v ≡ []
unfolding has_word get_child
only_end [] has = refl
only_end (c ∷ v) has = ground (arith, has)

-- The only child has every name.
pub single_word :
    (c : ℕ) (m : Node) (w : List ℕ)
    → ((v : List ℕ) → has_word v m ≡ true → v ≡ w)
    → (v : List ℕ) → has_word v (node false (entry c m none_left)) ≡ true
    → v ≡ c ∷ w
unfolding has_word get_child
single_word c m w only [] has = ground (arith, has)
single_word c m w only (d ∷ v) has = elim (Bool-cases (c == d)) [
  | inl same ↦ ap₂ (λ x xs. x ∷ xs) (ground (arith, same)) (only v (ground (arith, same, has)))
  | inr other ↦ ground (arith, other, has)
]

pub keys_differ :
    (c d : ℕ) (k : Node) (rest : Children) → get_child c (entry d k rest) ≡ none → c ≢ d
unfolding get_child
keys_differ c d k rest missing same = ground (arith, missing, same)

pub complete_lem :
    (n : Node) (result : List ℕ)
    → IsTrim n
    → is_bare n ≡ false
    → OneName n result (complete n result) ⊎ TwoNames n (complete n result)
unfolding IsTrim complete is_bare
complete_lem (node true none_left) result h live =
    inl ([], ap found (sym (append-nil result)), end_word none_left, only_end)
complete_lem (node false none_left) result h live = ground (arith, live)
complete_lem (node true (entry c m rest)) result h live =
    let (w, has) = live_word m h.2 h.1 in
    inr (
      [],
      c ∷ w,
      refl,
      end_word (entry c m rest),
      word_below c w true (entry c m rest) m (get_first c m rest) ∙ has,
      λ same. ground (arith, same),
    )
complete_lem (node false (entry c m none_left)) result h live =
    elim (complete_lem m (result ++ c ∷ []) h.2 h.1) [
      | inl (w, answer, has, only) ↦ inl (
        c ∷ w,
        answer ∙ ap found (append_assoc result (c ∷ []) w),
        word_below c w false (entry c m none_left) m (get_first c m none_left) ∙ has,
        single_word c m w only,
      )
      | inr (v, w, answer, has_v, has_w, differ) ↦ inr (
        c ∷ v,
        c ∷ w,
        answer,
        word_below c v false (entry c m none_left) m (get_first c m none_left) ∙ has_v,
        word_below c w false (entry c m none_left) m (get_first c m none_left) ∙ has_w,
        λ same. differ (ground (arith, same)),
      )
    ]
complete_lem (node false (entry c m (entry d k rest))) result h live =
    let (v, has_v) = live_word m h.2 h.1 in
    let (w, has_w) = live_word k h.3.2 h.3.1 in
    let other : c ≢ d = keys_differ c d k rest h.0 in
    let later = get_later c d m (entry d k rest) other ∙ get_first d k rest in
    inr (
      c ∷ v,
      d ∷ w,
      refl,
      word_below c v false (entry c m (entry d k rest)) m (get_first c m (entry d k rest)) ∙ has_v,
      word_below d w false (entry c m (entry d k rest)) k later ∙ has_w,
      λ same. other (ground (arith, same)),
    )

pub find_node-none :
    (query w : List ℕ) (n : Node) → find_node query n ≡ none → has_word (query ++ w) n ≡ false
unfolding find_node has_word
find_node-none [] w n h = absurd (none-ne-some n (sym h))
find_node-none (c ∷ query) w n h = elim (Option-cases (get_child c (children_of n))) [
  | inl missing ↦ ground (arith, missing)
  | inr (m, here) ↦ ground (arith, here, h, find_node-none query w m)
]

pub find_node-some :
    (query w : List ℕ) (n m : Node)
    → find_node query n ≡ some m
    → has_word (query ++ w) n ≡ has_word w m
unfolding find_node has_word
find_node-some [] w n m h = ap (has_word w) (some-injective n m h)
find_node-some (c ∷ query) w n m h = elim (Option-cases (get_child c (children_of n))) [
  | inl missing ↦ absurd (none-ne-some m (ground (arith, missing, h)))
  | inr (k, here) ↦ ground (arith, here, h, find_node-some query w k m)
]

pub find_node_below :
    (query : List ℕ) (n m : Node)
    → (is_bare n ≡ false) × IsTrim n
    → find_node query n ≡ some m
    → (is_bare m ≡ false) × IsTrim m
unfolding find_node
find_node_below [] n m h done =
    subst (λ j. (is_bare j ≡ false) × IsTrim j) (some-injective n m done) h
find_node_below (c ∷ query) n m h done = elim (Option-cases (get_child c (children_of n))) [
  | inl missing ↦ absurd (none-ne-some m (ground (arith, missing, done)))
  | inr (k, here) ↦
      find_node_below query k m (get_child-IsTrim c (children_of n) k (IsTrim-children n h.1) here)
        (ground (arith, here, done))
]

pub find_node-IsTrim :
    (c : ℕ) (query : List ℕ) (n m : Node)
    → IsTrim n
    → find_node (c ∷ query) n ≡ some m
    → (is_bare m ≡ false) × IsTrim m
unfolding find_node
find_node-IsTrim c query n m h done = elim (Option-cases (get_child c (children_of n))) [
  | inl missing ↦ absurd (none-ne-some m (ground (arith, missing, done)))
  | inr (k, here) ↦
      find_node_below query k m (get_child-IsTrim c (children_of n) k (IsTrim-children n h) here)
        (ground (arith, here, done))
]
