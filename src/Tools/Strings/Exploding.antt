-- ===== src/Tools/Strings/Exploding.antt =====
-- explodeString (src/tools.cpp) loses nothing: its parts joined again are the text.
use baiak_fonticak.Base.{ℕ, zero, suc, ◌<◌, ◌≡◌, sym, ap, ap₂, ◌∙◌, ◌⊎◌, inl, inr, none}
use baiak_fonticak.Base.{some, option_map, List, [], ◌∷◌, ◌++◌, append-nil, arith, length}
use baiak_fonticak.Base.{length-append, ◌==◌, Bool-cases, Option-cases}
use mathlib.Core.Option.{none-ne-some, some-injective}
use baiak_fonticak.Base.Int.{ℤ}
use baiak_fonticak.Tools.Strings.{strip_prefix, find, next_limit, explode_loop}
use baiak_fonticak.Tools.Strings.{explode_string}

-- The parts behind the first, each after a separator.
unfoldable pub join_rest : List ℕ → List (List ℕ) → List ℕ
join_rest separator [] = []
join_rest separator (part ∷ parts) = separator ++ (part ++ join_rest separator parts)

strip_prefix_lem :
    (prefix text rest : List ℕ) → strip_prefix prefix text ≡ some rest → text ≡ prefix ++ rest
unfolding strip_prefix
strip_prefix_lem [] text rest h = some-injective text rest h
strip_prefix_lem (c ∷ prefix) [] rest h = absurd (none-ne-some rest h)
strip_prefix_lem (c ∷ prefix) (d ∷ text) rest h = elim (Bool-cases (c == d)) [
  | inl same ↦
      (let inner : strip_prefix prefix text ≡ some rest = ground (arith, same, h) in
        let equal : d ≡ c = ground (arith, same) in
        ap₂ (λ x xs. x ∷ xs) equal (strip_prefix_lem prefix text rest inner))
  | inr other ↦ absurd (none-ne-some rest (ground (arith, other, h)))
]

find_here :
    (separator text rest : List ℕ)
    → strip_prefix separator text ≡ some rest
    → find separator text ≡ some ([], rest)
unfolding find
find_here separator [] rest h = ground arith
find_here separator (c ∷ text) rest h = ground arith

find_later :
    (separator text : List ℕ) (c : ℕ)
    → strip_prefix separator (c ∷ text) ≡ none
    → find separator (c ∷ text)
      ≡ option_map (λ (p : List ℕ × List ℕ). (c ∷ p.0, p.1)) (find separator text)
unfolding find
find_later separator text c h = ground arith

find_end : (separator : List ℕ) → strip_prefix separator [] ≡ none → find separator [] ≡ none
unfolding find
find_end separator h = ground arith

find_here_lem :
    (separator text after part rest : List ℕ)
    → strip_prefix separator text ≡ some after
    → find separator text ≡ some (part, rest)
    → text ≡ part ++ (separator ++ rest)
find_here_lem separator text after part rest found h =
    let same =
      some-injective ([], after) (part, rest) (sym (find_here separator text after found) ∙ h) in
    strip_prefix_lem separator text after found
    ∙ ap₂ (λ x y. x ++ (separator ++ y)) (ap (λ p. p.0) same) (ap (λ p. p.1) same)

-- A separator that is found stands between what is before it and what is behind it.
find_lem :
    (separator text part rest : List ℕ)
    → find separator text ≡ some (part, rest)
    → text ≡ part ++ (separator ++ rest)
find_lem separator [] part rest h = elim (Option-cases (strip_prefix separator [])) [
  | inr (after, found) ↦ find_here_lem separator [] after part rest found h
  | inl missing ↦ absurd (none-ne-some (part, rest) (sym (find_end separator missing) ∙ h))
]
find_lem separator (c ∷ text) part rest h =
    elim (Option-cases (strip_prefix separator (c ∷ text))) [
      | inr (after, found) ↦ find_here_lem separator (c ∷ text) after part rest found h
      | inl missing ↦ elim (Option-cases (find separator text)) [
        | inl nowhere ↦ absurd (
            none-ne-some (part, rest)
              (sym (find_later separator text c missing ∙ ap (option_map (cons_first c)) nowhere)
                ∙ h))
        | inr ((before, behind), later) ↦
            let same =
              some-injective (c ∷ before, behind) (part, rest)
                (sym (find_later separator text c missing ∙ ap (option_map (cons_first c)) later)
                  ∙ h) in
            ap (λ xs. c ∷ xs) (find_lem separator text before behind later)
            ∙ ap₂ (λ x y. x ++ (separator ++ y)) (ap (λ p. p.0) same) (ap (λ p. p.1) same)
      ]
    ]
  where
    cons_first : ℕ → List ℕ × List ℕ → List ℕ × List ℕ
    cons_first c p = (c ∷ p.0, p.1)

find_shorter :
    (separator text part rest : List ℕ)
    → 0 < length separator
    → find separator text ≡ some (part, rest)
    → length rest < length text
find_shorter separator text part rest h found =
    let whole = ap length (find_lem separator text part rest found) in
    omega (arith, h, whole, length-append part (separator ++ rest), length-append separator rest)

explode_stop :
    (separator : List ℕ) (fuel : ℕ) (limit : ℤ) (text : List ℕ)
    → (next_limit limit ≡ none) ⊎ (find separator text ≡ none)
    → explode_loop separator (suc fuel) limit text ≡ some (text ∷ [])
unfolding explode_loop
explode_stop separator fuel limit text h = ground arith

explode_next :
    (separator : List ℕ) (fuel : ℕ) (limit limit1 : ℤ) (text part rest : List ℕ)
    → next_limit limit ≡ some limit1
    → find separator text ≡ some (part, rest)
    → explode_loop separator (suc fuel) limit text
      ≡ option_map
          (λ (parts : List (List ℕ)). part ∷ parts)
          (explode_loop separator fuel limit1 rest)
unfolding explode_loop
explode_next separator fuel limit limit1 text part rest h found = ground arith

explode_loop_lem :
    (separator : List ℕ) (fuel : ℕ) (limit : ℤ) (text : List ℕ)
    → 0 < length separator
    → length text < fuel
    → (first : List ℕ) × (parts : List (List ℕ)) × (explode_loop separator fuel limit text
        ≡ some (first ∷ parts))
      × (first ++ join_rest separator parts ≡ text)
unfolding join_rest
explode_loop_lem separator zero limit text some_separator enough = absurd (omega (arith, enough))
explode_loop_lem separator (suc fuel) limit text some_separator enough =
    elim (Option-cases (next_limit limit)) [
      | inl last ↦ (text, [], explode_stop separator fuel limit text (inl last), append-nil text)
      | inr (limit1, more) ↦ elim (Option-cases (find separator text)) [
        | inl missing ↦
            (text, [], explode_stop separator fuel limit text (inr missing), append-nil text)
        | inr ((part, rest), found) ↦
            let shorter = find_shorter separator text part rest some_separator found in
            let (first, parts, runs, joined) =
              explode_loop_lem separator fuel limit1 rest some_separator
                (omega (arith, shorter, enough)) in
            (
              part,
              first ∷ parts,
              explode_next separator fuel limit limit1 text part rest more found
                  ∙ ap (option_map (λ (xs : List (List ℕ)). part ∷ xs)) runs,
              ap (λ xs. part ++ (separator ++ xs)) joined
                  ∙ sym (find_lem separator text part rest found),
            )
      ]
    ]

-- explodeString always ends and gives at least one part, and its parts joined by the separator
-- are the text again, for every limit and every separator that is not empty.
pub explode_string-joins :
    (text separator : List ℕ) (limit : ℤ)
    → 0 < length separator
    → (first : List ℕ) × (parts : List (List ℕ)) × (explode_string text separator limit
        ≡ some (first ∷ parts))
      × (first ++ join_rest separator parts ≡ text)
unfolding explode_string
explode_string-joins text separator limit some_separator =
    explode_loop_lem separator (suc (length text)) limit text some_separator (omega arith)
