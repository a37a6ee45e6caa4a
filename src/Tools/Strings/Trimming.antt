-- ===== src/Tools/Strings/Trimming.antt =====
-- trimString (src/tools.cpp) removes spaces at the two ends and nothing else.
use baiak_fonticak.Base.{sym, ℕ, zero, suc, ◌≡◌, refl, ap, ◌∙◌, ◌≢◌, inl, inr, ◌&&◌, List}
use baiak_fonticak.Base.{[], ◌∷◌, ◌++◌, append_assoc, arith, is_empty, ◌==◌, Bool-cases}
use baiak_fonticak.Tools.Strings.{trim_string, trim_left, trim_right}

unfoldable pub copies : ℕ → ℕ → List ℕ
copies zero t = []
copies (suc n) t = t ∷ copies n t

trim_left_lem : (text : List ℕ) (t : ℕ) → (n : ℕ) × (text ≡ copies n t ++ trim_left text t)
unfolding trim_left copies
trim_left_lem [] t = (0, refl)
trim_left_lem (c ∷ text) t =
    let (n, rest) = trim_left_lem text t in
    elim (Bool-cases (c == t)) [
      | inl same ↦ (suc n, ground (arith, same, rest))
      | inr other ↦ (0, ground (arith, other))
    ]

trim_right_lem : (text : List ℕ) (t : ℕ) → (n : ℕ) × (text ≡ trim_right text t ++ copies n t)
unfolding trim_right copies
trim_right_lem [] t = (0, refl)
trim_right_lem (c ∷ text) t =
    let (n, rest) = trim_right_lem text t in
    elim (Bool-cases (c == t && is_empty (trim_right text t))) [
      | inl same ↦ (suc n, ground (arith, same, rest))
      | inr other ↦ (n, ground (arith, other, rest))
    ]

trim_left_first : (text : List ℕ) (t : ℕ) (rest : List ℕ) → trim_left text t ≢ t ∷ rest
unfolding trim_left
trim_left_first [] t rest h = ground (arith, h)
trim_left_first (c ∷ text) t rest h = elim (Bool-cases (c == t)) [
  | inl same ↦ trim_left_first text t rest (ground (arith, same, h))
  | inr other ↦ ground (arith, other, h)
]

nothing_last : (t : ℕ) (rest : List ℕ) → [] ≢ rest ++ t ∷ []
nothing_last t [] e = ground (arith, e)
nothing_last t (r ∷ rest) e = ground (arith, e)

trim_right_last : (text : List ℕ) (t : ℕ) (rest : List ℕ) → trim_right text t ≢ rest ++ t ∷ []
unfolding trim_right
trim_right_last [] t rest h = nothing_last t rest h
trim_right_last (c ∷ text) t [] h = elim (Bool-cases (c == t && is_empty (trim_right text t))) [
  | inl same ↦ ground (arith, same, h)
  | inr other ↦ ground (arith, other, h)
]
trim_right_last (c ∷ text) t (r ∷ rest) h =
    elim (Bool-cases (c == t && is_empty (trim_right text t))) [
      | inl same ↦ ground (arith, same, h)
      | inr other ↦ trim_right_last text t rest (ground (arith, other, h))
    ]

-- trimString cuts spaces from both ends and nothing else, and what is left neither starts nor ends
-- with a space.
pub trim_string-decomposes :
    (text : List ℕ)
    → ((m : ℕ) × (n : ℕ) × (text ≡ copies m 32 ++ (trim_string text ++ copies n 32)))
      × ((rest : List ℕ) → trim_string text ≢ 32 ∷ rest)
      × ((rest : List ℕ) → trim_string text ≢ rest ++ 32 ∷ [])
unfolding trim_string
trim_string-decomposes text =
    let (n, right) = trim_right_lem text 32 in
    let (m, left) = trim_left_lem (trim_right text 32) 32 in
    (
      (
        m,
        n,
        right
            ∙ ap (λ xs. xs ++ copies n 32) left
            ∙ append_assoc (copies m 32) (trim_left (trim_right text 32) 32) (copies n 32),
      ),
      (λ rest. trim_left_first (trim_right text 32) 32 rest),
      (λ rest e. trim_right_last text 32 (copies m 32 ++ rest) (
          left ∙ ap (λ xs. copies m 32 ++ xs) e ∙ sym (append_assoc (copies m 32) rest (32 ∷ [])))),
    )
