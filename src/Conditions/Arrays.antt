-- ===== src/Conditions/Arrays.antt =====
-- ConditionAttributes (src/condition.cpp) reads the arrays that it writes, entry by entry.
use baiak_fonticak.Base.{ℕ, ◌+◌, ◌≡◌, refl, sym, ap, ap₂, ◌∙◌, Bool, false, some, List, []}
use baiak_fonticak.Base.{◌∷◌, ◌++◌, append_assoc, arith, length, set, length-append}
use baiak_fonticak.Conditions.{Attributes, attributes, Condition}
use baiak_fonticak.Conditions.Codes.{skills_attr, stats_attr, special_skills_attr}
use baiak_fonticak.Conditions.Writing.{written, kind_fields, each}
use baiak_fonticak.Conditions.Creating.{zeros, new_attributes}
use baiak_fonticak.Conditions.Reading.{field_of, kind_field, attributes_field}
use baiak_fonticak.Conditions.Fields.{absorb, absorb_into, absorb-append}
use baiak_fonticak.Conditions.Restoring.{blank, kept, of_bool_back}
use baiak_fonticak.Conditions.Kinds.{shell}

set_next :
    (before : List ℕ) (v : ℕ) (rest : List ℕ)
    → set (before ++ 0 ∷ rest) (length before) v ≡ before ++ v ∷ rest
set_next [] v rest = refl
set_next (x ∷ before) v rest = ap (λ xs. x ∷ xs) (set_next before v rest)

-- An array of a condition and its index, as a function into conditions, that an attribute fills.
module _ (now attr : ℕ) (at : List ℕ → ℕ → Condition)
    (fills : (xs : List ℕ) (i : ℕ)
      → kind_field now attr (at xs i).kind (at xs i)
        ≡ field_of 4 (λ v. at (set xs i v) (i + 1))) where
  absorb-each :
      (before vs : List ℕ)
      → absorb now (each attr vs) (at (before ++ zeros (length vs)) (length before))
        ≡ some (at (before ++ vs) (length before + length vs))
  unfolding absorb absorb_into each
  absorb-each before [] = ap (λ (n : ℕ). some (at (before ++ []) n)) (omega arith)
  absorb-each before (v ∷ vs) =
      let xs = before ++ 0 ∷ zeros (length vs) in
      let i = length before in
      ap (λ o. absorb_into o (written attr 4 v) (absorb now (each attr vs))) (fills xs i)
      ∙ ap₂ (λ ys (n : ℕ). absorb now (each attr vs) (at ys n))
          (set_next before v (zeros (length vs)) ∙ sym (append_assoc before (v ∷ []) _))
          (sym (length-append before (v ∷ [])))
      ∙ absorb-each (before ++ v ∷ []) vs
      ∙ ap₂ (λ ys (n : ℕ). some (at ys n)) (append_assoc before (v ∷ []) vs)
          (omega (arith, length-append before (v ∷ [])))

  pub absorb-array :
      (n : ℕ) (vs : List ℕ)
      → length vs ≡ n
      → absorb now (each attr vs) (at (zeros n) 0) ≡ some (at vs n)
  absorb-array n vs h =
      ap (λ (m : ℕ). absorb now (each attr vs) (at (zeros m) 0)) (sym h)
      ∙ absorb-each [] vs
      ∙ ap (λ (m : ℕ). some (at vs m)) (omega (arith, h))

module _ (now id type sub_id : ℕ) (buff aggressive : Bool) (ticks e : ℕ) where
  -- The attributes with the arrays read so far.
  abbrev filled : List ℕ → ℕ → List ℕ → ℕ → Bool → List ℕ → ℕ → Condition
  filled skills i stats j b special k = shell now id type sub_id buff aggressive ticks e (
      attributes (record new_attributes {
        skills = skills;
        current_skill = i;
        stats = stats;
        current_stat = j;
        disable_defense = b;
        special_skills = special;
        current_special_skill = k;
      }))

  pub absorb-attributes :
      (a : Attributes)
      → length a.skills ≡ 7
      → length a.special_skills ≡ 6
      → length a.stats ≡ 4
      → absorb now
          (kind_fields (attributes a))
          (shell now id type sub_id buff aggressive ticks e (blank (attributes a)))
        ≡ some (shell now id type sub_id buff aggressive ticks e (kept (attributes a)))
  unfolding kind_fields blank kept kind_field attributes_field new_attributes absorb absorb_into
  absorb-attributes a h1 h2 h3 =
      let z4 = zeros 4 in
      let z6 = zeros 6 in
      absorb-append now (each skills_attr a.skills) _ _ (filled a.skills 7 z4 0 false z6 0) _
        (absorb-array now skills_attr (λ xs i. filled xs i z4 0 false z6 0) (λ xs i. refl) 7
          a.skills h1)
        (absorb-append now (each stats_attr a.stats) _ _ (filled a.skills 7 a.stats 4 false z6 0) _
          (absorb-array now stats_attr (λ xs i. filled a.skills 7 xs i false z6 0) (λ xs i. refl) 4
            a.stats h3)
          (ap
              (λ (b : Bool).
                absorb now (each special_skills_attr a.special_skills)
                  (filled a.skills 7 a.stats 4 b z6 0))
              (of_bool_back a.disable_defense)
            ∙ absorb-array now special_skills_attr
                (λ xs i. filled a.skills 7 a.stats 4 a.disable_defense xs i) (λ xs i. refl) 6
                a.special_skills h2))
