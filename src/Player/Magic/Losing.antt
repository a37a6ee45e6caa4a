-- ===== src/Player/Magic/Losing.antt =====
-- removeManaSpent (src/player.cpp) on every branch, the wrap-around at level 0 included.
use baiak_fonticak.Base.Words.{sub_u64}
use baiak_fonticak.Base.{ℕ, zero, suc, ◌+◌, ◌-◌, ◌^◌, ◌≤◌, ◌<◌, ◌≡◌, refl, ap, subst, ◌∙◌}
use baiak_fonticak.Base.{◌⊎◌, inl, inr, true, false, ◌&&◌, some, arith, ltb, leb, Bool-cases}
use baiak_fonticak.Player.Skills.Gaining.{spent}
use baiak_fonticak.Player.Magic.{Magic, unspend_loop, finish_unspending, remove_mana_spent}

-- All mana a magic level stands for.
abbrev pub total_mana : (ℕ → ℕ) → Magic → ℕ
total_mana req s = s.mana_spent + spent req s.mag_level

unspend_stop :
    (req : ℕ → ℕ) (fuel amount : ℕ) (s : Magic)
    → (ltb s.mana_spent amount && ltb 0 s.mag_level) ≡ false
    → unspend_loop req (suc fuel) amount s ≡ some (s, amount)
unfolding unspend_loop
unspend_stop req fuel amount s h = ground (arith, h)

unspend_next :
    (req : ℕ → ℕ) (fuel amount : ℕ) (s : Magic)
    → (ltb s.mana_spent amount && ltb 0 s.mag_level) ≡ true
    → unspend_loop req (suc fuel) amount s
      ≡ unspend_loop req fuel
          (amount - s.mana_spent)
          (record s { mag_level = s.mag_level - 1; mana_spent = req s.mag_level })
unfolding unspend_loop
unspend_next req fuel amount s h = ground (arith, h)

spent_pred : (req : ℕ → ℕ) (l : ℕ) → 0 < l → spent req l ≡ spent req (l - 1) + req l
unfolding spent
spent_pred req zero high = absurd (omega (arith, high))
spent_pred req (suc l) high =
    let same : l ≡ suc l - 1 = omega arith in
    subst (λ n. spent req (suc l) ≡ spent req n + req (suc l)) same refl

-- What the loop leaves when `amount` is taken from `s`.
record IsUnspent (req : ℕ → ℕ) (s : Magic) (amount : ℕ) (t : Magic) (rest : ℕ) : Type 0 where
  conserves : total_mana req t + amount ≡ total_mana req s + rest
  is_done : (rest ≤ t.mana_spent) ⊎ (t.mag_level ≡ 0)
  level : t.mag_level ≤ s.mag_level
  within : rest ≤ amount

unspend_loop_lem :
    (req : ℕ → ℕ) (fuel amount : ℕ) (s : Magic)
    → s.mag_level < fuel
    → (t : Magic) × (rest : ℕ) × (unspend_loop req fuel amount s ≡ some (t, rest))
      × IsUnspent req s amount t rest
unspend_loop_lem req zero amount s enough = absurd (omega (arith, enough))
unspend_loop_lem req (suc fuel) amount s enough =
    elim (Bool-cases (ltb s.mana_spent amount && ltb 0 s.mag_level)) [
      | inr done ↦ (
        s,
        amount,
        unspend_stop req fuel amount s done,
        record {
          conserves = refl;
          is_done = stopped amount s done;
          level = omega arith;
          within = omega arith;
        },
      )
      | inl more ↦
          let many : s.mana_spent < amount = ground (arith, more) in
          let above : 0 < s.mag_level = ground (arith, more) in
          let split = spent_pred req s.mag_level above in
          let s1 : Magic = record s { mag_level = s.mag_level - 1; mana_spent = req s.mag_level } in
          let (t, rest, runs, good) =
            unspend_loop_lem req fuel (amount - s.mana_spent) s1 (omega (arith, enough, above)) in
          (
            t,
            rest,
            unspend_next req fuel amount s more ∙ runs,
            record {
              conserves = omega (arith, good.conserves, split, many);
              is_done = good.is_done;
              level = omega (arith, good.level);
              within = omega (arith, good.within);
            },
          )
    ]
  where
    stopped :
        (amount : ℕ) (s : Magic)
        → (ltb s.mana_spent amount && ltb 0 s.mag_level) ≡ false
        → (amount ≤ s.mana_spent) ⊎ (s.mag_level ≡ 0)
    stopped amount s done = elim (Bool-cases (ltb s.mana_spent amount)) [
      | inl more ↦ inr (ground (arith, done, more))
      | inr few ↦ inl (ground (arith, few))
    ]

finish_level :
    (req : ℕ → ℕ) (t : Magic) (rest : ℕ)
    → ((finish_unspending req (t, rest)).mag_level ≡ t.mag_level)
      × ((finish_unspending req (t, rest)).mana_spent ≡ sub_u64 t.mana_spent rest)
unfolding finish_unspending
finish_level req t rest = (refl, refl)

remove_nothing : (req : ℕ → ℕ) (fuel : ℕ) (s : Magic) → remove_mana_spent req fuel 0 s ≡ some s
unfolding remove_mana_spent
remove_nothing req fuel s = refl

remove_something :
    (req : ℕ → ℕ) (fuel amount : ℕ) (s : Magic) (t : Magic) (rest : ℕ)
    → 0 < amount
    → unspend_loop req fuel amount s ≡ some (t, rest)
    → remove_mana_spent req fuel amount s ≡ some (finish_unspending req (t, rest))
unfolding remove_mana_spent
remove_something req fuel amount s t rest some_amount runs = ground (arith, some_amount, runs)

finish_cases :
    (req : ℕ → ℕ) (amount rest : ℕ) (s t : Magic)
    → amount < 2 ^ 64
    → total_mana req s < 2 ^ 64
    → IsUnspent req s amount t rest
    → ((amount ≤ total_mana req s)
        × (total_mana req (finish_unspending req (t, rest)) + amount ≡ total_mana req s))
      ⊎ ((total_mana req s < amount)
          × ((finish_unspending req (t, rest)).mag_level ≡ 0)
          × ((finish_unspending req (t, rest)).mana_spent + amount ≡ 2 ^ 64 + total_mana req s))
unfolding spent
finish_cases req amount rest s t fits sum_fits good =
    let (level, mana) = finish_level req t rest in
    let spent_same = ap (spent req) level in
    elim (Bool-cases (leb rest t.mana_spent)) [
      | inl few ↦
          let enough : rest ≤ t.mana_spent = ground (arith, few) in
          let exact : sub_u64 t.mana_spent rest ≡ t.mana_spent - rest =
            omega (arith, enough, fits, sum_fits, good.conserves, good.within) in
          inl (
            omega (arith, enough, good.conserves),
            omega (arith, enough, exact, mana, spent_same, good.conserves),
          )
      | inr many ↦
          let short : t.mana_spent < rest = ground (arith, many) in
          let lowest : t.mag_level ≡ 0 = omega (arith, short, good.is_done) in
          let no_more : spent req t.mag_level ≡ 0 = ap (spent req) lowest in
          inr (
            omega (arith, short, no_more, good.conserves),
            level ∙ lowest,
            omega (arith, short, no_more, mana, fits, good.within, good.conserves),
          )
    ]

-- removeManaSpent takes exactly the amount from the mana that was spent in all, when there is as
-- much. When there is less, magic level 0 is left, and the spent mana wraps around: it is 2^64
-- and the mana spent before, less the amount. It holds of amounts and sums of mana under 2^64;
-- more fuel than the level is enough.
pub remove_mana_spent-takes :
    (req : ℕ → ℕ) (fuel amount : ℕ) (s : Magic)
    → s.mag_level < fuel
    → 0 < amount
    → amount < 2 ^ 64
    → total_mana req s < 2 ^ 64
    → (t : Magic) × (remove_mana_spent req fuel amount s ≡ some t)
      × (((amount ≤ total_mana req s) × (total_mana req t + amount ≡ total_mana req s))
          ⊎ ((total_mana req s < amount)
              × (t.mag_level ≡ 0)
              × (t.mana_spent + amount ≡ 2 ^ 64 + total_mana req s)))
remove_mana_spent-takes req fuel amount s enough some_amount fits sum_fits =
    let (t, rest, runs, good) = unspend_loop_lem req fuel amount s enough in
    (
      finish_unspending req (t, rest),
      remove_something req fuel amount s t rest some_amount runs,
      finish_cases req amount rest s t fits sum_fits good,
    )
