-- ===== src/Player/Magic.antt =====
-- Mana spent and magic levels: Player::addManaSpent and Player::removeManaSpent of
-- src/player.cpp. The mana that a level asks for comes from std::pow by Vocation::getReqMana
-- and is the parameter `req`; the script event is the parameter `on_gain`.
pub mod Losing
use baiak_fonticak.Base.Words.{sub_u64, add_u64, add_u32}
use baiak_fonticak.Player.Skills.{get_percent_level}
use baiak_fonticak.Base.{ℕ, zero, suc, ◌-◌, Bool, true, false, ◌&&◌, Option, none, some}
use baiak_fonticak.Base.{option_map, ltb, leb, ◌==◌, if◌then◌else◌}

-- magLevel, manaSpent and magLevelPercent of Player.
pub record Magic : Type 0 where
  pub mag_level : ℕ
  pub mana_spent : ℕ
  pub percent : ℕ

-- The loop of addManaSpent, on fuel. Either it returns from the function at the last level, or
-- it ends with the amount, currReqMana and nextReqMana it leaves.
pub data Spending : Type 0 where
  returned : Magic → Spending
  ended : Magic → ℕ → ℕ → ℕ → Spending

unfoldable pub spend_loop : (ℕ → ℕ) → ℕ → ℕ → ℕ → ℕ → Magic → Option Spending
spend_loop req zero amount curr next s = none
spend_loop req (suc fuel) amount curr next s = elim (leb next (add_u64 s.mana_spent amount)) [
  | false ↦ some (ended s amount curr next)
  | true ↦
      let s1 : Magic = record s { mag_level = add_u32 s.mag_level 1; mana_spent = 0 } in
      let next1 = req (add_u32 (add_u32 s.mag_level 1) 1) in
      elim (leb next1 next) [
        | true ↦ some (returned s1)
        | false ↦ spend_loop req fuel (sub_u64 amount (sub_u64 next s.mana_spent)) next next1 s1
      ]
]

-- The part of addManaSpent after the loop.
unfoldable pub finish_spending : Spending → Magic
finish_spending (returned s) = s
finish_spending (ended s amount curr next) =
    let spent1 = add_u64 s.mana_spent amount in
    record s {
      mana_spent = spent1;
      percent = if ltb curr next then get_percent_level spent1 next else 0;
    }

unfoldable pub add_mana_spent : (ℕ → ℕ) → (ℕ → ℕ) → Bool → ℕ → ℕ → Magic → Option Magic
add_mana_spent req on_gain not_gain_mana fuel amount s =
    let curr = req s.mag_level in
    let next = req (add_u32 s.mag_level 1) in
    if not_gain_mana
    then some s
    else if leb next curr
    then some s
    else if on_gain amount == 0
    then some s
    else option_map finish_spending (spend_loop req fuel (on_gain amount) curr next s)

-- The loop of removeManaSpent, on fuel: the state and the amount it leaves.
unfoldable pub unspend_loop : (ℕ → ℕ) → ℕ → ℕ → Magic → Option (Magic × ℕ)
unspend_loop req zero amount s = none
unspend_loop req (suc fuel) amount s = elim (ltb s.mana_spent amount && ltb 0 s.mag_level) [
  | false ↦ some (s, amount)
  | true ↦
      unspend_loop req fuel (amount - s.mana_spent)
        (record s { mag_level = s.mag_level - 1; mana_spent = req s.mag_level })
]

unfoldable pub finish_unspending : (ℕ → ℕ) → Magic × ℕ → Magic
finish_unspending req (s, amount) =
    let spent1 = sub_u64 s.mana_spent amount in
    let next = req (add_u32 s.mag_level 1) in
    record s {
      mana_spent = spent1;
      percent = if ltb (req s.mag_level) next then get_percent_level spent1 next else 0;
    }

unfoldable pub remove_mana_spent : (ℕ → ℕ) → ℕ → ℕ → Magic → Option Magic
remove_mana_spent req fuel amount s =
    if amount == 0
    then some s
    else option_map (finish_unspending req) (unspend_loop req fuel amount s)
