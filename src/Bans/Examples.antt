-- ===== src/Bans/Examples.antt =====
-- Address 7 hammers, and address 9 is patient.
use baiak_fonticak.Base.{ℕ, ◌≡◌, refl, true, false, none, List, [], ◌∷◌, arith}
use baiak_fonticak.Bans.{IpConnectMap, put, accept_connection, accept_entry, accept_again}
use baiak_fonticak.Bans.{first_block, count_attempt, is_at_most}
use baiak_fonticak.Bans.Limits.{answers, own_times}
use baiak_fonticak.Bans.Refusing.{all_accepted, times_from, last_time, hammering_is_refused}
use baiak_fonticak.Bans.Refusing.{patience_is_accepted}

abbrev nobody : IpConnectMap
nobody ip = none

abbrev attempts : List (ℕ × ℕ)
attempts =
    (7, 1000)
    ∷ (9, 1000)
    ∷ (7, 1100)
    ∷ (7, 1200)
    ∷ (7, 1300)
    ∷ (9, 1600)
    ∷ (7, 1400)
    ∷ (7, 1500)
    ∷ []

hammering_is_refused_example : all_accepted (answers 7 attempts nobody) ≡ false
unfolding own_times times_from last_time
hammering_is_refused_example =
    hammering_is_refused 7 attempts nobody 1000 (100 ∷ 100 ∷ 100 ∷ 100 ∷ 100 ∷ [])
      (refl, refl, omega arith) (omega arith)
      (omega arith, (omega arith, (omega arith, (omega arith, (omega arith, tt)))))

patience_is_accepted_example : all_accepted (answers 9 attempts nobody) ≡ true
unfolding own_times times_from last_time
patience_is_accepted_example =
    patience_is_accepted 9 attempts nobody 1000 (600 ∷ []) (refl, refl, omega arith)
      (omega arith, tt)

-- The sixth quick attempt is the one that is refused.
sixth_is_refused : answers 7 attempts nobody ≡ true ∷ true ∷ true ∷ true ∷ true ∷ false ∷ []
unfolding answers put accept_connection accept_entry accept_again first_block count_attempt
    is_at_most
sixth_is_refused = refl
