-- ===== src/Bans/Refusing.antt =====
-- Who acceptConnection (src/ban.cpp) refuses.
use baiak_fonticak.Base.{ℕ, ◌+◌, ◌^◌, ◌≤◌, ◌<◌, ◌≡◌, refl, ap, ap₂, ◌∙◌, inl, inr, Bool}
use baiak_fonticak.Base.{true, false, ◌&&◌, none, some, List, [], ◌∷◌, arith, length, All}
use baiak_fonticak.Base.{◌==◌, Bool-cases}
use baiak_fonticak.Bans.{ConnectBlock, IpConnectMap, is_at_most, count_attempt, accept_again}
use baiak_fonticak.Bans.{first_block, accept_entry}
use baiak_fonticak.Bans.Limits.{own_answers, own_times, answers, answers-own_answers}

-- The times of attempts from `t` on, by the gaps between them.
unfoldable pub times_from : ℕ → List ℕ → List ℕ
times_from t [] = []
times_from t (gap ∷ gaps) = (t + gap) ∷ times_from (t + gap) gaps

unfoldable pub last_time : ℕ → List ℕ → ℕ
last_time t [] = t
last_time t (gap ∷ gaps) = last_time (t + gap) gaps

last_time-le : (t : ℕ) (gaps : List ℕ) → t ≤ last_time t gaps
unfolding last_time
last_time-le t [] = omega arith
last_time-le t (gap ∷ gaps) = omega (arith, last_time-le (t + gap) gaps)

quick_step :
    (t gap : ℕ) (b : ConnectBlock)
    → b.last_attempt ≡ t
    → b.block_time ≡ 0
    → b.count < 5
    → gap ≤ 500
    → t + gap < 2 ^ 63
    → accept_again (t + gap) b
      ≡ (true, record { last_attempt = t + gap; block_time = b.block_time; count = b.count + 1 })
unfolding accept_again count_attempt is_at_most
quick_step t gap b h1 h2 h3 h4 h5 = ground (arith, h1, h2, h3, h4, h5)

quick_refused :
    (t gap : ℕ) (b : ConnectBlock)
    → b.last_attempt ≡ t
    → b.block_time ≡ 0
    → b.count ≡ 5
    → gap ≤ 500
    → t + gap < 2 ^ 63
    → (accept_again (t + gap) b).0 ≡ false
unfolding accept_again count_attempt is_at_most
quick_refused t gap b h1 h2 h3 h4 h5 = ground (arith, h1, h2, h3, h4, h5)

slow_step :
    (t gap : ℕ) (b : ConnectBlock)
    → b.last_attempt ≡ t
    → b.block_time ≡ 0
    → 500 < gap
    → t + gap < 2 ^ 63
    → ((accept_again (t + gap) b).0 ≡ true)
      × ((accept_again (t + gap) b).1.last_attempt ≡ t + gap)
      × ((accept_again (t + gap) b).1.block_time ≡ 0)
unfolding accept_again count_attempt is_at_most
slow_step t gap b h1 h2 h3 h4 =
    (ground (arith, h1, h2, h3, h4), ground (arith, h1, h2, h3, h4), ground (arith, h1, h2, h3, h4))

-- Every attempt is accepted.
unfoldable pub all_accepted : List Bool → Bool
all_accepted [] = true
all_accepted (b ∷ bs) = b && all_accepted bs

hammering :
    (t : ℕ) (gaps : List ℕ) (b : ConnectBlock)
    → b.last_attempt ≡ t
    → b.block_time ≡ 0
    → b.count ≤ 5
    → 5 < b.count + length gaps
    → All (λ gap. gap ≤ 500) gaps
    → last_time t gaps < 2 ^ 63
    → all_accepted (own_answers (times_from t gaps) (some b)) ≡ false
unfolding times_from last_time own_answers accept_entry all_accepted
hammering t [] b h1 h2 h3 h4 quick h6 = absurd (omega (arith, h3, h4))
hammering t (gap ∷ gaps) b h1 h2 h3 h4 quick h6 =
    let soon : t + gap < 2 ^ 63 = omega (arith, last_time-le (t + gap) gaps, h6) in
    let rest =
      all_accepted (own_answers (times_from (t + gap) gaps) (some (accept_again (t + gap) b).1)) in
    elim (Bool-cases (b.count == 5)) [
      | inl full ↦
          ap (λ a. a && rest) (quick_refused t gap b h1 h2 (ground (arith, full)) quick.0 soon)
      | inr room ↦
          let more = quick_step t gap b h1 h2 (ground (arith, room, h3)) quick.0 soon in
          let c : ConnectBlock = record {
            last_attempt = t + gap;
            block_time = b.block_time;
            count = b.count + 1;
          } in
          ap (λ p. p.0 && all_accepted (own_answers (times_from (t + gap) gaps) (some p.1))) more
          ∙ hammering (t + gap) gaps c refl h2 (ground (arith, room, h3)) (omega (arith, h4))
              quick.1 h6
    ]

patient :
    (t : ℕ) (gaps : List ℕ) (b : ConnectBlock)
    → b.last_attempt ≡ t
    → b.block_time ≡ 0
    → All (λ gap. 500 < gap) gaps
    → last_time t gaps < 2 ^ 63
    → all_accepted (own_answers (times_from t gaps) (some b)) ≡ true
unfolding times_from last_time own_answers accept_entry all_accepted
patient t [] b h1 h2 slow h6 = refl
patient t (gap ∷ gaps) b h1 h2 slow h6 =
    let soon : t + gap < 2 ^ 63 = omega (arith, last_time-le (t + gap) gaps, h6) in
    let (ok, last, unblocked) = slow_step t gap b h1 h2 slow.0 soon in
    ap₂ (λ a c. a && c) ok
      (patient (t + gap) gaps (accept_again (t + gap) b).1 last unblocked slow.1 h6)

-- A new address that attempts at `t` and then by the given gaps.
abbrev pub IsClient : ℕ → List (ℕ × ℕ) → IpConnectMap → ℕ → List ℕ → Type 0
IsClient ip attempts m t gaps =
    (m ip ≡ none) × (own_times ip attempts ≡ t ∷ times_from t gaps) × (last_time t gaps < 2 ^ 63)

client_answers :
    (ip : ℕ) (attempts : List (ℕ × ℕ)) (m : IpConnectMap) (t : ℕ) (gaps : List ℕ)
    → IsClient ip attempts m t gaps
    → answers ip attempts m ≡ true ∷ own_answers (times_from t gaps) (some (first_block t))
unfolding own_answers accept_entry
client_answers ip attempts m t gaps (new, own, soon) =
    answers-own_answers ip attempts m ∙ ap₂ own_answers own new

-- A new address that attempts to connect at least six times, each at most half a second after
-- the one before, is refused at least once, whatever other addresses do in between.
pub hammering_is_refused :
    (ip : ℕ) (attempts : List (ℕ × ℕ)) (m : IpConnectMap) (t : ℕ) (gaps : List ℕ)
    → IsClient ip attempts m t gaps
    → 5 ≤ length gaps
    → All (λ gap. gap ≤ 500) gaps
    → all_accepted (answers ip attempts m) ≡ false
unfolding all_accepted first_block
hammering_is_refused ip attempts m t gaps h many quick =
    ap all_accepted (client_answers ip attempts m t gaps h)
    ∙ hammering t gaps (first_block t) refl refl (omega arith) (omega (arith, many)) quick h.2

-- A new address that leaves more than half a second between any two of its attempts is never
-- refused, whatever other addresses do in between.
pub patience_is_accepted :
    (ip : ℕ) (attempts : List (ℕ × ℕ)) (m : IpConnectMap) (t : ℕ) (gaps : List ℕ)
    → IsClient ip attempts m t gaps
    → All (λ gap. 500 < gap) gaps
    → all_accepted (answers ip attempts m) ≡ true
unfolding all_accepted first_block
patience_is_accepted ip attempts m t gaps h slow =
    ap all_accepted (client_answers ip attempts m t gaps h)
    ∙ patient t gaps (first_block t) refl refl slow h.2
