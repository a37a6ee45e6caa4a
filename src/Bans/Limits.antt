-- ===== src/Bans/Limits.antt =====
-- Addresses do not disturb each other in acceptConnection (src/ban.cpp).
use baiak_fonticak.Base.{ℕ, ◌≡◌, refl, sym, ap, ◌∙◌, ◌≢◌, inl, inr, Bool, true, false}
use baiak_fonticak.Base.{Option, some, List, [], ◌∷◌, arith, ◌==◌, if◌then◌else◌, Bool-cases}
use baiak_fonticak.Bans.{ConnectBlock, IpConnectMap, put, accept_entry, accept_connection}

-- The answers to one address among the attempts, each an address and a time.
unfoldable pub answers : ℕ → List (ℕ × ℕ) → IpConnectMap → List Bool
answers ip [] m = []
answers ip (a ∷ attempts) m =
    let r = accept_connection a.1 a.0 m in
    let rest = answers ip attempts r.1 in if a.0 == ip then r.0 ∷ rest else rest

-- The same from the entry of the address alone, at the times of its own attempts.
unfoldable pub own_answers : List ℕ → Option ConnectBlock → List Bool
own_answers [] entry = []
own_answers (now ∷ times) entry =
    let r = accept_entry now entry in r.0 ∷ own_answers times (some r.1)

unfoldable pub own_times : ℕ → List (ℕ × ℕ) → List ℕ
own_times ip [] = []
own_times ip (a ∷ attempts) =
    let rest = own_times ip attempts in if a.0 == ip then a.1 ∷ rest else rest

put_same :
    (ip : ℕ) (block : ConnectBlock) (m : IpConnectMap) (k : ℕ)
    → k ≡ ip
    → put ip block m k ≡ some block
unfolding put
put_same ip block m k h = ground (arith, h)

put_other :
    (ip : ℕ) (block : ConnectBlock) (m : IpConnectMap) (k : ℕ) → ip ≢ k → put ip block m k ≡ m k
unfolding put
put_other ip block m k h = ground (arith, h)

one_answer :
    (ip : ℕ) (a : ℕ × ℕ) (times : List ℕ) (rest : List Bool) (m : IpConnectMap) (b : Bool)
    → b ≡ true
    → a.0 ≡ ip
    → rest ≡ own_answers times (some (accept_entry a.1 (m a.0)).1)
    → (if b then (accept_entry a.1 (m a.0)).0 ∷ rest else rest)
      ≡ own_answers (if b then a.1 ∷ times else times) (m ip)
unfolding own_answers
one_answer ip a times rest m true h same ih =
    ap (λ xs. (accept_entry a.1 (m a.0)).0 ∷ xs) ih
    ∙ ap (λ k. (accept_entry a.1 (m k)).0 ∷ own_answers times (some (accept_entry a.1 (m k)).1))
        same
one_answer ip a times rest m false h same ih = absurd (ground (arith, h))

no_answer :
    (ip : ℕ) (x : Bool) (now : ℕ) (times : List ℕ) (rest : List Bool) (m : IpConnectMap) (b : Bool)
    → b ≡ false
    → rest ≡ own_answers times (m ip)
    → (if b then x ∷ rest else rest) ≡ own_answers (if b then now ∷ times else times) (m ip)
no_answer ip x now times rest m false h ih = ih
no_answer ip x now times rest m true h ih = absurd (ground (arith, h))

-- An address gets the answers that its own attempts alone would get, from its own entry of the
-- map, whatever other addresses attempt in between.
pub answers-own_answers :
    (ip : ℕ) (attempts : List (ℕ × ℕ)) (m : IpConnectMap)
    → answers ip attempts m ≡ own_answers (own_times ip attempts) (m ip)
unfolding answers own_answers own_times accept_connection
answers-own_answers ip [] m = refl
answers-own_answers ip (a ∷ attempts) m =
    let block = (accept_entry a.1 (m a.0)).1 in
    let ih = answers-own_answers ip attempts (put a.0 block m) in
    elim (Bool-cases (a.0 == ip)) [
      | inl own ↦
          let same : a.0 ≡ ip = ground (arith, own) in
          one_answer ip a (own_times ip attempts) (answers ip attempts (put a.0 block m)) m
            (a.0 == ip) own same
            (ih ∙ ap (own_answers (own_times ip attempts)) (put_same a.0 block m ip (sym same)))
      | inr other ↦
          let differ : a.0 ≢ ip = λ e. ground (arith, other, e) in
          no_answer ip (accept_entry a.1 (m a.0)).0 a.1 (own_times ip attempts)
            (answers ip attempts (put a.0 block m)) m (a.0 == ip) other
            (ih ∙ ap (own_answers (own_times ip attempts)) (put_other a.0 block m ip differ))
    ]
