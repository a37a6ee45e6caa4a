-- ===== src/Party/Sharing.antt =====
-- Whether the party shares experience is kept up to date.
use baiak_fonticak.Party.Members.{is_missing_leader, set_shared_experience, leave_party}
use baiak_fonticak.Party.Members.{clear_player_points, pass_party_leadership, leave_tail}
use baiak_fonticak.Party.Members.{join_party, update_player_ticks}
use baiak_fonticak.Base.{ℕ, ◌≡◌, refl, sym, ap, inl, inr, Bool, true, false, not, ◌&&◌, ◌||◌}
use baiak_fonticak.Base.{List, [], ◌∷◌, arith, ◌==◌, ◌!=◌, if◌then◌else◌, Bool-cases}
use baiak_fonticak.Base.{Option-cases}
use baiak_fonticak.Party.{Party, Events, World, is_player_invited, disband}
use baiak_fonticak.Party.{update_shared_experience, can_enable_shared_experience, bool_eq}
use baiak_fonticak.Party.{can_use_shared_experience, all_can_use}

-- While sharing is switched on, it is enabled exactly if the present members, places, levels and
-- times allow it.
abbrev pub IsCurrent : World → Party → Type 0
IsCurrent w s = s.shared_exp_active ≡ true → s.shared_exp_enabled ≡ can_enable_shared_experience w s

all_can_use-enabled :
    (w : World) (b : Bool) (xs : List ℕ) (s : Party)
    → all_can_use w xs (record s { shared_exp_enabled = b }) ≡ all_can_use w xs s
unfolding all_can_use can_use_shared_experience
all_can_use-enabled w b [] s = refl
all_can_use-enabled w b (x ∷ xs) s =
    ap (λ t. if can_use_shared_experience w x s then t else false) (all_can_use-enabled w b xs s)

can_enable-enabled :
    (w : World) (b : Bool) (s : Party)
    → can_enable_shared_experience w (record s { shared_exp_enabled = b })
      ≡ can_enable_shared_experience w s
unfolding can_enable_shared_experience can_use_shared_experience
can_enable-enabled w b s =
    ap (λ t. if can_use_shared_experience w s.leader s then t else false)
      (all_can_use-enabled w b s.member_list s)

refreshed :
    (w : World) (s : Party) (b c : Bool)
    → b ≡ s.shared_exp_active
    → c ≡ bool_eq (can_enable_shared_experience w s) s.shared_exp_enabled
    → IsCurrent w (
        if b
        then (if c then s else record s { shared_exp_enabled = can_enable_shared_experience w s })
        else s)
refreshed w s false c eb ec = λ on. absurd (ground (arith, eb, on))
refreshed w s true true eb ec = λ on. ground arith
refreshed w s true false eb ec =
    λ on. sym (can_enable-enabled w (can_enable_shared_experience w s) s)

update_shared-IsCurrent : (w : World) (s : Party) → IsCurrent w (update_shared_experience w s)
unfolding update_shared_experience
update_shared-IsCurrent w s = refreshed w s s.shared_exp_active _ refl refl

clear_points-IsCurrent :
    (w : World) (player : ℕ) (s : Party)
    → IsCurrent w s
    → IsCurrent w (clear_player_points w player s)
unfolding clear_player_points
clear_points-IsCurrent w player s h = elim (Option-cases (s.ticks_map player)) [
  | inl e ↦ rw (e, clear_player_points) h
  | inr (tick, e) ↦ rw (e, clear_player_points) (update_shared-IsCurrent w _)
]

-- A call after which the sharing was looked at again: the operation did not refuse, the points
-- counted, the switch changed.
pub data Refresh (ev : Events) (w : World) (s : Party) : Party → Type 0 where
  updates : Refresh ev w s (update_shared_experience w s)
  passes :
      (player : ℕ) (force : Bool)
      → (pass_party_leadership ev w player force s).0 ≡ true
      → Refresh ev w s (pass_party_leadership ev w player force s).1
  joins :
      (player : ℕ)
      → (join_party ev w player s).0 ≡ true
      → Refresh ev w s (join_party ev w player s).1
  leaves :
      (player : ℕ)
      → (leave_party ev w player s).0 ≡ true
      → Refresh ev w s (leave_party ev w player s).1
  ticks :
      (player points : ℕ)
      → (points != 0 && not (w.not_gain_in_fight player)) ≡ true
      → Refresh ev w s (update_player_ticks w player points s)
  shares :
      (player : ℕ) (active : Bool)
      → (set_shared_experience w player active s).0 ≡ true
      → bool_eq s.shared_exp_active active ≡ false
      → Refresh ev w s (set_shared_experience w player active s).1

pass-IsCurrent :
    (ev : Events) (w : World) (player : ℕ) (force : Bool) (s : Party)
    → (pass_party_leadership ev w player force s).0 ≡ true
    → IsCurrent w (pass_party_leadership ev w player force s).1
unfolding pass_party_leadership
pass-IsCurrent ev w player force s =
    elim (Bool-cases (s.leader == player || s.party_of player != s.self)) [
      | inl refused ↦ rw refused (λ ok. absurd (ground (arith, ok)))
      | inr proper ↦ elim (Bool-cases (not (ev.on_pass_leadership player) && not force)) [
        | inl vetoed ↦ rw (proper, vetoed) (λ ok. absurd (ground (arith, ok)))
        | inr granted ↦ rw (proper, granted) (λ ok. update_shared-IsCurrent w _)
      ]
    ]

join-IsCurrent :
    (ev : Events) (w : World) (player : ℕ) (s : Party)
    → (join_party ev w player s).0 ≡ true
    → IsCurrent w (join_party ev w player s).1
unfolding join_party
join-IsCurrent ev w player s = elim (Bool-cases (ev.on_join player)) [
  | inr vetoed ↦ rw vetoed (λ ok. absurd (ground (arith, ok)))
  | inl granted ↦ elim (Bool-cases (is_player_invited player s)) [
    | inr unknown ↦ rw (granted, unknown) (λ ok. absurd (ground (arith, ok)))
    | inl found ↦ rw (granted, found) (λ ok. update_shared-IsCurrent w _)
  ]
]

ticks-IsCurrent :
    (w : World) (player points : ℕ) (s : Party)
    → (points != 0 && not (w.not_gain_in_fight player)) ≡ true
    → IsCurrent w (update_player_ticks w player points s)
unfolding update_player_ticks
ticks-IsCurrent w player points s counted = rw counted (update_shared-IsCurrent w _)

living_tail :
    (ev : Events) (w : World) (b : Bool) (s : Party)
    → IsCurrent w s
    → (if b then disband ev s else s).alive ≡ true
    → IsCurrent w (if b then disband ev s else s)
unfolding disband
living_tail ev w true s h alive = elim (Bool-cases ev.on_disband) [
  | inl granted ↦ absurd (ground (arith, granted, alive))
  | inr vetoed ↦ rw vetoed h
]
living_tail ev w false s h alive = h

leave_tail-IsCurrent :
    (ev : Events) (w : World) (player : ℕ) (missing : Bool) (s : Party)
    → (leave_tail ev w player missing s).alive ≡ true
    → IsCurrent w (leave_tail ev w player missing s)
unfolding leave_tail
leave_tail-IsCurrent ev w player missing s =
    living_tail ev w _ _ (clear_points-IsCurrent w player _ (update_shared-IsCurrent w _))

leave-IsCurrent :
    (ev : Events) (w : World) (player : ℕ) (s : Party)
    → (leave_party ev w player s).0 ≡ true
    → (leave_party ev w player s).1.alive ≡ true
    → IsCurrent w (leave_party ev w player s).1
unfolding leave_party
leave-IsCurrent ev w player s =
    elim (Bool-cases (s.party_of player != s.self && s.leader != player)) [
      | inl stranger ↦ rw stranger (λ ok. absurd (ground (arith, ok)))
      | inr own ↦ elim (Bool-cases (ev.on_leave player)) [
        | inr vetoed ↦ rw (own, vetoed) (λ ok. absurd (ground (arith, ok)))
        | inl granted ↦ elim (Bool-cases (s.leader == player && not (is_missing_leader player s))) [
          | inl led ↦ rw (own, granted, led) (λ ok. leave_tail-IsCurrent ev w player false _)
          | inr plain ↦ rw (own, granted, plain) (λ ok. leave_tail-IsCurrent ev w player _ s)
        ]
      ]
    ]

activated :
    (w : World) (s : Party) (active : Bool)
    → IsCurrent w (
        if active
        then record (record s { shared_exp_active = active }) {
          shared_exp_enabled =
              can_enable_shared_experience w (record s { shared_exp_active = active });
        }
        else record s { shared_exp_active = active })
activated w s true = λ _. sym (can_enable-enabled w _ (record s { shared_exp_active = true }))
activated w s false = λ off. cc

set_shared-IsCurrent :
    (w : World) (player : ℕ) (active : Bool) (s : Party)
    → bool_eq s.shared_exp_active active ≡ false
    → (set_shared_experience w player active s).0 ≡ true
    → IsCurrent w (set_shared_experience w player active s).1
unfolding set_shared_experience
set_shared-IsCurrent w player active s new = elim (Bool-cases (s.leader != player)) [
  | inl other ↦ rw other (λ ok. absurd (ground (arith, ok)))
  | inr same ↦ rw (same, new) (λ ok. activated w s active)
]

-- Whatever the sharing was before: after the party looked at it again, after a passing of the
-- lead, a joining or a leaving that was not refused, after points that count, and after a switch
-- that changed it, a party that lives and has its sharing switched on shares exactly if the
-- members, places, levels and times that it then has allow it.
pub sharing-IsCurrent :
    {ev : Events} {w : World} {s t : Party}
    → Refresh ev w s t
    → t.alive ≡ true
    → t.shared_exp_active ≡ true
    → t.shared_exp_enabled ≡ can_enable_shared_experience w t
sharing-IsCurrent {w} {s} updates alive on = update_shared-IsCurrent w s on
sharing-IsCurrent {ev} {w} {s} (passes player force ok) alive on =
    pass-IsCurrent ev w player force s ok on
sharing-IsCurrent {ev} {w} {s} (joins player ok) alive on = join-IsCurrent ev w player s ok on
sharing-IsCurrent {ev} {w} {s} (leaves player ok) alive on =
    leave-IsCurrent ev w player s ok alive on
sharing-IsCurrent {w} {s} (ticks player points counted) alive on =
    ticks-IsCurrent w player points s counted on
sharing-IsCurrent {w} {s} (shares player active ok new) alive on =
    set_shared-IsCurrent w player active s new ok on
