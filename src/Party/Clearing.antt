-- ===== src/Party/Clearing.antt =====
-- Player::clearPartyInvitations (src/player.cpp): a player who logs out gives its invitations
-- back. The party takes the player off its list, and is deleted when nobody is left on its lists;
-- only then does the player forget the party.
use baiak_fonticak.Base.{count, ℕ, ◌≡◌, refl, sym, ap, ◌∙◌, inl, inr, true, false, List, []}
use baiak_fonticak.Base.{◌∷◌, arith, contains, erase_first, contains-iff-count}
use baiak_fonticak.Base.{count-erase_first, ◌==◌, ==_iff, Bool-cases}
use baiak_fonticak.Party.{Party, Events, is_player_invited, disband, empty, update}
use baiak_fonticak.Party.Members.{remove_invite, clear_invites, clear_party_invitations}
use baiak_fonticak.Party.Roster.{IsConsistent, IsDissolved, disband-shape}
use baiak_fonticak.Party.Leaving.{Outcome}

remove_invite-self :
    (ev : Events) (player : ℕ) (s : Party)
    → ev.on_disband ≡ true
    → (remove_invite ev player false s).1.self ≡ s.self
unfolding remove_invite
remove_invite-self ev player s allowed =
    let s1 : Party = record s { invite_list = erase_first player s.invite_list } in
    elim (Bool-cases (is_player_invited player s)) [
      | inr unknown ↦ rw unknown refl
      | inl found ↦ elim (Bool-cases (empty s1)) [
        | inl none_left ↦ rw (found, none_left) (disband-shape ev s1 allowed).0
        | inr some_left ↦ rw (found, some_left) refl
      ]
    ]

clear_invites-none :
    (ev : Events) (player : ℕ) (xs : List ℕ) (s : Party)
    → count s.self xs ≡ 0
    → clear_invites ev player xs s ≡ s
unfolding clear_invites
clear_invites-none ev player [] s h = refl
clear_invites-none ev player (x ∷ xs) s h = elim (Bool-cases (x == s.self)) [
  | inl own ↦ absurd (ground (arith, own, h))
  | inr other ↦ rw other (clear_invites-none ev player xs s (ground (arith, other, h)))
]

clear_invites-once :
    (ev : Events) (player : ℕ) (xs : List ℕ) (s : Party)
    → ev.on_disband ≡ true
    → count s.self xs ≡ 1
    → clear_invites ev player xs s ≡ (remove_invite ev player false s).1
unfolding clear_invites
clear_invites-once ev player [] s allowed h = absurd (omega (arith, h))
clear_invites-once ev player (x ∷ xs) s allowed h = elim (Bool-cases (x == s.self)) [
  | inl own ↦ rw own (
      clear_invites-none ev player xs (remove_invite ev player false s).1
        (ap (λ n. count n xs) (remove_invite-self ev player s allowed) ∙ ground (arith, own, h)))
  | inr other ↦ rw other (clear_invites-once ev player xs s allowed (ground (arith, other, h)))
]

-- The player, who holds no invitation any more.
abbrev forget : ℕ → Party → Party
forget player s = record s { invitations = update s.invitations player [] }

forget-shorter :
    (player : ℕ) (s : Party)
    → IsConsistent s
    → IsConsistent (forget player (record s { invite_list = erase_first player s.invite_list }))
forget-shorter player s h = record {
  lives = h.lives;
  named = h.named;
  roster = h.roster;
  invited = λ q. ground (arith, h.invited q, h.once q, count-erase_first q player s.invite_list);
  once = λ q. ground (arith, h.once q, count-erase_first q player s.invite_list);
}

forget-IsDissolved :
    (ev : Events) (player : ℕ) (s : Party)
    → ev.on_disband ≡ true
    → IsConsistent s
    → IsDissolved
        (forget player (disband ev (record s { invite_list = erase_first player s.invite_list })))
forget-IsDissolved ev player s allowed h =
    let s1 : Party = record s { invite_list = erase_first player s.invite_list } in
    let (same, dead, parties, invited) = disband-shape ev s1 allowed in
    record {
      deleted = dead;
      no_member = λ q.
          ground (arith, same, parties q, h.roster q, h.named, contains-iff-count q s.member_list);
      no_invitation = λ q. ground (
        arith,
        ap (λ n. count n ((disband ev s1).invitations q)) same,
        invited q,
        h.invited q,
        h.once q,
        count-erase_first q player s.invite_list,
        contains-iff-count q (erase_first player s.invite_list),
      );
    }

forget-Outcome :
    (ev : Events) (player : ℕ) (s : Party)
    → ev.on_disband ≡ true
    → IsConsistent s
    → count player s.invite_list ≡ 1
    → Outcome (forget player (remove_invite ev player false s).1)
unfolding remove_invite is_player_invited
forget-Outcome ev player s allowed h listed =
    let s1 : Party = record s { invite_list = erase_first player s.invite_list } in
    let found : contains player s.invite_list ≡ true =
      ground (arith, listed, contains-iff-count player s.invite_list) in
    elim (Bool-cases (empty s1)) [
      | inl none_left ↦ rw (found, none_left) (inr (forget-IsDissolved ev player s allowed h))
      | inr some_left ↦ rw (found, some_left) (inl (forget-shorter player s h))
    ]

forget-uninvited :
    (player : ℕ) (s : Party)
    → IsConsistent s
    → count player s.invite_list ≡ 0
    → IsConsistent (forget player s)
forget-uninvited player s h unlisted = record {
  lives = h.lives;
  named = h.named;
  roster = h.roster;
  invited = λ q. ground (arith, h.invited q, unlisted);
  once = h.once;
}

pub clear-Outcome :
    (ev : Events) (player : ℕ) (s : Party)
    → ev.on_disband ≡ true
    → IsConsistent s
    → Outcome (clear_party_invitations ev player s)
unfolding clear_party_invitations
clear-Outcome ev player s allowed h = elim (Bool-cases (count player s.invite_list == 0)) [
  | inl unlisted ↦
      let none_held = (==_iff _ _).0 unlisted in
      rw
        (clear_invites-none ev player (s.invitations player) s (sym (h.invited player) ∙ none_held))
        (inl (forget-uninvited player s h none_held))
  | inr listed ↦
      let one : count player s.invite_list ≡ 1 = ground (arith, listed, h.once player) in
      rw
        (clear_invites-once ev player (s.invitations player) s allowed
          (sym (h.invited player) ∙ one))
        (forget-Outcome ev player s allowed h one)
]
