-- ===== src/Party/Members.antt =====
-- The operations of a party (src/party.cpp) that change its members, invitations and leader.
-- Each returns the source's result with the new state.
use baiak_fonticak.Base.{ℕ, Bool, true, false, not, ◌&&◌, ◌||◌, none, some, List, [], ◌∷◌}
use baiak_fonticak.Base.{◌++◌, length, is_empty, get_or, erase_first, ◌==◌, ◌!=◌}
use baiak_fonticak.Base.{if◌then◌else◌}
use baiak_fonticak.Party.{Party, Events, World, update, set_party, remove_party_invitation}
use baiak_fonticak.Party.{add_party_invitation, empty, is_player_invited, disband}
use baiak_fonticak.Party.{update_shared_experience, can_enable_shared_experience, bool_eq}

unfoldable pub clear_player_points : World → ℕ → Party → Party
clear_player_points w player s = elim (s.ticks_map player) [
  | none ↦ s
  | some tick ↦ update_shared_experience w (record s { ticks_map = update s.ticks_map player none })
]

unfoldable pub update_player_ticks : World → ℕ → ℕ → Party → Party
update_player_ticks w player points s =
    if points != 0 && not (w.not_gain_in_fight player)
    then update_shared_experience w
        (record s { ticks_map = update s.ticks_map player (some w.now) })
    else s

unfoldable pub pass_party_leadership : Events → World → ℕ → Bool → Party → Bool × Party
pass_party_leadership ev w player force_remove s =
    if s.leader == player || s.party_of player != s.self
    then (false, s)
    else if not (ev.on_pass_leadership player) && not force_remove
    then (false, s)
    else (
      true,
      update_shared_experience w
          (record s { leader = player; member_list = s.leader ∷ erase_first player s.member_list }),
    )

-- `missingLeader` of leaveParty.
unfoldable pub is_missing_leader : ℕ → Party → Bool
is_missing_leader player s =
    s.leader == player
    && (is_empty s.member_list || (length s.member_list == 1 && is_empty s.invite_list))

-- memberList.front()
abbrev pub front : List ℕ → ℕ
front xs = get_or xs 0 0

-- The part of leaveParty after the leadership was passed.
unfoldable pub leave_tail : Events → World → ℕ → Bool → Party → Party
leave_tail ev w player missing_leader s =
    let s1 = record s { member_list = erase_first player s.member_list } in
    let s2 = update_shared_experience w (set_party player 0 s1) in
    let s3 = clear_player_points w player s2 in
    if missing_leader || empty s3 then disband ev s3 else s3

unfoldable pub leave_party : Events → World → ℕ → Party → Bool × Party
leave_party ev w player s =
    if s.party_of player != s.self && s.leader != player
    then (false, s)
    else if not (ev.on_leave player)
    then (false, s)
    else if s.leader == player && not (is_missing_leader player s)
    then (
      true,
      leave_tail ev w player false (pass_party_leadership ev w (front s.member_list) true s).1,
    )
    else (true, leave_tail ev w player (is_missing_leader player s) s)

unfoldable pub join_party : Events → World → ℕ → Party → Bool × Party
join_party ev w player s =
    if not (ev.on_join player)
    then (false, s)
    else if not (is_player_invited player s)
    then (false, s)
    else (
      true,
      update_shared_experience w (
          remove_party_invitation player (
            set_party player s.self (record s {
              invite_list = erase_first player s.invite_list;
              member_list = s.member_list ++ player ∷ [];
            }))),
    )

unfoldable pub remove_invite : Events → ℕ → Bool → Party → Bool × Party
remove_invite ev player remove_from_player s =
    if not (is_player_invited player s)
    then (false, s)
    else let s1 = record s { invite_list = erase_first player s.invite_list } in
      let s2 = if remove_from_player then remove_party_invitation player s1 else s1 in
      (true, if empty s2 then disband ev s2 else s2)

unfoldable pub revoke_invitation : Events → ℕ → Party → Party
revoke_invitation ev player s =
    if ev.on_revoke_invitation player then (remove_invite ev player true s).1 else s

unfoldable pub invite_player : ℕ → Party → Bool × Party
invite_player player s = if is_player_invited player s then (false, s) else (
  true,
  add_party_invitation player (record s { invite_list = s.invite_list ++ player ∷ [] }),
)

unfoldable pub set_shared_experience : World → ℕ → Bool → Party → Bool × Party
set_shared_experience w player active s =
    if s.leader != player
    then (false, s)
    else if bool_eq s.shared_exp_active active
    then (true, s)
    else let s1 = record s { shared_exp_active = active } in
      (
        true,
        if active then record s1 { shared_exp_enabled = can_enable_shared_experience w s1 } else s1,
      )

-- The loop of Player::clearPartyInvitations, as far as it is about this party: the other
-- invitations of the player are those of other parties.
unfoldable pub clear_invites : Events → ℕ → List ℕ → Party → Party
clear_invites ev player [] s = s
clear_invites ev player (party ∷ rest) s =
    clear_invites ev player rest
      (if party == s.self then (remove_invite ev player false s).1 else s)

unfoldable pub clear_party_invitations : Events → ℕ → Party → Party
clear_party_invitations ev player s =
    let s1 = clear_invites ev player (s.invitations player) s in
    record s1 { invitations = update s1.invitations player [] }
