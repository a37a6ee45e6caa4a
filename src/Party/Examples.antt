-- ===== src/Party/Examples.antt =====
-- A party of three, and the theorems of the party modules at it.
use baiak_fonticak.World.Position.{are_in_range_z, get_distance_x, get_distance_y}
use baiak_fonticak.World.Position.{get_distance_z}
use baiak_fonticak.Base.{◌≡◌, refl, true, false, none, [], ◌∷◌, arith, ◌==◌, if◌then◌else◌}
use baiak_fonticak.Party.{Party, Events, World, empty, update_shared_experience, all_can_use}
use baiak_fonticak.Party.{highest_level, can_use_shared_experience}
use baiak_fonticak.Party.{can_enable_shared_experience, remove_party_invitation}
use baiak_fonticak.Party.{is_player_invited}
use baiak_fonticak.Party.Members.{clear_player_points, pass_party_leadership}
use baiak_fonticak.Party.Members.{is_missing_leader, leave_tail, leave_party, join_party}
use baiak_fonticak.Party.Roster.{IsConsistent}
use baiak_fonticak.Party.Leaving.{Outcome}
use baiak_fonticak.Party.Steps.{leaves, Step-Outcome}
use baiak_fonticak.Party.Sharing.{Refresh, sharing-IsCurrent}

abbrev willing : Events
willing = record {
  on_disband = true;
  on_leave = λ p. true;
  on_pass_leadership = λ p. true;
  on_join = λ p. true;
  on_revoke_invitation = λ p. true;
}

abbrev evening : World
evening = record {
  level = λ p. 100;
  position = λ p. record { x = 1000; y = 1000; z = 7 };
  not_gain_in_fight = λ p. true;
  now = 0;
  pz_locked = 60000;
}

-- Party 9: player 1 leads 2 and 3, and has invited 4.
abbrev trio : Party
trio = record {
  self = 9;
  alive = true;
  leader = 1;
  member_list = 2 ∷ 3 ∷ [];
  invite_list = 4 ∷ [];
  ticks_map = λ p. none;
  shared_exp_active = false;
  shared_exp_enabled = false;
  party_of = λ p. if p == 1 then 9 else if p == 2 then 9 else if p == 3 then 9 else 0;
  invitations = λ p. if p == 4 then 9 ∷ [] else [];
}

trio-IsConsistent : IsConsistent trio
trio-IsConsistent = record {
  lives = refl;
  named = omega arith;
  roster = λ q. ground arith;
  invited = λ q. ground arith;
  once = λ q. ground arith;
}

Step-Outcome_example : Outcome (leave_party willing evening 1 trio).1
Step-Outcome_example = Step-Outcome {ev = willing} {w = evening} refl trio-IsConsistent (leaves 1)

-- The trio with its sharing switched on, but found impossible when it was last looked at.
abbrev sharing_trio : Party
sharing_trio = record trio { shared_exp_active = true; shared_exp_enabled = false }

sharing-IsCurrent_example :
    (join_party willing evening 4 sharing_trio).1.shared_exp_enabled
    ≡ can_enable_shared_experience evening (join_party willing evening 4 sharing_trio).1
unfolding join_party is_player_invited update_shared_experience remove_party_invitation
    can_enable_shared_experience can_use_shared_experience highest_level are_in_range_z
    get_distance_x get_distance_y get_distance_z all_can_use
sharing-IsCurrent_example =
    sharing-IsCurrent {ev = willing} {w = evening} {s = sharing_trio} (Refresh.joins 4 refl) refl
      refl

-- When player 4 joins, all are found able to share.
joining_starts_sharing : (join_party willing evening 4 sharing_trio).1.shared_exp_enabled ≡ true
unfolding join_party is_player_invited update_shared_experience remove_party_invitation
    can_enable_shared_experience can_use_shared_experience highest_level are_in_range_z
    get_distance_x get_distance_y get_distance_z all_can_use
joining_starts_sharing = refl

-- The leader leaves: the first member leads, and the leader is no member.
leader_leaves : (leave_party willing evening 1 trio).1.leader ≡ 2
unfolding leave_party is_missing_leader leave_tail pass_party_leadership clear_player_points
    update_shared_experience empty
leader_leaves = refl
